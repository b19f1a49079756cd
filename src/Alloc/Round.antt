-- ===== src/Alloc/Round.antt =====
-- One round of the loop of GetFakeIPsForReals in internal/dnsengine/ippool.go.
use next_path.Alloc.Choosing.{IsFree, choose_fake-IsFree}
use next_path.Alloc.{
  Allocated, done, exhausted, Given, answer, grant, allocate_locked, allocate_key, choose_fake,
}
use next_path.Base.Map
use next_path.Base.{
  ℕ, ◌+◌, ◌*◌, Bool, none, some, ◌≡◌, ◌≢◌, refl, sym, ap, ◌∙◌, ◌⊎◌, inl, inr, arith, length, ltb,
  Bool-cases, Option-cases,
}
use next_path.Hlc.{get_next_version}
use next_path.Lease.Checking.{Checked, SameSetup, check_lease-Checked, bind_free}
use next_path.Lease.{Held, held, vacant, check_lease, mapping_ttl, minute}
use next_path.Net.Keys.{IsKey, to_ip_key-IsKey, to_ip_key-to_ip}
use next_path.Net.{Bytes, IpKey, IpKey-discrete, IsIp, to_ip_key, to_ip}
use next_path.Pool.Invariant.{IsValid, Rebinds, Rebinds-IsValid}
use next_path.Pool.Views.{key_index, fake_of, expiry_of, real_of, version_of}
use next_path.Pool.{IpPool, shard, store, assign_fake, update_shard, clear_old}

-- A valid pool whose fake keys are keys of addresses, with an IPv6 start of sixteen bytes.
pub record IsReady (p : IpPool) : Type 0 where
  pub valid : IsValid p
  pub keyed : (r f : IpKey) → fake_of p r ≡ some f → IsKey f
  pub start6 : IsIp p.pool_start6
  pub wide6 : length p.pool_start6 ≡ 16

-- The real address now has the fake one, which is the one that it had or a new one; the fake
-- addresses of all other real ones are as they were. Without a free address nothing is added.
abbrev pub Rounds : IpPool → IpKey → Given → Allocated → Type 0
Rounds p rk g (done q h) =
    IsReady q
    × ((k : IpKey) → k ≢ rk → fake_of q k ≡ fake_of p k)
    × ((ip : Bytes) × (fake_of q rk ≡ some (to_ip_key ip))
        × (h.result ≡ Map.put IpKey-discrete rk ip g.result)
        × (((h.new_mappings ≡ g.new_mappings) × (fake_of q rk ≡ fake_of p rk))
            ⊎ ((v : ℕ) × (h.new_mappings
                  ≡ Map.put IpKey-discrete rk (record { ip = ip; version = v }) g.new_mappings))))
Rounds p rk g (exhausted q h) =
    IsReady q × ((k : IpKey) → k ≢ rk → fake_of q k ≡ fake_of p k) × (fake_of q rk ≡ none) × (h ≡ g)

record SameStart (p q : IpPool) : Type 0 where
  start : q.pool_start6 ≡ p.pool_start6

-- The clock is out of sight of the maps.
with_hlc : ℕ → IpPool → IpPool
with_hlc v p = record p { hlc = v }

with_hlc-IsValid : (p : IpPool) (v : ℕ) → IsValid p → IsValid (with_hlc v p)
unfolding with_hlc fake_of expiry_of real_of version_of shard
with_hlc-IsValid p v h = record {
  wide = h.wide;
  owned = h.owned;
  bound = h.bound;
  versioned = h.versioned;
  unversioned = h.unversioned;
  timed = h.timed;
  untimed = h.untimed;
  placed = h.placed;
}

with_hlc-IsReady : (p : IpPool) (v : ℕ) → IsReady p → IsReady (with_hlc v p)
unfolding with_hlc fake_of shard
with_hlc-IsReady p v h = record {
  valid = with_hlc-IsValid p v h.valid;
  keyed = h.keyed;
  start6 = h.start6;
  wide6 = h.wide6;
}

module _ (p q : IpPool) (rk fk : IpKey) (v e : ℕ) (ready : IsReady p)
    (b : Rebinds p q rk fk v e) where
  pub Rebinds-keyed : IsKey fk → (r f : IpKey) → fake_of q r ≡ some f → IsKey f
  Rebinds-keyed key r f h = elim (IpKey-discrete f fk) [
    | yes same ↦ rw same key
    | no other ↦ ready.keyed r f (ground (arith, b.fakes r))
  ]

  Rebinds-others : real_of p fk ≡ none → (k : IpKey) → k ≢ rk → fake_of q k ≡ fake_of p k
  Rebinds-others free k n = ground (arith, b.fakes k, ready.valid.owned k fk)

module _ (now clock : ℕ) (p : IpPool) (rk : IpKey) (g : Given) (ready : IsReady p) where
  granted : Bytes → IpPool
  granted fake =
      store (key_index rk) rk (to_ip_key fake) (get_next_version clock p.hlc) (now + mapping_ttl)
        none (with_hlc (get_next_version clock p.hlc) p)

  granted_setup : (fake : Bytes) → SameStart p (granted fake)
  unfolding granted store with_hlc assign_fake update_shard clear_old
  granted_setup fake = record { start = refl }

  -- A new lease.
  grant-Rounds :
      (fake : Bytes)
      → IsFree p fake
      → fake_of p rk ≡ none
      → Rounds p rk g (grant (key_index rk) rk now clock fake p g)
  unfolding grant granted with_hlc fake_of real_of shard
  grant-Rounds fake free none_yet =
      let v = get_next_version clock p.hlc in
      let fk = to_ip_key fake in
      let p' = with_hlc v p in
      let ready' = with_hlc-IsReady p v ready in
      let b = bind_free p' rk fk v (now + mapping_ttl) ready'.valid none_yet free.nobody in
      (
        record {
          valid = Rebinds-IsValid p' (granted fake) rk fk v _ ready'.valid b;
          keyed =
              Rebinds-keyed p' (granted fake) rk fk v _ ready' b
                (to_ip_key-IsKey fake free.address);
          start6 = rw (granted_setup fake).start ready.start6;
          wide6 = rw (granted_setup fake).start ready.wide6;
        },
        Rebinds-others p' (granted fake) rk fk v _ ready' b free.nobody,
        (fake, ground (arith, b.fakes rk), refl, inr (v, refl)),
      )

-- The pool that a round starts from may be one that the lease test left.
Rounds-from :
    (p q : IpPool) (rk : IpKey) (g : Given) (a : Allocated)
    → ((k : IpKey) → k ≢ rk → fake_of q k ≡ fake_of p k)
    → fake_of q rk ≡ none
    → Rounds q rk g a
    → Rounds p rk g a
Rounds-from p q rk g (done q' h) same none_yet (ready, others, (ip, has, put, kind)) = (
  ready,
  λ k n. others k n ∙ same k n,
  (ip, has, put, elim kind [ inl (old, e) ↦ absurd (cc) | inr n ↦ inr n ]),
)
Rounds-from p q rk g (exhausted q' h) same none_yet (ready, others, lost, e) =
    (ready, λ k n. others k n ∙ same k n, lost, e)

module _ (p : IpPool) (rk : IpKey) (ready : IsReady p) where
  Checked-keyed :
      (q : IpPool)
      → ((k : IpKey) → k ≢ rk → fake_of q k ≡ fake_of p k)
      → (fake_of q rk ≡ none) ⊎ (fake_of q rk ≡ fake_of p rk)
      → (r f : IpKey) → fake_of q r ≡ some f
      → IsKey f
  Checked-keyed q same here r f h = elim (IpKey-discrete r rk) [
    | no n ↦ ready.keyed r f (sym (same r n) ∙ h)
    | yes e ↦ elim here [ inl free ↦ absurd (cc) | inr old ↦ ready.keyed r f (cc) ]
  ]

  Checked-IsReady :
      (q : IpPool)
      → IsValid q
      → SameSetup p q
      → ((k : IpKey) → k ≢ rk → fake_of q k ≡ fake_of p k)
      → (fake_of q rk ≡ none) ⊎ (fake_of q rk ≡ fake_of p rk)
      → IsReady q
  Checked-IsReady q valid setup same here = record {
    valid = valid;
    keyed = Checked-keyed q same here;
    start6 = rw setup.pool_start6 ready.start6;
    wide6 = rw setup.pool_start6 ready.wide6;
  }

module _ (is_ipv6 : Bool) (now clock : ℕ) (real_ip : Bytes) (p : IpPool) (rk : IpKey) (g : Given)
    (ready : IsReady p) where
  vacant-Rounds :
      (q : IpPool)
      → IsReady q
      → fake_of q rk ≡ none
      → Rounds q rk g (elim (choose_fake is_ipv6 real_ip q) [
        | none ↦ exhausted q g
        | some fake ↦ grant (key_index rk) rk now clock fake q g
      ])
  vacant-Rounds q ready_q free = elim (Option-cases (choose_fake is_ipv6 real_ip q)) [
    | inl e ↦ rw e (ready_q, λ k n. refl, free, refl)
    | inr (fake, e) ↦ rw e (
        grant-Rounds now clock q rk g ready_q fake
          (choose_fake-IsFree q ready_q.start6 ready_q.wide6 is_ipv6 real_ip fake e) free)
  ]

  -- A lease that stands answers with the address of its key.
  answer-Rounds :
      (q : IpPool) (f : IpKey)
      → IsReady q
      → fake_of p rk ≡ some f
      → ((k : IpKey) → fake_of q k ≡ fake_of p k)
      → Rounds p rk g (done q (answer rk (to_ip f) g))
  answer-Rounds q f ready_q old same = (
    ready_q,
    λ k n. same k,
    (
      to_ip f,
      same rk ∙ old ∙ ap some (sym (to_ip_key-to_ip f (ready.keyed rk f old))),
      refl,
      inl (refl, same rk),
    ),
  )

  Rounds-cases :
      (h : Held)
      → Checked p rk h
      → h ≡ check_lease (key_index rk) rk (now + mapping_ttl) now now p
      → Rounds p rk g (allocate_locked is_ipv6 now clock real_ip (key_index rk) rk p g)
  unfolding allocate_locked
  Rounds-cases (held q f) (valid, setup, old, same) eq =
      rw (← eq, allocate_locked)
        (answer-Rounds q f
          (Checked-IsReady p rk ready q valid setup (λ k n. same k) (inr (same rk))) old same)
  Rounds-cases (vacant q) (valid, setup, free, same) eq =
      rw (← eq, allocate_locked)
        (Rounds-from p q rk g _ same free
          (vacant-Rounds q (Checked-IsReady p rk ready q valid setup same (inl free)) free))

  -- The locked part of a round.
  pub allocate_locked-Rounds :
      Rounds p rk g (allocate_locked is_ipv6 now clock real_ip (key_index rk) rk p g)
  allocate_locked-Rounds =
      Rounds-cases (check_lease (key_index rk) rk (now + mapping_ttl) now now p)
        (check_lease-Checked p rk (now + mapping_ttl) now now ready.valid) refl

  -- A whole round.
  pub allocate_key-Rounds :
      Rounds p rk g (allocate_key is_ipv6 now clock real_ip (key_index rk) rk p g)
  unfolding allocate_key fake_of expiry_of
  allocate_key-Rounds = elim (Option-cases (fake_of p rk)) [
    | inl h ↦ rw (h, allocate_key) allocate_locked-Rounds
    | inr (f, h) ↦
        elim (Bool-cases
          (ltb (now + 5 * minute) (elim (expiry_of p rk) [ none ↦ 0 | some e ↦ e ]))) [
            | inl fresh ↦ rw (h, fresh, allocate_key) (answer-Rounds p f ready h (λ k. refl))
            | inr old ↦ rw (h, old, allocate_key) allocate_locked-Rounds
          ]
  ]
