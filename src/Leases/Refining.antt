-- ===== src/Leases/Refining.antt =====
-- The methods of the pool in internal/dnsengine/ippool.go do what `Leases` says, in every sequence.
use next_path.Alloc.Round.{IsReady, Rebinds-keyed}
use next_path.Base.{
  ℕ, List, [], ◌∷◌, some, ◌≡◌, inl, inr, refl, sym, ◌∙◌, All, arith, dec_lt, Bool-cases,
  Option-cases,
}
use next_path.Lease.Frees.{prune_expired-exact}
use next_path.Lease.Keeping.{try_reserve-Reserves}
use next_path.Lease.{prune_expired, try_reserve}
use next_path.Leases.Settling.{try_reserve-Settles}
use next_path.Leases.Setup.{add_mapping-start6, prune_expired-start6, try_reserve-start6}
use next_path.Leases.Sharing.{get_fake_ips_for_reals-Gives}
use next_path.Leases.{
  Op, add, reserve, remove, prune, give, hear, run, run_all, HasIps, leases, OneToOne, Settles,
  Shrinks, Allows, Behaves,
}
use next_path.Net.Keys.{IsKey, to_ip_key-IsKey}
use next_path.Net.{Bytes, IpKey, IpKey-discrete, IsIp, to_ip_key}
use next_path.Pool.Adding.{add_mapping-Decides, add_mapping-IsValid, IsValid-maps}
use next_path.Pool.Claiming.{wins}
use next_path.Pool.Invariant.{IsValid}
use next_path.Pool.Removing.{remove_mapping-Removes}
use next_path.Pool.Views.{fake_of, expiry_of}
use next_path.Pool.{IpPool, add_mapping, remove_mapping, shard}
use next_path.Sync.Receiving.{Unchanged-fake_of}
use next_path.Sync.{observe}

-- Two real addresses never have one fake address.
IsValid-OneToOne : (p : IpPool) → IsValid p → OneToOne (leases p)
IsValid-OneToOne p valid r s f h₁ h₂ = ground (arith, valid.owned r f h₁, valid.owned s f h₂)

IsReady-after :
    (p q : IpPool)
    → IsReady p
    → IsValid q
    → q.pool_start6 ≡ p.pool_start6
    → ((r f : IpKey) → fake_of q r ≡ some f → IsKey f)
    → IsReady q
IsReady-after p q ready valid start keyed = record {
  valid = valid;
  keyed = keyed;
  start6 = rw start ready.start6;
  wide6 = rw start ready.wide6;
}

module _ (p : IpPool) (ready : IsReady p) where
  Refines : Op → Type 0
  Refines op = IsReady (run op p) × Allows op (leases p) (leases (run op p))

  add-Refines : (real fake : Bytes) (v e : ℕ) → IsIp real → IsIp fake → Refines (add real fake v e)
  unfolding Refines run
  add-Refines real fake v e ip fake_ip =
      let rk = to_ip_key real in
      let fk = to_ip_key fake in
      let q = (add_mapping real fake v e p).0 in
      let d = add_mapping-Decides p real fake v e ready.valid ip in
      let after =
        IsReady-after p q ready (add_mapping-IsValid p real fake v e ready.valid ip)
          (add_mapping-start6 real fake v e p) in
      elim (Bool-cases (wins p rk fk v)) [
        | inl won ↦
            let b = d.binds won in
            (
              after (Rebinds-keyed p q rk fk v e ready b (to_ip_key-IsKey fake fake_ip)),
              inr b.fakes,
            )
        | inr lost ↦
            let same = Unchanged-fake_of p q (d.keeps lost) in
            (after (λ r f h. ready.keyed r f (sym (same r) ∙ h)), inl same)
      ]

  Settles-keyed :
      (q : IpPool) (rk fk : IpKey)
      → IsKey fk
      → Settles rk fk (fake_of p) (fake_of q)
      → (r f : IpKey) → fake_of q r ≡ some f
      → IsKey f
  Settles-keyed q rk fk key (same, here) r f h = elim (IpKey-discrete r rk) [
    | no other ↦ ready.keyed r f (sym (same r other) ∙ h)
    | yes e ↦ elim here [
      | inl old ↦ ready.keyed r f (cc)
      | inr (inl free) ↦ absurd (cc)
      | inr (inr (new, apart)) ↦ let is : fk ≡ f = cc in rw (← is) key
    ]
  ]

  reserve-Refines :
      (real fake : Bytes) (v e now later : ℕ)
      → IsIp real
      → IsIp fake
      → Refines (reserve real fake v e now later)
  unfolding Refines run
  reserve-Refines real fake v e now later ip fake_ip =
      let settles = try_reserve-Settles p real fake v e now later ready.valid ip in
      let q = (try_reserve real fake v e now later p).0 in
      (
        IsReady-after p q ready
            (try_reserve-Reserves p real fake v e now later ready.valid ip).valid
            (try_reserve-start6 p real fake v e now later ready.valid ip)
            (Settles-keyed q _ _ (to_ip_key-IsKey fake fake_ip) settles),
        settles,
      )

  remove-Refines : (real fake : Bytes) → IsIp real → Refines (remove real fake)
  unfolding Refines run
  remove-Refines real fake ip =
      let r = remove_mapping-Removes p real fake ready.valid ip in
      (
        IsReady-after p (remove_mapping real fake p) ready r.valid r.start6
            (λ k f h. ready.keyed k f (r.from k f h)),
        (r.kept_real, r.from, r.parted),
      )

  prune-Shrinks : (now : ℕ) → Shrinks (fake_of p) (fake_of (prune_expired now p))
  prune-Shrinks now k f h =
      let (valid, freed, kept) = prune_expired-exact now p ready.valid in
      elim (Option-cases (expiry_of p k)) [
        | inl none_yet ↦ sym (kept k (λ x. rw none_yet at x)).0 ∙ h
        | inr (t, e) ↦ elim (dec_lt t now) [
          | yes dead ↦ absurd (cc (freed k (rw e dead)))
          | no live ↦ sym (kept k (λ x. live (rw e at x))).0 ∙ h
        ]
      ]

  prune-Refines : (now : ℕ) → Refines (prune now)
  unfolding Refines run
  prune-Refines now = (
    IsReady-after p (prune_expired now p) ready (prune_expired-exact now p ready.valid).0
        (prune_expired-start6 now p) (λ k f h. ready.keyed k f (prune-Shrinks now k f h)),
    prune-Shrinks now,
  )

  hear-Refines : (v now : ℕ) → Refines (hear v now)
  unfolding Refines run observe fake_of shard
  hear-Refines v now = (
    IsReady-after p (observe v now p) ready (IsValid-maps p _ refl refl refl ready.valid) refl
        ready.keyed,
    λ k. refl,
  )

  -- Each method.
  run-Refines : (op : Op) → HasIps op → Refines op
  unfolding Refines run
  run-Refines (add real fake v e) (ip, fake_ip) = add-Refines real fake v e ip fake_ip
  run-Refines (reserve real fake v e now later) (ip, fake_ip) =
      reserve-Refines real fake v e now later ip fake_ip
  run-Refines (remove real fake) ip = remove-Refines real fake ip
  run-Refines (prune now) t = prune-Refines now
  run-Refines (give is_ipv6 now clock reals) ips =
      get_fake_ips_for_reals-Gives is_ipv6 now clock reals p ready ips
  run-Refines (hear v now) t = hear-Refines v now

-- Any sequence of calls of AddMapping, TryReserve, RemoveMapping, PruneExpired, GetFakeIPsForReals and
-- ObserveVersion, with addresses of four or sixteen bytes, from a ready pool: the pool stays ready, and
-- its map from real to fake addresses goes through one-to-one maps only, each of which comes from the
-- one before by what the method promises of the map (`Allows`).
pub run_all-Behaves :
    (ops : List Op) (p : IpPool)
    → IsReady p
    → All HasIps ops
    → IsReady (run_all ops p) × Behaves ops (leases p) (leases (run_all ops p))
unfolding run_all Refines
run_all-Behaves [] p ready ips = (ready, λ k. refl)
run_all-Behaves (op ∷ ops) p ready (ip, ips) =
    let (ready_q, allowed) = run-Refines p ready op ip in
    let (ready_n, rest) = run_all-Behaves ops (run op p) ready_q ips in
    (ready_n, (leases (run op p), allowed, IsValid-OneToOne (run op p) ready_q.valid, rest))
