-- ===== src/Lease/Keeping.antt =====
-- TryReserve of internal/dnsengine/ippool.go: what it answers and leaves, on each of its paths.
use next_path.Base.{
  ℕ, ◌<◌, ◌+◌, ◌*◌, Bool, true, false, [], none, some, ◌≡◌, ◌≢◌, refl, arith, inl, inr,
  Option-cases, ltb, if◌then◌else◌,
}
use next_path.Lease.Checking.{Checked, check_lease-Checked, bind_free}
use next_path.Lease.Deciding.{Lapsed, Decides, check_lease-Decides}
use next_path.Lease.{Held, held, vacant, check_lease, reserve_key, try_reserve, minute}
use next_path.Net.{Bytes, IpKey, IsIp, to_ip_key, to_ip}
use next_path.Pool.Claiming.{get_shard_index-key}
use next_path.Pool.Invariant.{IsValid, Rebinds-IsValid}
use next_path.Pool.Views.{key_index, fake_of, expiry_of, real_of, version_of}
use next_path.Pool.{IpPool, store}

-- A live lease: its fake address is the answer, and only its expiry may change.
abbrev pub Keeps : IpPool → IpKey → ℕ → ℕ → ℕ → IpPool × Bool × Bytes → Type 0
Keeps p rk e now later r =
    (f : IpKey) (t : ℕ)
    → fake_of p rk ≡ some f
    → expiry_of p rk ≡ some t
    → now < t
    → (r.1 ≡ true)
      × (r.2 ≡ to_ip f)
      × (fake_of r.0 rk ≡ some f)
      × (expiry_of r.0 rk ≡ some (if ltb t (later + 5 * minute) then e else t))
      × ((g : IpKey) → (real_of r.0 g ≡ real_of p g) × (version_of r.0 g ≡ version_of p g))

-- No live lease, and the fake address is no other real one's: it is bound.
abbrev pub Binds : IpPool → IpKey → IpKey → Bytes → ℕ → ℕ → ℕ → IpPool × Bool × Bytes → Type 0
Binds p rk fk fake_ip v e now r =
    Lapsed p rk now
    → ((s : IpKey) → real_of p fk ≡ some s → s ≡ rk)
    → (r.1 ≡ true)
      × (r.2 ≡ fake_ip)
      × (fake_of r.0 rk ≡ some fk)
      × (real_of r.0 fk ≡ some rk)
      × (version_of r.0 fk ≡ some v)
      × (expiry_of r.0 rk ≡ some e)

-- No live lease, and the fake address is another's.
abbrev pub Refuses : IpPool → IpKey → IpKey → ℕ → IpPool × Bool × Bytes → Type 0
Refuses p rk fk now r =
    Lapsed p rk now
    → (s : IpKey) → real_of p fk ≡ some s
    → s ≢ rk
    → (r.1 ≡ false) × (r.2 ≡ []) × (fake_of r.0 rk ≡ none) × (real_of r.0 fk ≡ some s)

-- What a reservation leaves.
pub record Reserves (p : IpPool) (rk fk : IpKey) (fake_ip : Bytes) (v e now later : ℕ)
    (r : IpPool × Bool × Bytes) : Type 0 where
  pub valid : IsValid r.0
  pub kept : Keeps p rk e now later r
  pub bound : Binds p rk fk fake_ip v e now r
  pub refused : Refuses p rk fk now r
  pub others :
      (k : IpKey) → k ≢ rk → (fake_of r.0 k ≡ fake_of p k) × (expiry_of r.0 k ≡ expiry_of p k)

module _ (p : IpPool) (rk fk : IpKey) (fake_ip : Bytes) (v e now later : ℕ)
    (valid : IsValid p) where
  Result : IpPool × Bool × Bytes → Type 0
  Result r = Reserves p rk fk fake_ip v e now later r

  -- A lease is live or lapsed, not both.
  apart : (t : ℕ) → expiry_of p rk ≡ some t → now < t → Lapsed p rk now → ⊥
  apart t e live lapsed = omega (arith, live, lapsed t e)

  held-Result :
      (q : IpPool) (f : IpKey)
      → Checked p rk (held q f)
      → Decides p rk e now later (held q f)
      → Result (q, true, to_ip f)
  unfolding Result
  held-Result q f (valid_q, setup, old, same) (t, at, live, time, times, kept) = record {
    valid = valid_q;
    kept = λ g s h₁ h₂ lt.
        let one : f ≡ g = cc in
        let other : t ≡ s = cc in
        (refl, rw one refl, rw (same rk, old, one) refl, rw (time, other) refl, kept);
    bound = λ lapsed own. absurd (apart t at live lapsed);
    refused = λ lapsed s h n. absurd (apart t at live lapsed);
    others = λ k n. (same k, times k n);
  }

  taken-Result :
      (q : IpPool) (r : IpKey)
      → Checked p rk (vacant q)
      → Decides p rk e now later (vacant q)
      → real_of q fk ≡ some r
      → Result (q, false, [])
  unfolding Result
  taken-Result q r (valid_q, setup, free, same) (lapsed, times, opens, stays) h = record {
    valid = valid_q;
    kept = λ g s h₁ h₂ lt. absurd (apart s h₂ lt lapsed);
    bound = λ old own. absurd (cc (opens fk own));
    refused = λ old s at n. (refl, refl, free, stays fk s at n);
    others = λ k n. (same k n, times k n);
  }

  free-Result :
      (q : IpPool)
      → Checked p rk (vacant q)
      → Decides p rk e now later (vacant q)
      → real_of q fk ≡ none
      → Result (store (key_index rk) rk fk v e none q, true, fake_ip)
  unfolding Result
  free-Result q (valid_q, setup, free, same) (lapsed, times, opens, stays) h =
      let b = bind_free q rk fk v e valid_q free h in
      record {
        valid = Rebinds-IsValid q _ rk fk v e valid_q b;
        kept = λ g s h₁ h₂ lt. absurd (apart s h₂ lt lapsed);
        bound = λ old own. (
          refl,
          refl,
          ground (arith, b.fakes rk),
          ground (arith, b.reals fk),
          ground (arith, b.versions fk),
          ground (arith, b.expiries rk),
        );
        refused = λ old s at n. absurd (cc (stays fk s at n));
        others = λ k n. (
          ground (arith, b.fakes k, same k n, valid_q.owned k fk),
          ground (arith, b.expiries k, times k n, valid_q.owned k fk, valid_q.untimed k),
        );
      }

  Result-cases :
      (h : Held)
      → Checked p rk h
      → Decides p rk e now later h
      → h ≡ check_lease (key_index rk) rk e now later p
      → Result (reserve_key (key_index rk) rk fk fake_ip v e now later p)
  unfolding reserve_key real_of
  Result-cases (held q f) c d eq = rw (← eq, reserve_key) (held-Result q f c d)
  Result-cases (vacant q) c d eq = elim (Option-cases (real_of q fk)) [
    | inr (r, h) ↦ rw (← eq, reserve_key, h) (taken-Result q r c d h)
    | inl h ↦ rw (← eq, reserve_key, h) (free-Result q c d h)
  ]

  reserve_key-Result : Result (reserve_key (key_index rk) rk fk fake_ip v e now later p)
  reserve_key-Result =
      Result-cases (check_lease (key_index rk) rk e now later p)
        (check_lease-Checked p rk e now later valid) (check_lease-Decides p rk e now later valid)
        refl

-- TryReserve of a real address of four or sixteen bytes keeps the invariant. If the real address has
-- a lease that expires after the first reading of the clock, the answer is its fake address; the
-- lease, its version and all owners stay, and its expiry is renewed exactly if it lies less than five
-- minutes after the second reading. Otherwise, if the fake address is free or was this real one's, it
-- is bound with the given version and expiry and returned; and if it is another's, the answer is false
-- with no address, the expired lease is gone and the other keeps its own. The fake addresses and
-- expiries of all other real addresses stay.
pub try_reserve-Reserves :
    (p : IpPool) (real_ip fake_ip : Bytes) (v e now later : ℕ)
    → IsValid p
    → IsIp real_ip
    → Reserves p
        (to_ip_key real_ip)
        (to_ip_key fake_ip)
        fake_ip
        v
        e
        now
        later
        (try_reserve real_ip fake_ip v e now later p)
unfolding try_reserve Result
try_reserve-Reserves p real_ip fake_ip v e now later valid ip =
    rw (get_shard_index-key real_ip ip)
      (reserve_key-Result p (to_ip_key real_ip) (to_ip_key fake_ip) fake_ip v e now later valid)
