-- ===== src/Lease/Deciding.antt =====
-- When the lease test of TryReserve and GetFakeIPsForReals in internal/dnsengine/ippool.go finds a live
-- lease, and what it makes of the expiry.
use next_path.Base.{
  if_neg, if_pos, ◌<◌, ◌≤◌, ℕ, ◌+◌, ◌*◌, Bool, true, false, none, some, ◌≡◌, ◌≢◌, refl, arith, ◌∙◌,
  inl, inr, Option-cases, Bool-cases, ltb, if◌then◌else◌,
}
use next_path.Lease.{IpKey-discrete, Held, held, vacant, check_lease, minute}
use next_path.Net.{IpKey}
use next_path.Pool.Invariant.{IsValid}
use next_path.Pool.Store.{real_of-unlink, expiry_of-unlink}
use next_path.Pool.Views.{
  version_of, key_index, fake_of, expiry_of, real_of, expiry_of-refresh_real, real_of-update_shard,
  version_of-update_shard,
}
use next_path.Pool.{IpPool, unlink, update_shard, refresh_real}

-- There is no lease, or it has run out.
abbrev pub Lapsed : IpPool → IpKey → ℕ → Type 0
Lapsed p rk now = (t : ℕ) → expiry_of p rk ≡ some t → t ≤ now

-- Which of the two answers the test gives, and what it makes of expiries, owners and versions.
abbrev pub Decides : IpPool → IpKey → ℕ → ℕ → ℕ → Held → Type 0
Decides p rk renewed now later (held q f) =
    (t : ℕ) × (expiry_of p rk ≡ some t)
    × (now < t)
    × (expiry_of q rk ≡ some (if ltb t (later + 5 * minute) then renewed else t))
    × ((k : IpKey) → k ≢ rk → expiry_of q k ≡ expiry_of p k)
    × ((g : IpKey) → (real_of q g ≡ real_of p g) × (version_of q g ≡ version_of p g))
Decides p rk renewed now later (vacant q) =
    Lapsed p rk now
    × ((k : IpKey) → k ≢ rk → expiry_of q k ≡ expiry_of p k)
    × ((g : IpKey) → ((s : IpKey) → real_of p g ≡ some s → s ≡ rk) → real_of q g ≡ none)
    × ((g s : IpKey) → real_of p g ≡ some s → s ≢ rk → real_of q g ≡ some s)

module _ (p : IpPool) (rk : IpKey) (renewed now later : ℕ) (valid : IsValid p) where
  Decides-live :
      (f : IpKey) (t : ℕ)
      → expiry_of p rk ≡ some t
      → now < t
      → (renew : Bool) → ltb t (later + 5 * minute) ≡ renew
      → Decides p rk renewed now later
          (held (if renew then update_shard (key_index rk) (refresh_real rk renewed) p else p) f)
  Decides-live f t e live true soon =
      let times = expiry_of-refresh_real p rk rk renewed valid.wide in
      (
        t,
        e,
        live,
        rw soon (times rk ∙ if_pos (IpKey-discrete rk rk) refl _ _),
        λ k n. times k ∙ if_neg (IpKey-discrete k rk) n _ _,
        λ g. (
          real_of-update_shard p (key_index rk) (refresh_real rk renewed) g,
          version_of-update_shard p (key_index rk) (refresh_real rk renewed) g,
        ),
      )
  Decides-live f t e live false far = (t, e, live, rw far e, λ k n. refl, λ g. (refl, refl))

  Decides-dropped :
      (f : IpKey)
      → fake_of p rk ≡ some f
      → Lapsed p rk now
      → Decides p rk renewed now later (vacant (unlink (key_index rk) rk f p))
  Decides-dropped f h lapsed = (
    lapsed,
    λ k n. ground (arith, expiry_of-unlink p rk f valid.wide k),
    λ g own. elim (Option-cases (real_of p g)) [
      | inl free ↦ ground (arith, real_of-unlink p rk f valid.wide g)
      | inr (s, e) ↦
          let same : s ≡ rk = own s e in
          ground (arith, real_of-unlink p rk f valid.wide g, valid.bound s g)
    ],
    λ g s e n. ground (arith, real_of-unlink p rk f valid.wide g, valid.owned rk f),
  )

  Decides-unmapped : fake_of p rk ≡ none → Decides p rk renewed now later (vacant p)
  Decides-unmapped h = (
    λ t e. absurd (cc (valid.untimed rk h)),
    λ k n. refl,
    λ g own. elim (Option-cases (real_of p g)) [
      | inl free ↦ free
      | inr (s, e) ↦ let same : s ≡ rk = own s e in ground (arith, valid.bound s g)
    ],
    λ g s e n. e,
  )

  -- The test on each of its paths.
  pub check_lease-Decides :
      Decides p rk renewed now later (check_lease (key_index rk) rk renewed now later p)
  unfolding check_lease fake_of expiry_of
  check_lease-Decides = elim (Option-cases (fake_of p rk)) [
    | inl h ↦ rw (h, check_lease) (Decides-unmapped h)
    | inr (f, h) ↦ elim (Option-cases (expiry_of p rk)) [
      | inl e ↦ absurd (valid.timed rk (cc) e)
      | inr (t, e) ↦ elim (Bool-cases (ltb now t)) [
        | inl live ↦
            rw (h, e, live, check_lease)
              (Decides-live f t e (ground arith) (ltb t (later + 5 * minute)) refl)
        | inr dead ↦ rw (h, e, dead, check_lease) (Decides-dropped f h (λ s same. ground arith))
      ]
    ]
  ]
