-- ===== src/Lease/Checking.antt =====
-- What the lease test of TryReserve and GetFakeIPsForReals in internal/dnsengine/ippool.go keeps.
use next_path.Base.{
  ℕ, ◌+◌, ◌*◌, Bool, true, false, none, some, ◌≡◌, ◌≢◌, refl, arith, ◌∙◌, inl, inr, Option-cases,
  Bool-cases, ltb, if◌then◌else◌,
}
use next_path.Lease.{Held, held, vacant, check_lease, minute}
use next_path.Net.{IpKey}
use next_path.Pool.Claiming.{Prepared-unmapped}
use next_path.Pool.Invariant.{IsValid, refresh_real-Placed, Rebinds}
use next_path.Pool.Store.{owner, store-Rebinds, unlink-IsValid, fake_of-unlink}
use next_path.Pool.Views.{
  key_index, fake_of, expiry_of, real_of, fake_of-refresh_real, expiry_of-refresh_real,
  length-update_shard, real_of-update_shard, version_of-update_shard,
}
use next_path.Pool.{IpPool, unlink, update_shard, refresh_real, store, forget_fake}

module _ (p : IpPool) (rk f : IpKey) (e : ℕ) (valid : IsValid p) (h : fake_of p rk ≡ some f) where
  abbrev refreshed : IpPool
  refreshed = update_shard (key_index rk) (refresh_real rk e) p

  -- A new expiry for a mapped address keeps the invariant.
  pub refresh_real-IsValid : IsValid refreshed
  refresh_real-IsValid = record {
    wide = length-update_shard p (key_index rk) (refresh_real rk e) ∙ valid.wide;
    owned = λ r g. ground (
      arith,
      fake_of-refresh_real p rk rk e valid.wide r,
      real_of-update_shard p (key_index rk) (refresh_real rk e) g,
      valid.owned r g,
    );
    bound = λ r g. ground (
      arith,
      fake_of-refresh_real p rk rk e valid.wide r,
      real_of-update_shard p (key_index rk) (refresh_real rk e) g,
      valid.bound r g,
    );
    versioned = λ g. ground (
      arith,
      real_of-update_shard p (key_index rk) (refresh_real rk e) g,
      version_of-update_shard p (key_index rk) (refresh_real rk e) g,
      valid.versioned g,
    );
    unversioned = λ g. ground (
      arith,
      real_of-update_shard p (key_index rk) (refresh_real rk e) g,
      version_of-update_shard p (key_index rk) (refresh_real rk e) g,
      valid.unversioned g,
    );
    timed = λ r. ground (
      arith,
      fake_of-refresh_real p rk rk e valid.wide r,
      expiry_of-refresh_real p rk rk e valid.wide r,
      valid.timed r,
    );
    untimed = λ r. ground (
      arith,
      fake_of-refresh_real p rk rk e valid.wide r,
      expiry_of-refresh_real p rk rk e valid.wide r,
      valid.untimed r,
    );
    placed = refresh_real-Placed p rk valid.wide valid.placed e;
  }

-- What the allocator reads of a pool beside its maps.
pub record SameSetup (p q : IpPool) : Type 0 where
  pub hlc : q.hlc ≡ p.hlc
  pub pool_start : q.pool_start ≡ p.pool_start
  pub pool_size : q.pool_size ≡ p.pool_size
  pub pool_start6 : q.pool_start6 ≡ p.pool_start6
  pub pool_size6 : q.pool_size6 ≡ p.pool_size6

-- A held lease is the one that stood, and every mapping is as it was. Otherwise the address is
-- free, and the mappings of all others are as they were.
abbrev pub Checked : IpPool → IpKey → Held → Type 0
Checked p rk (held q f) =
    IsValid q × SameSetup p q × (fake_of p rk ≡ some f) × ((r : IpKey) → fake_of q r ≡ fake_of p r)
Checked p rk (vacant q) =
    IsValid q
    × SameSetup p q
    × (fake_of q rk ≡ none)
    × ((r : IpKey) → r ≢ rk → fake_of q r ≡ fake_of p r)

module _ (p : IpPool) (rk : IpKey) (renewed now later : ℕ) (valid : IsValid p) where
  abbrev result : Held
  result = check_lease (key_index rk) rk renewed now later p

  same_setup : SameSetup p p
  same_setup = record {
    hlc = refl;
    pool_start = refl;
    pool_size = refl;
    pool_start6 = refl;
    pool_size6 = refl;
  }

  refreshed_setup : SameSetup p (update_shard (key_index rk) (refresh_real rk renewed) p)
  unfolding update_shard
  refreshed_setup = record {
    hlc = refl;
    pool_start = refl;
    pool_size = refl;
    pool_start6 = refl;
    pool_size6 = refl;
  }

  unlinked_setup : (f : IpKey) → SameSetup p (unlink (key_index rk) rk f p)
  unfolding unlink update_shard forget_fake
  unlinked_setup f = record {
    hlc = refl;
    pool_start = refl;
    pool_size = refl;
    pool_start6 = refl;
    pool_size6 = refl;
  }

  Checked-live :
      (f : IpKey)
      → fake_of p rk ≡ some f
      → (renew : Bool)
      → Checked p rk
          (held (if renew then update_shard (key_index rk) (refresh_real rk renewed) p else p) f)
  Checked-live f h true = (
    refresh_real-IsValid p rk f renewed valid h,
    refreshed_setup,
    h,
    fake_of-refresh_real p rk rk renewed valid.wide,
  )
  Checked-live f h false = (valid, same_setup, h, λ r. refl)

  Checked-dropped :
      (f : IpKey) → fake_of p rk ≡ some f → Checked p rk (vacant (unlink (key_index rk) rk f p))
  Checked-dropped f h = (
    unlink-IsValid p rk f valid h,
    unlinked_setup f,
    ground (arith, fake_of-unlink p rk f valid.wide rk),
    λ r n. ground (arith, fake_of-unlink p rk f valid.wide r),
  )

  -- The test on each of its paths.
  pub check_lease-Checked : Checked p rk result
  unfolding check_lease fake_of expiry_of
  check_lease-Checked = elim (Option-cases (fake_of p rk)) [
    | inl h ↦ rw (h, check_lease) (valid, same_setup, h, λ r n. refl)
    | inr (f, h) ↦ elim (Option-cases (expiry_of p rk)) [
      | inl e ↦ rw (h, e, check_lease) (valid, same_setup, h, λ r. refl)
      | inr (t, e) ↦ elim (Bool-cases (ltb now t)) [
        | inl live ↦ rw (h, e, live, check_lease) (Checked-live f h (ltb t (later + 5 * minute)))
        | inr dead ↦ rw (h, e, dead, check_lease) (Checked-dropped f h)
      ]
    ]
  ]

-- Two free addresses are bound by `store`.
pub bind_free :
    (p : IpPool) (rk fk : IpKey) (v e : ℕ)
    → IsValid p
    → fake_of p rk ≡ none
    → real_of p fk ≡ none
    → Rebinds p (store (key_index rk) rk fk v e none p) rk fk v e
unfolding owner
bind_free p rk fk v e valid h₁ h₂ =
    rw h₂ at (store-Rebinds p p rk fk v e valid (Prepared-unmapped p rk fk valid h₁))
