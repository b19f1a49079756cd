-- ===== src/Pool/Invariant.antt =====
-- The invariant of the pool of internal/dnsengine/ippool.go, and what `store` and `unlink`, the
-- changes that its methods are made of, do to it.
use next_path.Base.Map
use next_path.Base.{ℕ, none, some, ◌≡◌, ◌≢◌, ite, arith, length}
use next_path.Net.{IpKey, IpKey-discrete}
use next_path.Pool.{IpPool, find, shard, assign_real, forget_real, refresh_real, update_shard}
use next_path.Pool.Views.{
  key_index, fake_of, expiry_of, real_of, version_of, key_index-lt, shard-update_shard,
}

-- The global map and the shards are inverse to each other, a fake address has a version and a real
-- one an expiry exactly while they are mapped, and a shard holds its own keys only.
pub record IsValid (p : IpPool) : Type 0 where
  pub wide : length p.shards ≡ 64
  pub owned : (r f : IpKey) → fake_of p r ≡ some f → real_of p f ≡ some r
  pub bound : (r f : IpKey) → real_of p f ≡ some r → fake_of p r ≡ some f
  pub versioned : (f : IpKey) → real_of p f ≢ none → version_of p f ≢ none
  pub unversioned : (f : IpKey) → real_of p f ≡ none → version_of p f ≡ none
  pub timed : (r : IpKey) → fake_of p r ≢ none → expiry_of p r ≢ none
  pub untimed : (r : IpKey) → fake_of p r ≡ none → expiry_of p r ≡ none
  pub placed :
      (i : ℕ) (r : IpKey)
      → key_index r ≢ i
      → (find r (shard p i).real_to_fake ≡ none) × (find r (shard p i).expiries ≡ none)

-- A shard elsewhere, and the keys of another shard, are out of reach of a change.
abbrev pub Placed : IpPool → Type 0
Placed p =
    (i : ℕ) (r : IpKey)
    → key_index r ≢ i
    → (find r (shard p i).real_to_fake ≡ none) × (find r (shard p i).expiries ≡ none)

module _ (p : IpPool) (r₀ : IpKey) (wide : length p.shards ≡ 64) (placed : Placed p) where
  pub assign_real-Placed :
      (f₀ : IpKey) (e : ℕ) → Placed (update_shard (key_index r₀) (assign_real r₀ f₀ e) p)
  unfolding assign_real
  assign_real-Placed f₀ e i r h = ground (
    arith,
    placed i r h,
    key_index-lt r₀,
    shard-update_shard p (key_index r₀) (assign_real r₀ f₀ e) i,
    Map.get-put IpKey-discrete r r₀ f₀ (shard p (key_index r₀)).real_to_fake,
    Map.get-put IpKey-discrete r r₀ e (shard p (key_index r₀)).expiries,
  )

  pub forget_real-Placed : Placed (update_shard (key_index r₀) (forget_real r₀) p)
  unfolding forget_real
  forget_real-Placed i r h = ground (
    arith,
    placed i r h,
    key_index-lt r₀,
    shard-update_shard p (key_index r₀) (forget_real r₀) i,
    Map.get-delete IpKey-discrete r r₀ (shard p (key_index r₀)).real_to_fake,
    Map.get-delete IpKey-discrete r r₀ (shard p (key_index r₀)).expiries,
  )

  pub refresh_real-Placed : (e : ℕ) → Placed (update_shard (key_index r₀) (refresh_real r₀ e) p)
  unfolding refresh_real
  refresh_real-Placed e i r h = ground (
    arith,
    placed i r h,
    key_index-lt r₀,
    shard-update_shard p (key_index r₀) (refresh_real r₀ e) i,
    Map.get-put IpKey-discrete r r₀ e (shard p (key_index r₀)).expiries,
  )

-- `q` is `p` with `rk` and `fk` bound to each other and every other mapping of either gone.
pub record Rebinds (p q : IpPool) (rk fk : IpKey) (version expires : ℕ) : Type 0 where
  pub wide : length q.shards ≡ 64
  pub placed : Placed q
  pub fakes :
      (r : IpKey)
      → fake_of q r
        ≡ ite
            (IpKey-discrete r rk)
            (some fk)
            (elim (fake_of p r) [ none ↦ none | some f ↦ ite (IpKey-discrete f fk) none (some f) ])
  pub reals :
      (f : IpKey)
      → real_of q f
        ≡ ite
            (IpKey-discrete f fk)
            (some rk)
            (elim (real_of p f) [ none ↦ none | some r ↦ ite (IpKey-discrete r rk) none (some r) ])
  pub versions :
      (f : IpKey)
      → version_of q f
        ≡ ite (IpKey-discrete f fk) (some version) (elim (real_of p f) [
          | none ↦ none
          | some r ↦ ite (IpKey-discrete r rk) none (version_of p f)
        ])
  pub expiries :
      (r : IpKey)
      → expiry_of q r
        ≡ ite (IpKey-discrete r rk) (some expires) (elim (fake_of p r) [
          | none ↦ none
          | some f ↦ ite (IpKey-discrete f fk) none (expiry_of p r)
        ])

module _ (p q : IpPool) (rk fk : IpKey) (v e : ℕ) (valid : IsValid p)
    (b : Rebinds p q rk fk v e) where
  Rebinds-owned : (r f : IpKey) → fake_of q r ≡ some f → real_of q f ≡ some r
  Rebinds-owned r f h =
      ground (arith, b.fakes r, b.reals f, valid.owned r f, valid.owned rk f, valid.owned r fk)

  Rebinds-bound : (r f : IpKey) → real_of q f ≡ some r → fake_of q r ≡ some f
  Rebinds-bound r f h =
      ground (arith, b.fakes r, b.reals f, valid.bound r f, valid.bound rk f, valid.bound r fk)

  -- A change of one binding keeps the invariant.
  pub Rebinds-IsValid : IsValid q
  Rebinds-IsValid = record {
    wide = b.wide;
    owned = Rebinds-owned;
    bound = Rebinds-bound;
    versioned = λ f h. ground (arith, b.reals f, b.versions f, valid.versioned f);
    unversioned = λ f h. ground (arith, b.reals f, b.versions f, valid.unversioned f);
    timed = λ r h. ground (arith, b.fakes r, b.expiries r, valid.timed r);
    untimed = λ r h. ground (arith, b.fakes r, b.expiries r, valid.untimed r);
    placed = b.placed;
  }
