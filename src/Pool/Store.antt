-- ===== src/Pool/Store.antt =====
-- `store` binds two keys and `unlink` parts them: the ends of AddMapping, TryReserve and
-- RemoveMapping in internal/dnsengine/ippool.go.
use next_path.Base.{ℕ, Option, none, some, ◌≡◌, ◌≢◌, ite, refl, arith, length, ◌∙◌}
use next_path.Net.{IpKey, IpKey-discrete}
use next_path.Pool.{
  IpPool, store, unlink, clear_old, assign_real, forget_real, update_shard, forget_fake,
  assign_fake,
}
use next_path.Pool.Views.{
  key_index, fake_of, expiry_of, real_of, version_of, length-update_shard, fake_of-assign_real,
  expiry_of-assign_real, fake_of-forget_real, expiry_of-forget_real, real_of-assign_fake,
  version_of-assign_fake, real_of-forget_fake, version_of-forget_fake, fake_of-assign_fake,
  expiry_of-assign_fake, fake_of-forget_fake, expiry_of-forget_fake, real_of-update_shard,
  version_of-update_shard, length-forget_fake, shard-forget_fake, shard-assign_fake,
}
use next_path.Pool.Invariant.{IsValid, Placed, Rebinds, assign_real-Placed, forget_real-Placed}

pub forget_fake-Placed : (p : IpPool) (f₀ : IpKey) → Placed p → Placed (forget_fake f₀ p)
forget_fake-Placed p f₀ h i r n = rw (shard-forget_fake p f₀ i) (h i r n)

assign_fake-Placed :
    (p : IpPool) (f₀ r₀ : IpKey) (v : ℕ) → Placed p → Placed (assign_fake f₀ r₀ v p)
assign_fake-Placed p f₀ r₀ v h i r n = rw (shard-assign_fake p f₀ r₀ v i) (h i r n)

module _ (p : IpPool) (r₀ f₀ : IpKey) (wide : length p.shards ≡ 64) where
  cleared : IpPool
  cleared = update_shard (key_index r₀) (forget_real r₀) p

  pub fake_of-unlink :
      (r : IpKey)
      → fake_of (unlink (key_index r₀) r₀ f₀ p) r ≡ ite (IpKey-discrete r r₀) none (fake_of p r)
  unfolding unlink cleared
  fake_of-unlink r = fake_of-forget_fake cleared f₀ r ∙ fake_of-forget_real p r₀ f₀ 0 wide r

  pub expiry_of-unlink :
      (r : IpKey)
      → expiry_of (unlink (key_index r₀) r₀ f₀ p) r ≡ ite (IpKey-discrete r r₀) none (expiry_of p r)
  unfolding unlink cleared
  expiry_of-unlink r = expiry_of-forget_fake cleared f₀ r ∙ expiry_of-forget_real p r₀ f₀ 0 wide r

  pub real_of-unlink :
      (f : IpKey)
      → real_of (unlink (key_index r₀) r₀ f₀ p) f ≡ ite (IpKey-discrete f f₀) none (real_of p f)
  unfolding unlink cleared
  real_of-unlink f = ground (
    arith,
    real_of-forget_fake cleared f₀ f,
    real_of-update_shard p (key_index r₀) (forget_real r₀) f,
  )

  pub version_of-unlink :
      (f : IpKey)
      → version_of (unlink (key_index r₀) r₀ f₀ p) f
        ≡ ite (IpKey-discrete f f₀) none (version_of p f)
  unfolding unlink cleared
  version_of-unlink f = ground (
    arith,
    version_of-forget_fake cleared f₀ f,
    version_of-update_shard p (key_index r₀) (forget_real r₀) f,
  )

  length-unlink : length (unlink (key_index r₀) r₀ f₀ p).shards ≡ 64
  unfolding unlink cleared
  length-unlink =
      length-forget_fake cleared f₀ ∙ length-update_shard p (key_index r₀) (forget_real r₀) ∙ wide

  unlink-Placed : Placed p → Placed (unlink (key_index r₀) r₀ f₀ p)
  unfolding unlink cleared
  unlink-Placed h = forget_fake-Placed cleared f₀ (forget_real-Placed p r₀ wide h)

-- Ending a mapping that stands keeps the invariant.
pub unlink-IsValid :
    (p : IpPool) (r₀ f₀ : IpKey)
    → IsValid p
    → fake_of p r₀ ≡ some f₀
    → IsValid (unlink (key_index r₀) r₀ f₀ p)
unlink-IsValid p r₀ f₀ valid h =
    let w = valid.wide in
    let fakes = fake_of-unlink p r₀ f₀ w in
    let times = expiry_of-unlink p r₀ f₀ w in
    let reals = real_of-unlink p r₀ f₀ w in
    let versions = version_of-unlink p r₀ f₀ w in
    record {
      wide = length-unlink p r₀ f₀ w;
      owned = λ r f e. ground (arith, fakes r, reals f, valid.owned r f, valid.owned r₀ f₀);
      bound = λ r f e. ground (arith, fakes r, reals f, valid.bound r f);
      versioned = λ f e. ground (arith, reals f, versions f, valid.versioned f);
      unversioned = λ f e. ground (arith, reals f, versions f, valid.unversioned f);
      timed = λ r e. ground (arith, fakes r, times r, valid.timed r);
      untimed = λ r e. ground (arith, fakes r, times r, valid.untimed r);
      placed = unlink-Placed p r₀ f₀ w valid.placed;
    }

-- `clear_old` parts the previous owner of the fake key from it, in the owner's shard.
module _ (s : IpPool) (wide : length s.shards ≡ 64) where
  length-clear_old : (old : Option IpKey) → length (clear_old old s).shards ≡ 64
  unfolding clear_old key_index
  length-clear_old none = wide
  length-clear_old (some o) = length-update_shard s (key_index o) (forget_real o) ∙ wide

  fake_of-clear_old :
      (old : Option IpKey) (r : IpKey)
      → fake_of (clear_old old s) r
        ≡ elim old [ none ↦ fake_of s r | some o ↦ ite (IpKey-discrete r o) none (fake_of s r) ]
  unfolding clear_old key_index
  fake_of-clear_old none r = refl
  fake_of-clear_old (some o) r = fake_of-forget_real s o o 0 wide r

  expiry_of-clear_old :
      (old : Option IpKey) (r : IpKey)
      → expiry_of (clear_old old s) r
        ≡ elim old [ none ↦ expiry_of s r | some o ↦ ite (IpKey-discrete r o) none (expiry_of s r) ]
  unfolding clear_old key_index
  expiry_of-clear_old none r = refl
  expiry_of-clear_old (some o) r = expiry_of-forget_real s o o 0 wide r

  clear_old-Placed : (old : Option IpKey) → Placed s → Placed (clear_old old s)
  unfolding clear_old key_index
  clear_old-Placed none h = h
  clear_old-Placed (some o) h = forget_real-Placed s o wide h

  real_of-clear_old : (old : Option IpKey) (f : IpKey) → real_of (clear_old old s) f ≡ real_of s f
  unfolding clear_old
  real_of-clear_old none f = refl
  real_of-clear_old (some o) f = real_of-update_shard s _ (forget_real o) f

  version_of-clear_old :
      (old : Option IpKey) (f : IpKey) → version_of (clear_old old s) f ≡ version_of s f
  unfolding clear_old
  version_of-clear_old none f = refl
  version_of-clear_old (some o) f = version_of-update_shard s _ (forget_real o) f

-- The owner that `store` has to clear, and the state that it starts from.
unfoldable pub owner : IpKey → Option IpKey → Option IpKey
owner rk none = none
owner rk (some r) = ite (IpKey-discrete r rk) none (some r)

pub record Prepared (p s : IpPool) (rk fk : IpKey) : Type 0 where
  pub wide : length s.shards ≡ 64
  pub placed : Placed s
  pub fakes : (r : IpKey) → fake_of s r ≡ fake_of p r
  pub expiries : (r : IpKey) → expiry_of s r ≡ expiry_of p r
  pub reals : (f : IpKey) → f ≢ fk → real_of s f ≡ owner rk (real_of p f)
  pub versions :
      (f : IpKey)
      → f ≢ fk
      → version_of s f ≡ elim (real_of p f) [
        | none ↦ none
        | some r ↦ ite (IpKey-discrete r rk) none (version_of p f)
      ]

module _ (p s : IpPool) (rk fk : IpKey) (v e : ℕ) (valid : IsValid p)
    (prep : Prepared p s rk fk) where
  abbrev old_real : Option IpKey
  old_real = owner rk (real_of p fk)

  middle : IpPool
  middle = clear_old old_real s

  middle_fakes :
      (r : IpKey)
      → r ≢ rk
      → fake_of middle r
        ≡ elim (fake_of p r) [ none ↦ none | some f ↦ ite (IpKey-discrete f fk) none (some f) ]
  unfolding middle owner
  middle_fakes r n = ground (
    arith,
    fake_of-clear_old s prep.wide old_real r,
    prep.fakes r,
    valid.owned r fk,
    valid.bound r fk,
  )

  middle_expiries :
      (r : IpKey)
      → r ≢ rk
      → expiry_of middle r ≡ elim (fake_of p r) [
        | none ↦ none
        | some f ↦ ite (IpKey-discrete f fk) none (expiry_of p r)
      ]
  unfolding middle owner
  middle_expiries r n = ground (
    arith,
    expiry_of-clear_old s prep.wide old_real r,
    prep.expiries r,
    valid.owned r fk,
    valid.bound r fk,
    valid.untimed r,
  )

  stored : IpPool
  stored = update_shard (key_index rk) (assign_real rk fk e) middle

  -- From a prepared state `store` makes the one binding.
  pub store-Rebinds : Rebinds p (store (key_index rk) rk fk v e old_real s) rk fk v e
  unfolding store stored middle owner assign_fake update_shard
  store-Rebinds = record {
    wide =
        length-update_shard middle (key_index rk) (assign_real rk fk e)
        ∙ length-clear_old s prep.wide old_real;
    placed = assign_fake-Placed stored fk rk v (
        assign_real-Placed middle rk middle_wide (clear_old-Placed s prep.wide old_real prep.placed)
          fk e);
    fakes = λ r. ground (
      arith,
      fake_of-assign_fake stored fk rk v r,
      fake_of-assign_real middle rk fk e middle_wide r,
      middle_fakes r,
    );
    reals = λ f. ground (
      arith,
      real_of-assign_fake stored fk rk v f,
      real_of-update_shard middle (key_index rk) (assign_real rk fk e) f,
      real_of-clear_old s prep.wide old_real f,
      prep.reals f,
    );
    versions = λ f. ground (
      arith,
      version_of-assign_fake stored fk rk v f,
      version_of-update_shard middle (key_index rk) (assign_real rk fk e) f,
      version_of-clear_old s prep.wide old_real f,
      prep.versions f,
    );
    expiries = λ r. ground (
      arith,
      expiry_of-assign_fake stored fk rk v r,
      expiry_of-assign_real middle rk fk e middle_wide r,
      middle_expiries r,
    );
  }
    where
      middle_wide : length middle.shards ≡ 64
      middle_wide = length-clear_old s prep.wide old_real
