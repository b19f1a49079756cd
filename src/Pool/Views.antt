-- ===== src/Pool/Views.antt =====
-- The pool of internal/dnsengine/ippool.go without its shards: four functions on keys, and what
-- each change of the state does to them.
use next_path.Base.Map
use next_path.Base.{
  ℕ, ◌<◌, ite, Option, none, some, ◌≡◌, refl, arith, length, get_or, ℕ_discrete, length-set,
  get_or-set,
}
use next_path.Net.{IpKey, IpKey-discrete, to_ip}
use next_path.Pool.{
  CacheShard, IpPool, find, shard, get_shard_index, update_shard, assign_real, forget_real,
  refresh_real, assign_fake, forget_fake, empty_shard,
}

-- The shard that a key belongs to.
unfoldable pub key_index : IpKey → ℕ
key_index k = get_shard_index (to_ip k)

pub key_index-lt : (k : IpKey) → key_index k < 64
unfolding key_index get_shard_index
key_index-lt k = omega arith

unfoldable pub fake_of : IpPool → IpKey → Option IpKey
fake_of p r = find r (shard p (key_index r)).real_to_fake

unfoldable pub expiry_of : IpPool → IpKey → Option ℕ
expiry_of p r = find r (shard p (key_index r)).expiries

unfoldable pub real_of : IpPool → IpKey → Option IpKey
real_of p f = find f p.global_fake_to_real

unfoldable pub version_of : IpPool → IpKey → Option ℕ
version_of p f = find f p.global_versions

module _ (p : IpPool) (i : ℕ) (g : CacheShard → CacheShard) where
  pub shard-update_shard :
      (j : ℕ)
      → i < length p.shards
      → shard (update_shard i g p) j ≡ ite (ℕ_discrete j i) (g (shard p i)) (shard p j)
  unfolding shard update_shard
  shard-update_shard j h = get_or-set p.shards i j (g (get_or p.shards i empty_shard)) empty_shard h

  pub length-update_shard : length (update_shard i g p).shards ≡ length p.shards
  unfolding update_shard
  length-update_shard = length-set p.shards i (g (get_or p.shards i empty_shard))

  pub real_of-update_shard : (f : IpKey) → real_of (update_shard i g p) f ≡ real_of p f
  unfolding real_of update_shard
  real_of-update_shard f = refl

  pub version_of-update_shard : (f : IpKey) → version_of (update_shard i g p) f ≡ version_of p f
  unfolding version_of update_shard
  version_of-update_shard f = refl

module _ (p : IpPool) (r₀ f₀ : IpKey) (e : ℕ) (wide : length p.shards ≡ 64) (r : IpKey) where
  pub fake_of-assign_real :
      fake_of (update_shard (key_index r₀) (assign_real r₀ f₀ e) p) r
      ≡ ite (IpKey-discrete r r₀) (some f₀) (fake_of p r)
  unfolding fake_of assign_real
  fake_of-assign_real = ground (
    arith,
    key_index-lt r₀,
    shard-update_shard p (key_index r₀) (assign_real r₀ f₀ e) (key_index r),
    Map.get-put IpKey-discrete r r₀ f₀ (shard p (key_index r₀)).real_to_fake,
  )

  pub expiry_of-assign_real :
      expiry_of (update_shard (key_index r₀) (assign_real r₀ f₀ e) p) r
      ≡ ite (IpKey-discrete r r₀) (some e) (expiry_of p r)
  unfolding expiry_of assign_real
  expiry_of-assign_real = ground (
    arith,
    key_index-lt r₀,
    shard-update_shard p (key_index r₀) (assign_real r₀ f₀ e) (key_index r),
    Map.get-put IpKey-discrete r r₀ e (shard p (key_index r₀)).expiries,
  )

  pub fake_of-forget_real :
      fake_of (update_shard (key_index r₀) (forget_real r₀) p) r
      ≡ ite (IpKey-discrete r r₀) none (fake_of p r)
  unfolding fake_of forget_real
  fake_of-forget_real = ground (
    arith,
    key_index-lt r₀,
    shard-update_shard p (key_index r₀) (forget_real r₀) (key_index r),
    Map.get-delete IpKey-discrete r r₀ (shard p (key_index r₀)).real_to_fake,
  )

  pub expiry_of-forget_real :
      expiry_of (update_shard (key_index r₀) (forget_real r₀) p) r
      ≡ ite (IpKey-discrete r r₀) none (expiry_of p r)
  unfolding expiry_of forget_real
  expiry_of-forget_real = ground (
    arith,
    key_index-lt r₀,
    shard-update_shard p (key_index r₀) (forget_real r₀) (key_index r),
    Map.get-delete IpKey-discrete r r₀ (shard p (key_index r₀)).expiries,
  )

  pub fake_of-refresh_real :
      fake_of (update_shard (key_index r₀) (refresh_real r₀ e) p) r ≡ fake_of p r
  unfolding fake_of refresh_real
  fake_of-refresh_real = ground (
    arith,
    key_index-lt r₀,
    shard-update_shard p (key_index r₀) (refresh_real r₀ e) (key_index r),
  )

  pub expiry_of-refresh_real :
      expiry_of (update_shard (key_index r₀) (refresh_real r₀ e) p) r
      ≡ ite (IpKey-discrete r r₀) (some e) (expiry_of p r)
  unfolding expiry_of refresh_real
  expiry_of-refresh_real = ground (
    arith,
    key_index-lt r₀,
    shard-update_shard p (key_index r₀) (refresh_real r₀ e) (key_index r),
    Map.get-put IpKey-discrete r r₀ e (shard p (key_index r₀)).expiries,
  )

module _ (p : IpPool) (f₀ r₀ : IpKey) (v : ℕ) (f : IpKey) where
  pub real_of-assign_fake :
      real_of (assign_fake f₀ r₀ v p) f ≡ ite (IpKey-discrete f f₀) (some r₀) (real_of p f)
  unfolding real_of assign_fake
  real_of-assign_fake = Map.get-put IpKey-discrete f f₀ r₀ p.global_fake_to_real

  pub version_of-assign_fake :
      version_of (assign_fake f₀ r₀ v p) f ≡ ite (IpKey-discrete f f₀) (some v) (version_of p f)
  unfolding version_of assign_fake
  version_of-assign_fake = Map.get-put IpKey-discrete f f₀ v p.global_versions

module _ (p : IpPool) (f₀ f : IpKey) where
  pub real_of-forget_fake :
      real_of (forget_fake f₀ p) f ≡ ite (IpKey-discrete f f₀) none (real_of p f)
  unfolding real_of forget_fake
  real_of-forget_fake = Map.get-delete IpKey-discrete f f₀ p.global_fake_to_real

  pub version_of-forget_fake :
      version_of (forget_fake f₀ p) f ≡ ite (IpKey-discrete f f₀) none (version_of p f)
  unfolding version_of forget_fake
  version_of-forget_fake = Map.get-delete IpKey-discrete f f₀ p.global_versions

-- The two halves of the state, the global maps and the shards, change apart from each other.
module _ (p : IpPool) (f₀ r₀ : IpKey) (v : ℕ) where
  pub shard-assign_fake : (i : ℕ) → shard (assign_fake f₀ r₀ v p) i ≡ shard p i
  unfolding assign_fake shard
  shard-assign_fake i = refl

  pub fake_of-assign_fake : (r : IpKey) → fake_of (assign_fake f₀ r₀ v p) r ≡ fake_of p r
  unfolding assign_fake fake_of shard
  fake_of-assign_fake r = refl

  pub expiry_of-assign_fake : (r : IpKey) → expiry_of (assign_fake f₀ r₀ v p) r ≡ expiry_of p r
  unfolding assign_fake expiry_of shard
  expiry_of-assign_fake r = refl

module _ (p : IpPool) (f₀ : IpKey) where
  pub shard-forget_fake : (i : ℕ) → shard (forget_fake f₀ p) i ≡ shard p i
  unfolding forget_fake shard
  shard-forget_fake i = refl

  pub fake_of-forget_fake : (r : IpKey) → fake_of (forget_fake f₀ p) r ≡ fake_of p r
  unfolding forget_fake fake_of shard
  fake_of-forget_fake r = refl

  pub expiry_of-forget_fake : (r : IpKey) → expiry_of (forget_fake f₀ p) r ≡ expiry_of p r
  unfolding forget_fake expiry_of shard
  expiry_of-forget_fake r = refl

  pub length-forget_fake : length (forget_fake f₀ p).shards ≡ length p.shards
  unfolding forget_fake
  length-forget_fake = refl
