-- ===== src/Tests/Data.antt =====
-- A node's pool (internal/dnsengine/ippool.go): 198.18.0.0/16 and fd00::, and real addresses.
use next_path.Alloc.Natural.{Fits4}
use next_path.Alloc.Round.{IsReady}
use next_path.Base.Map
use next_path.Base.{ℕ, [], ◌∷◌, none, ◌≡◌, refl, arith, replicate, inr}
use next_path.Net.{Bytes, IpKey, IsIp, ipv4}
use next_path.Pool.Fresh.{fresh-fake_of, fresh-real_of, fresh-IsValid}
use next_path.Pool.Invariant.{IsValid}
use next_path.Pool.Views.{fake_of, real_of, version_of}
use next_path.Pool.{IpPool, Metrics, empty_shard}

abbrev pub no_metrics : Metrics
no_metrics = record { allocations = 0; collisions = 0; exhaustions = 0 }

abbrev pub start6 : Bytes
start6 = 253 ∷ 0 ∷ 0 ∷ 0 ∷ 0 ∷ 0 ∷ 0 ∷ 0 ∷ 0 ∷ 0 ∷ 0 ∷ 0 ∷ 0 ∷ 0 ∷ 0 ∷ 0 ∷ []

-- 198.18.0.0 with a number of addresses.
abbrev pub pool_of : ℕ → IpPool
pool_of size = record {
  shards = replicate 64 empty_shard;
  global_fake_to_real = [];
  global_versions = [];
  pool_start = 3323068416;
  pool_size = size;
  pool_start6 = start6;
  pool_size6 = 65536;
  hlc = 0;
  metrics = no_metrics;
}

abbrev pub empty_pool : IpPool
empty_pool = pool_of 65536

abbrev pub small_pool : IpPool
small_pool = pool_of 4

-- 8.8.8.8 and 1.1.1.1.
abbrev pub google : Bytes
google = ipv4 8 8 8 8

abbrev pub cloudflare : Bytes
cloudflare = ipv4 1 1 1 1

-- 198.18.0.7 and 198.18.0.9.
abbrev pub fake_seven : Bytes
fake_seven = ipv4 198 18 0 7

abbrev pub fake_nine : Bytes
fake_nine = ipv4 198 18 0 9

pub google-IsIp : IsIp google
google-IsIp = record { width = inr refl; bytes = omega arith }

pub cloudflare-IsIp : IsIp cloudflare
cloudflare-IsIp = record { width = inr refl; bytes = omega arith }

pub start6-IsIp : IsIp start6
start6-IsIp = record { width = inr refl; bytes = omega arith }

module _ (size : ℕ) where
  pub empty-fake_of : (r : IpKey) → fake_of (pool_of size) r ≡ none
  empty-fake_of = fresh-fake_of (pool_of size) refl

  pub empty-real_of : (f : IpKey) → real_of (pool_of size) f ≡ none
  empty-real_of = fresh-real_of (pool_of size) refl refl refl

  pub empty-version_of : (f : IpKey) → version_of (pool_of size) f ≡ none
  unfolding version_of Map.get
  empty-version_of f = refl

  pub pool_of-IsValid : IsValid (pool_of size)
  pool_of-IsValid = fresh-IsValid (pool_of size) refl refl refl

  pub pool_of-IsReady : IsReady (pool_of size)
  pool_of-IsReady = record {
    valid = pool_of-IsValid;
    keyed = λ r f h. absurd (cc (empty-fake_of r));
    start6 = start6-IsIp;
    wide6 = refl;
  }

pub empty_pool-Fits4 : Fits4 empty_pool
empty_pool-Fits4 = record {
  filled = omega arith;
  inside = omega arith;
  even_start = refl;
  even_size = refl;
}

pub small_pool-Fits4 : Fits4 small_pool
small_pool-Fits4 = record {
  filled = omega arith;
  inside = omega arith;
  even_start = refl;
  even_size = refl;
}
