-- ===== src/Pool.antt =====
-- internal/dnsengine/ippool.go: the Fake-IP pool. Its maps are association lists, the 64 shards a
-- list; a method takes the pool and returns the new one beside its result. Time is in nanoseconds
-- and an argument. A method holds the global lock while it works, so it is one step.
pub mod Views
pub mod Invariant
pub mod Store
pub mod Claiming
pub mod Adding
pub mod Gossip
pub mod Removing
pub mod Fresh
use next_path.Base.Map
use next_path.Base.Map.{Map}
use next_path.Base.{
  ℕ, zero, suc, ◌+◌, ◌*◌, ◌%◌, ◌^◌, Bool, true, false, not, ◌&&◌, ◌||◌, List, [], ◌∷◌, ite, Option,
  none, some, Ordering, ◌==◌, ltb, if◌then◌else◌, length, get_or, set, map,
}
use next_path.Hlc.{get_next_version, observe_version}
use next_path.Net.{
  Bytes, IpKey, IpKey-discrete, to_ip_key, to_ip, to16, normalize_ip, fnv1a_bytes, bytes_compare,
}

-- Map operations at the key type of the pool.
abbrev pub find : {V : Type 0} → IpKey → Map IpKey V → Option V
find = Map.get IpKey-discrete

abbrev pub assign : {V : Type 0} → IpKey → V → Map IpKey V → Map IpKey V
assign = Map.put IpKey-discrete

abbrev pub erase : {V : Type 0} → IpKey → Map IpKey V → Map IpKey V
erase = Map.delete IpKey-discrete

pub record CacheShard : Type 0 where
  pub real_to_fake : Map IpKey IpKey
  pub expiries : Map IpKey ℕ

-- The package's counters that the pool's methods raise.
pub record Metrics : Type 0 where
  pub allocations : ℕ
  pub collisions : ℕ
  pub exhaustions : ℕ

pub record IpPool : Type 0 where
  pub shards : List CacheShard
  pub global_fake_to_real : Map IpKey IpKey
  pub global_versions : Map IpKey ℕ
  pub pool_start : ℕ
  pub pool_size : ℕ
  pub pool_start6 : Bytes
  pub pool_size6 : ℕ
  pub hlc : ℕ
  pub metrics : Metrics

-- `Mapping` of internal/dnsengine/sync.go.
pub record Mapping : Type 0 where
  pub fake_ip : Bytes
  pub real_ip : Bytes
  pub version : ℕ

abbrev pub empty_shard : CacheShard
empty_shard = record { real_to_fake = []; expiries = [] }

unfoldable pub get_shard_index : Bytes → ℕ
get_shard_index ip = fnv1a_bytes (normalize_ip ip) % 64

-- The shard at an index.
unfoldable pub shard : IpPool → ℕ → CacheShard
shard p i = get_or p.shards i empty_shard

-- A change of one shard through its pointer.
unfoldable pub update_shard : ℕ → (CacheShard → CacheShard) → IpPool → IpPool
update_shard i g p = record p { shards = set p.shards i (g (get_or p.shards i empty_shard)) }

unfoldable pub assign_real : IpKey → IpKey → ℕ → CacheShard → CacheShard
assign_real rk fk expires s = record {
  real_to_fake = assign rk fk s.real_to_fake;
  expiries = assign rk expires s.expiries;
}

unfoldable pub forget_real : IpKey → CacheShard → CacheShard
forget_real rk s = record { real_to_fake = erase rk s.real_to_fake; expiries = erase rk s.expiries }

unfoldable pub refresh_real : IpKey → ℕ → CacheShard → CacheShard
refresh_real rk expires s = record s { expiries = assign rk expires s.expiries }

unfoldable pub assign_fake : IpKey → IpKey → ℕ → IpPool → IpPool
assign_fake fk rk version p = record p {
  global_fake_to_real = assign fk rk p.global_fake_to_real;
  global_versions = assign fk version p.global_versions;
}

unfoldable pub forget_fake : IpKey → IpPool → IpPool
forget_fake fk p = record p {
  global_fake_to_real = erase fk p.global_fake_to_real;
  global_versions = erase fk p.global_versions;
}

unfoldable pub count_collision : IpPool → IpPool
count_collision p = record p { metrics = record m { collisions = (m.collisions + 1) % 2 ^ 64 } }
  where
    m : Metrics
    m = p.metrics

-- `k.ToIP().To16()`.
unfoldable pub key_bytes : IpKey → Bytes
key_bytes k = to16 (to_ip k)

-- `bytes.Compare(new, old) <= 0`.
unfoldable pub not_after : Bytes → Bytes → Bool
not_after new old = elim (bytes_compare new old) [ Ordering.gt ↦ false | _ ↦ true ]

-- The tie-breaker: an older version loses, and of equal versions the one whose bytes are not
-- greater; an entry with no version never wins.
unfoldable pub loses : ℕ → Bytes → Option ℕ → Bytes → Bool
loses version new none old = false
loses version new (some existing) old =
    ltb version existing || (version == existing && not_after new old)

-- The end of `AddMapping`. Both branches of the test on shard pointers delete the old real key
-- from its own shard; they differ in the locks alone.
unfoldable pub clear_old : Option IpKey → IpPool → IpPool
clear_old none p = p
clear_old (some r) p = update_shard (get_shard_index (to_ip r)) (forget_real r) p

unfoldable pub store : ℕ → IpKey → IpKey → ℕ → ℕ → Option IpKey → IpPool → IpPool
store i rk fk version expires old p =
    assign_fake fk rk version (update_shard i (assign_real rk fk expires) (clear_old old p))

-- `AddMapping` from the lookup of the real key on.
unfoldable pub claim_real : ℕ → IpKey → IpKey → ℕ → ℕ → Option IpKey → IpPool → IpPool × Bool
claim_real i rk fk version expires old p =
    let p' = count_collision p in
    elim (find rk (shard p i).real_to_fake) [
      | none ↦ (store i rk fk version expires old p, true)
      | some existing ↦
          ite (IpKey-discrete existing fk) (store i rk fk version expires old p', true)
            (if loses version (key_bytes fk) (find existing p.global_versions) (key_bytes existing)
              then (p', false)
              else (store i rk fk version expires old (forget_fake existing p'), true))
    ]

unfoldable pub claim_fake : ℕ → IpKey → IpKey → ℕ → ℕ → IpPool → IpPool × Bool
claim_fake i rk fk version expires p = elim (find fk p.global_fake_to_real) [
  | none ↦ claim_real i rk fk version expires none p
  | some existing ↦
      if loses version (key_bytes rk) (find fk p.global_versions) (key_bytes existing)
      then (count_collision p, false)
      else claim_real i rk fk version expires
          (ite (IpKey-discrete existing rk) none (some existing)) (count_collision p)
]

unfoldable pub add_mapping : Bytes → Bytes → ℕ → ℕ → IpPool → IpPool × Bool
add_mapping real_ip fake_ip version expires_at =
    claim_fake (get_shard_index real_ip) (to_ip_key real_ip) (to_ip_key fake_ip) version expires_at

-- The four deletions that end a mapping.
unfoldable pub unlink : ℕ → IpKey → IpKey → IpPool → IpPool
unlink i rk fk p = forget_fake fk (update_shard i (forget_real rk) p)

unfoldable pub remove_key : ℕ → IpKey → IpKey → IpPool → IpPool
remove_key i rk fk p = elim (find rk (shard p i).real_to_fake) [
  | none ↦ p
  | some existing ↦ ite (IpKey-discrete existing fk) (unlink i rk fk p) p
]

unfoldable pub remove_mapping : Bytes → Bytes → IpPool → IpPool
remove_mapping real_ip fake_ip =
    remove_key (get_shard_index real_ip) (to_ip_key real_ip) (to_ip_key fake_ip)

unfoldable pub is_fake_ip_occupied : Bytes → IpPool → Bool
is_fake_ip_occupied fake_ip p = elim (find (to_ip_key fake_ip) p.global_fake_to_real) [
  | none ↦ false
  | some _ ↦ true
]

unfoldable pub get_version : Bytes → IpPool → ℕ
get_version fake_ip p = elim (find (to_ip_key fake_ip) p.global_versions) [
  | none ↦ 0
  | some version ↦ version
]
