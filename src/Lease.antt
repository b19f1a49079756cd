-- ===== src/Lease.antt =====
-- Leases in the pool of internal/dnsengine/ippool.go: the test for a live lease that TryReserve and
-- GetFakeIPsForReals share, TryReserve, PruneExpired, and the readers of the whole pool.
pub mod Checking
pub mod Deciding
pub mod Keeping
pub mod Pruning
pub mod Frees
use next_path.Base.Map.{Map}
use next_path.Base.{
  ℕ, zero, suc, ◌+◌, ◌*◌, ◌^◌, Bool, true, false, List, [], ◌∷◌, ite, Option, none, some, ltb,
  if◌then◌else◌, length, map,
}
use next_path.Net.{Bytes, IpKey, IpKey-discrete, to_ip_key, to_ip}
use next_path.Pool.{
  IpPool, CacheShard, Mapping, find, shard, get_shard_index, update_shard, refresh_real, store,
  unlink,
}

abbrev pub minute : ℕ
minute = 60 * 10 ^ 9

-- `MappingTTL`.
abbrev pub mapping_ttl : ℕ
mapping_ttl = 120 * minute

-- What the test finds: a live lease, perhaps renewed, or no lease, an expired one being dropped.
pub data Held : Type 0 where
  held : IpPool → IpKey → Held
  vacant : IpPool → Held

-- A lease with no expiry is live for ever; one in its last five minutes is renewed. `now` and
-- `later` are the two readings of the wall clock.
unfoldable pub check_lease : ℕ → IpKey → ℕ → ℕ → ℕ → IpPool → Held
check_lease i rk renewed now later p = elim (find rk (shard p i).real_to_fake) [
  | none ↦ vacant p
  | some existing ↦ elim (find rk (shard p i).expiries) [
    | none ↦ held p existing
    | some expiry ↦
        if ltb now expiry
        then held
            (if ltb expiry (later + 5 * minute)
              then update_shard i (refresh_real rk renewed) p
              else p)
            existing
        else vacant (unlink i rk existing p)
  ]
]

-- `TryReserve`: the pool, the answer, and the address (nil is the empty list).
unfoldable pub reserve_key :
    ℕ → IpKey → IpKey → Bytes → ℕ → ℕ → ℕ → ℕ → IpPool → IpPool × Bool × Bytes
reserve_key i rk fk fake_ip version expires_at now later p =
    elim (check_lease i rk expires_at now later p) [
      | held q existing ↦ (q, true, to_ip existing)
      | vacant q ↦ elim (find fk q.global_fake_to_real) [
        | some _ ↦ (q, false, [])
        | none ↦ (store i rk fk version expires_at none q, true, fake_ip)
      ]
    ]

unfoldable pub try_reserve : Bytes → Bytes → ℕ → ℕ → ℕ → ℕ → IpPool → IpPool × Bool × Bytes
try_reserve real_ip fake_ip =
    reserve_key (get_shard_index real_ip) (to_ip_key real_ip) (to_ip_key fake_ip) fake_ip

-- The first loop of `PruneExpired` over the entries of one shard.
unfoldable pub collect_expired : ℕ → CacheShard → Map IpKey ℕ → List (IpKey × IpKey)
collect_expired now s [] = []
collect_expired now s ((rk, expiry) ∷ m) =
    let rest = collect_expired now s m in
    if ltb expiry now
    then elim (find rk s.real_to_fake) [ some fk ↦ (rk, fk) ∷ rest | none ↦ rest ]
    else rest

-- One round of its second loop, under the locks: the pair is tested again.
unfoldable pub drop_expired : ℕ → ℕ → IpKey × IpKey → IpPool → IpPool
drop_expired now i (rk, fk) p = elim (find rk (shard p i).expiries) [
  | none ↦ p
  | some expiry ↦
      if ltb expiry now
      then elim (find rk (shard p i).real_to_fake) [
        | none ↦ p
        | some existing ↦ ite (IpKey-discrete existing fk) (unlink i rk fk p) p
      ]
      else p
]

unfoldable pub drop_all : ℕ → ℕ → List (IpKey × IpKey) → IpPool → IpPool
drop_all now i [] p = p
drop_all now i (pair ∷ pairs) p = drop_all now i pairs (drop_expired now i pair p)

-- One shard: nothing runs between the two loops.
unfoldable pub prune_shard : ℕ → ℕ → IpPool → IpPool
prune_shard now i p = drop_all now i (collect_expired now (shard p i) (shard p i).expiries) p

-- The shards from `i` on.
unfoldable pub prune_from : ℕ → ℕ → ℕ → IpPool → IpPool
prune_from now zero i p = p
prune_from now (suc n) i p = prune_from now n (suc i) (prune_shard now i p)

unfoldable pub prune_expired : ℕ → IpPool → IpPool
prune_expired now p = prune_from now 64 0 p

-- `GetAllMappings`, in the order of one iteration. A missing version reads as 0.
unfoldable pub get_all_mappings : IpPool → List Mapping
get_all_mappings p =
    map
      (λ e. record {
        fake_ip = to_ip e.0;
        real_ip = to_ip e.1;
        version = elim (find e.0 p.global_versions) [ none ↦ 0 | some v ↦ v ];
      })
      p.global_fake_to_real

unfoldable pub get_active_count : IpPool → ℕ
get_active_count p = length p.global_fake_to_real
