-- ===== src/Tests/Witnesses.antt =====
-- Theorems of the pool of internal/dnsengine/ippool.go at concrete data.
use next_path.Alloc.Giving.{Outcome, get_fake_ips_for_reals-Outcome}
use next_path.Alloc.Natural.{Fits4, Usable4, natural4-Usable4}
use next_path.Alloc.Probing.{Free4, Passed4, choose_fake-Free4, choose_fake-exhausted4}
use next_path.Alloc.{
  compute_level1_hash, occupied, probe4, try_candidate4, candidate4, choose_fake,
  get_fake_ips_for_reals, natural4, ip_of_uint32,
}
use next_path.Base.Map
use next_path.Base.{ℕ_discrete, ◌-◌, true, false, [], ◌∷◌, none, some, ◌≡◌, refl, arith}
use next_path.Hlc.Order.{issued-Rising, observe_last-wraps, Rising}
use next_path.Hlc.{u64_mod, issue, observe, issued, get_next_version, observe_version}
use next_path.Lease.Frees.{prune_expired-exact}
use next_path.Lease.Pruning.{Expired}
use next_path.Lease.Keeping.{Reserves, try_reserve-Reserves}
use next_path.Lease.{prune_expired, try_reserve}
use next_path.Net.{
  IpKey, fnv1a_bytes, to4, to16, IpKey-discrete, Bytes-discrete, to_ip_key, normalize_ip, ipv4,
}
use next_path.Pool.Adding.{add_mapping-Decides, add_mapping-IsValid}
use next_path.Pool.Claiming.{Decides, wins}
use next_path.Pool.Gossip.{add_mapping-newer}
use next_path.Pool.Invariant.{IsValid}
use next_path.Pool.Removing.{Removes, remove_mapping-Removes}
use next_path.Pool.Views.{fake_of, expiry_of}
use next_path.Pool.{
  claim_fake, claim_real, store, update_shard, assign_fake, assign_real, clear_old, get_shard_index,
  shard, IpPool, add_mapping, remove_mapping,
}
use next_path.Tests.Data.{
  empty_pool, pool_of, google, cloudflare, fake_seven, fake_nine, google-IsIp, cloudflare-IsIp,
  pool_of-IsValid, pool_of-IsReady, empty_pool-Fits4, empty-fake_of, empty-version_of,
}

-- 8.8.8.8 is mapped to 198.18.0.7 in version 5 until 100.
abbrev mapped_pool : IpPool
mapped_pool = (add_mapping google fake_seven 5 100 empty_pool).0

mapped_pool-IsValid : IsValid mapped_pool
mapped_pool-IsValid =
    add_mapping-IsValid empty_pool google fake_seven 5 100 (pool_of-IsValid 65536) google-IsIp

get_fake_ips_for_reals-Outcome_example :
    Outcome empty_pool
      (google ∷ cloudflare ∷ [])
      (get_fake_ips_for_reals false 1000 (λ _. 2000) (google ∷ cloudflare ∷ []) empty_pool)
get_fake_ips_for_reals-Outcome_example =
    get_fake_ips_for_reals-Outcome false 1000 (λ _. 2000) (google ∷ cloudflare ∷ []) empty_pool
      (pool_of-IsReady 65536) (google-IsIp, (cloudflare-IsIp, tt))

add_mapping-Decides_example :
    Decides mapped_pool
      (to_ip_key google)
      (to_ip_key fake_nine)
      6
      200
      (wins mapped_pool (to_ip_key google) (to_ip_key fake_nine) 6)
      (add_mapping google fake_nine 6 200 mapped_pool)
add_mapping-Decides_example =
    add_mapping-Decides mapped_pool google fake_nine 6 200 mapped_pool-IsValid google-IsIp

mapped_pool_taken : (add_mapping google fake_seven 5 100 empty_pool).1 ≡ true
mapped_pool_taken =
    (add_mapping-newer empty_pool google fake_seven 5 100 (pool_of-IsValid 65536) google-IsIp
      (rw (empty-version_of 65536 (to_ip_key fake_seven)) tt)
      (λ f h. absurd (cc (empty-fake_of 65536 (to_ip_key google))))).0

choose_exhausted :
    choose_fake false cloudflare (add_mapping google (ipv4 198 18 0 1) 5 100 (pool_of 2)).0 ≡ none
unfolding choose_fake compute_level1_hash natural4 fnv1a_bytes occupied to_ip_key to4 to16 probe4
    try_candidate4 candidate4 add_mapping claim_fake claim_real store update_shard assign_fake
    assign_real clear_old get_shard_index normalize_ip shard Map.get Map.put Map.delete
    IpKey-discrete Bytes-discrete ℕ_discrete
choose_exhausted = refl

mapped_fake : fake_of mapped_pool (to_ip_key google) ≡ some (to_ip_key fake_seven)
mapped_fake =
    (add_mapping-newer empty_pool google fake_seven 5 100 (pool_of-IsValid 65536) google-IsIp
      (rw (empty-version_of 65536 (to_ip_key fake_seven)) tt)
      (λ f h. absurd (cc (empty-fake_of 65536 (to_ip_key google))))).1

try_reserve-Reserves_example :
    Reserves mapped_pool
      (to_ip_key cloudflare)
      (to_ip_key fake_nine)
      fake_nine
      7
      400
      50
      51
      (try_reserve cloudflare fake_nine 7 400 50 51 mapped_pool)
try_reserve-Reserves_example =
    try_reserve-Reserves mapped_pool cloudflare fake_nine 7 400 50 51 mapped_pool-IsValid
      cloudflare-IsIp

prune_expired-exact_example :
    IsValid (prune_expired 101 mapped_pool)
    × ((r : IpKey)
        → Expired 101 (expiry_of mapped_pool r)
        → fake_of (prune_expired 101 mapped_pool) r ≡ none)
    × ((r : IpKey)
        → ¬ Expired 101 (expiry_of mapped_pool r)
        → (fake_of (prune_expired 101 mapped_pool) r ≡ fake_of mapped_pool r)
          × (expiry_of (prune_expired 101 mapped_pool) r ≡ expiry_of mapped_pool r))
prune_expired-exact_example = prune_expired-exact 101 mapped_pool mapped_pool-IsValid

remove_mapping-Removes_example :
    Removes mapped_pool
      (remove_mapping google fake_seven mapped_pool)
      (to_ip_key google)
      (to_ip_key fake_seven)
remove_mapping-Removes_example =
    remove_mapping-Removes mapped_pool google fake_seven mapped_pool-IsValid google-IsIp

google_choice :
    choose_fake false google empty_pool ≡ some (ip_of_uint32 (natural4 empty_pool google))
unfolding choose_fake compute_level1_hash occupied Map.get
google_choice = refl

-- A pool of two addresses, of which one can be used and is taken.
abbrev two_taken : IpPool
two_taken = (add_mapping google (ipv4 198 18 0 1) 5 100 (pool_of 2)).0

two_start : two_taken.pool_start ≡ 3323068416
unfolding add_mapping claim_fake claim_real store update_shard assign_fake assign_real clear_old
    get_shard_index normalize_ip shard fnv1a_bytes to_ip_key to4 to16 Map.get Map.put Map.delete
    IpKey-discrete Bytes-discrete ℕ_discrete
two_start = refl

two_size : two_taken.pool_size ≡ 2
unfolding add_mapping claim_fake claim_real store update_shard assign_fake assign_real clear_old
    get_shard_index normalize_ip shard fnv1a_bytes to_ip_key to4 to16 Map.get Map.put Map.delete
    IpKey-discrete Bytes-discrete ℕ_discrete
two_size = refl

two_taken-Fits4 : Fits4 two_taken
two_taken-Fits4 = record {
  filled = omega (arith, two_size);
  inside = omega (arith, two_start, two_size);
  even_start = rw two_start refl;
  even_size = rw two_size refl;
}

natural4-Usable4_example : Usable4 empty_pool (natural4 empty_pool google)
natural4-Usable4_example = natural4-Usable4 empty_pool google empty_pool-Fits4

choose_fake-Free4_example : Free4 empty_pool (ip_of_uint32 (natural4 empty_pool google))
choose_fake-Free4_example =
    choose_fake-Free4 empty_pool google (ip_of_uint32 (natural4 empty_pool google)) empty_pool-Fits4
      google_choice

choose_fake-exhausted4_example : Passed4 two_taken 3323068417
choose_fake-exhausted4_example =
    choose_fake-exhausted4 two_taken cloudflare 3323068417 two_taken-Fits4
      (rw two_size (omega arith)) choose_exhausted (omega (arith, two_start))
      (omega (arith, two_start, two_size))

issued-Rising_example : Rising 10 (issued 10 (issue 5 ∷ observe 90 6 ∷ issue 7 ∷ issue 95 ∷ []))
issued-Rising_example =
    issued-Rising 100 10 (issue 5 ∷ observe 90 6 ∷ issue 7 ∷ issue 95 ∷ []) (omega arith)
      (omega arith) (omega arith)

observe_last-wraps_example : get_next_version 7 (observe_version (u64_mod - 1) 6 10) ≡ 0
observe_last-wraps_example = observe_last-wraps 6 7 10 (omega arith) (omega arith) (omega arith)
