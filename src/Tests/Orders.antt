-- ===== src/Tests/Orders.antt =====
-- AddMapping of internal/dnsengine/ippool.go on the same three mappings in two orders.
use next_path.Base.Map
use next_path.Base.{ℕ_discrete, true, false, ◌≡◌, refl}
use next_path.Net.{
  fnv1a_bytes, to4, to16, IpKey-discrete, Bytes-discrete, bytes_compare, to_ip, to_ip_key,
  normalize_ip,
}
use next_path.Pool.{
  claim_fake, claim_real, store, update_shard, assign_fake, assign_real, forget_fake, forget_real,
  clear_old, count_collision, loses, not_after, key_bytes, get_shard_index, shard, IpPool,
  add_mapping, is_fake_ip_occupied,
}
use next_path.Tests.Data.{empty_pool, google, cloudflare, fake_seven, fake_nine}

abbrev first : IpPool → IpPool
first p = (add_mapping google fake_seven 1 100 p).0

abbrev second : IpPool → IpPool
second p = (add_mapping google fake_nine 2 100 p).0

abbrev third : IpPool → IpPool
third p = (add_mapping cloudflare fake_nine 3 100 p).0

-- In the order of their versions: 198.18.0.7 ends free.
in_order : is_fake_ip_occupied fake_seven (third (second (first empty_pool))) ≡ false
unfolding add_mapping claim_fake claim_real store update_shard assign_fake assign_real forget_fake
    forget_real clear_old count_collision loses not_after key_bytes get_shard_index normalize_ip
    shard fnv1a_bytes to_ip_key to_ip to4 to16 bytes_compare is_fake_ip_occupied Map.get Map.put
    Map.delete IpKey-discrete Bytes-discrete ℕ_discrete
in_order = refl

-- With the last two swapped it ends mapped.
out_of_order : is_fake_ip_occupied fake_seven (second (third (first empty_pool))) ≡ true
unfolding add_mapping claim_fake claim_real store update_shard assign_fake assign_real forget_fake
    forget_real clear_old count_collision loses not_after key_bytes get_shard_index normalize_ip
    shard fnv1a_bytes to_ip_key to_ip to4 to16 bytes_compare is_fake_ip_occupied Map.get Map.put
    Map.delete IpKey-discrete Bytes-discrete ℕ_discrete
out_of_order = refl
