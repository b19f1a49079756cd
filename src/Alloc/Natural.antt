-- ===== src/Alloc/Natural.antt =====
-- ComputeLevel1Hash of internal/dnsengine/ippool.go stays in the pool.
use next_path.Alloc.{u32_mod, natural4, natural6, to4_bytes}
use next_path.Base.{ℕ, ◌+◌, ◌-◌, ◌%◌, ◌≤◌, ◌<◌, ◌≡◌, ◌≢◌, arith, drop, ◌==◌, if◌then◌else◌}
use next_path.Net.{Bytes, be_uint32, fnv1a_bytes, to16}
use next_path.Pool.{IpPool}

-- The IPv4 pool lies in the address space, starts at an even address, as NewIPPoolWithConfig masks
-- it for two or more addresses, and has an even number of addresses, as the default of 65536 is.
pub record Fits4 (p : IpPool) : Type 0 where
  pub filled : 0 < p.pool_size
  pub inside : p.pool_start + p.pool_size ≤ u32_mod
  pub even_start : p.pool_start % 2 ≡ 0
  pub even_size : p.pool_size % 2 ≡ 0

-- The address is in the pool, and ends in neither .0 nor .255.
pub record Usable4 (p : IpPool) (v : ℕ) : Type 0 where
  pub lower : p.pool_start ≤ v
  pub upper : v < p.pool_start + p.pool_size
  pub no_network : v % 256 ≢ 0
  pub no_broadcast : v % 256 ≢ 255

natural_step :
    (start size offset : ℕ)
    → offset < size
    → 0 < size
    → start + size ≤ u32_mod
    → (start + offset) % u32_mod ≡ start + offset
natural_step start size offset h₁ h₂ h₃ = omega arith

-- In an IPv4 pool within the address space, of an even start and an even size above zero, the natural
-- IPv4 address of every real address lies in the pool and ends in neither .0 nor .255.
pub natural4-Usable4 : (p : IpPool) (real_ip : Bytes) → Fits4 p → Usable4 p (natural4 p real_ip)
unfolding natural4
natural4-Usable4 p real_ip fits = go (fnv1a_bytes (to4_bytes real_ip) % p.pool_size) (omega arith)
  where
    go :
        (offset : ℕ)
        → offset < p.pool_size
        → Usable4 p (
            let v = (p.pool_start + offset) % u32_mod in
            if v % 256 == 0 then (v + 1) % u32_mod else if v % 256 == 255 then v - 1 else v)
    go offset h = ground (arith, natural_step p.pool_start p.pool_size offset h)

-- In a pool of one address that ends in .0 and is not the last of all the natural address is the one after the pool.
natural4_single :
    (p : IpPool) (real_ip : Bytes)
    → p.pool_size ≡ 1
    → p.pool_start < u32_mod - 1
    → p.pool_start % 256 ≡ 0
    → natural4 p real_ip ≡ p.pool_start + p.pool_size
unfolding natural4
natural4_single p real_ip h₁ h₂ h₃ = rw h₁ (ground arith)

-- The natural IPv6 address differs from the start of the pool by less than its size.
pub natural6-range :
    (p : IpPool) (real_ip : Bytes)
    → 0 < p.pool_size6
    → be_uint32 (drop 12 p.pool_start6) + p.pool_size6 ≤ u32_mod
    → (be_uint32 (drop 12 p.pool_start6) ≤ natural6 p real_ip)
      × (natural6 p real_ip < be_uint32 (drop 12 p.pool_start6) + p.pool_size6)
unfolding natural6
natural6-range p real_ip h₁ h₂ =
    go (be_uint32 (drop 12 p.pool_start6)) (fnv1a_bytes (to16 real_ip)) h₂
  where
    go :
        (s h : ℕ)
        → s + p.pool_size6 ≤ u32_mod
        → (s ≤ (s + h % p.pool_size6) % u32_mod)
          × ((s + h % p.pool_size6) % u32_mod < s + p.pool_size6)
    go s h b = omega arith
