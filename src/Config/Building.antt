-- ===== src/Config/Building.antt =====
-- The pool that main in cmd/nextpath-engine/main.go makes with NewIPPoolWithConfig of
-- internal/dnsengine/ippool.go.
use next_path.Alloc.Natural.{Fits4}
use next_path.Alloc.Round.{IsReady}
use next_path.Alloc.{u32_mod}
use next_path.Base.{
  replicate, ℕ, zero, suc, ◌+◌, ◌-◌, ◌*◌, ◌/◌, ◌%◌, ◌^◌, ◌≤◌, ◌<◌, false, [], ◌∷◌, Option, none,
  some, ◌≡◌, ◌⊎◌, inl, inr, refl, sym, ap, ◌∙◌, arith, ◌==◌, leb, if◌then◌else◌, length, All,
  Bool-cases, Option-cases,
}
use next_path.Config.Sizes.{IsSize, mask4-block, ceil_log2-pow, pool_size_of-IsSize}
use next_path.Config.{
  IpPoolConfig, NewPool, engine_pool, new_ip_pool_with_config, mask_bytes, base_start4, base_start6,
  default_base_v4, default_base_v6, fallback4, parse_ip4, empty_pool_at, or_text, ceil_log2,
  get_ip_pool_config, append_zeros,
}
use next_path.Names.{split_dots}
use next_path.Net.Keys.{be_uint32-lt, to4-bytes, to16-IsIp}
use next_path.Text.{is_empty}
use next_path.Net.{Bytes, IpKey, IsIp, to16, be_uint32}
use next_path.Pool.{IpPool, empty_shard}
use next_path.Pool.Views.{fake_of}
use next_path.Pool.Fresh.{fresh-fake_of, fresh-IsValid}
use native.Mathlib.Nat.{
  zero-mod, div-add-mod, mul_comm, mul_assoc, div-mul-le_self, pow-le-pow_right, pow-suc,
  mul-mod_left,
}

-- A start that is a multiple of an even size is even.
even_start : (v m j : ℕ) → m ≡ 2 ^ j * 2 → v % m ≡ 0 → v % 2 ≡ 0
even_start v m j e h =
    let q = v / m in
    let split : v ≡ q * (2 ^ j * 2) =
      sum (m * q) (div-add-mod v m) ∙ mul_comm m q ∙ ap (λ (n : ℕ). q * n) e in
    rw (split, sym (mul_assoc q (2 ^ j) 2)) (mul-mod_left (q * 2 ^ j) 2)
  where
    sum : (a : ℕ) → a + v % m ≡ v → v ≡ a
    sum a e = omega arith

-- A size above one is twice another.
halves : (size : ℕ) → IsSize size → 1 < size → (j : ℕ) × (size ≡ 2 ^ j * 2)
halves size (zero, small, e) h = absurd (omega arith)
halves size (suc j, small, e) h = (j, e ∙ pow-suc 2 j)

-- The start lies on a multiple of the size and the block in the address space, or it is 198.18.0.0.
abbrev Placed : ℕ → ℕ → Type 0
Placed start size = ((start % size ≡ 0) × (start + size ≤ u32_mod)) ⊎ (start ≡ fallback4)

block-Fits4 :
    (p : IpPool)
    → IsSize p.pool_size
    → 1 < p.pool_size
    → p.pool_size ≤ 2 ^ 29
    → Placed p.pool_start p.pool_size
    → Fits4 p
block-Fits4 p size h l placed =
    let (j, half) = halves p.pool_size size h in
    record {
      filled = omega arith;
      inside = elim placed [ inl (aligned, inside) ↦ inside | inr fallback ↦ omega arith ];
      even_start = elim placed [
        | inl (aligned, inside) ↦ even_start p.pool_start p.pool_size j half aligned
        | inr fallback ↦ rw fallback refl
      ];
      even_size = rw half (mul-mod_left (2 ^ j) 2);
    }

-- A mask of the width less the logarithm of a size stands for the size.
mask_size :
    (width size : ℕ) → 32 ≤ width → IsSize size → size ≡ 2 ^ (width - (width - ceil_log2 size))
mask_size width size w (k, small, e) =
    rw (e, ceil_log2-pow k small) (ap (λ n. 2 ^ n) (back k small))
  where
    back : (k : ℕ) → k < 32 → k ≡ width - (width - k)
    back k h = omega arith

mask_bytes-length : (cidr : ℕ) (bs : Bytes) → length (mask_bytes cidr bs) ≡ length bs
unfolding mask_bytes
mask_bytes-length cidr [] = refl
mask_bytes-length cidr (b ∷ bs) = elim (Bool-cases (leb 8 cidr)) [
  | inl wide ↦ rw wide (ap suc (mask_bytes-length (cidr - 8) bs))
  | inr last ↦ rw last (ap suc (mask_bytes-length 0 bs))
]

mask_bytes-All :
    (cidr : ℕ) (bs : Bytes) → All (λ b. b < 256) bs → All (λ b. b < 256) (mask_bytes cidr bs)
unfolding mask_bytes
mask_bytes-All cidr [] h = tt
mask_bytes-All cidr (b ∷ bs) (h, hs) = elim (Bool-cases (leb 8 cidr)) [
  | inl wide ↦ rw wide (h, mask_bytes-All (cidr - 8) bs hs)
  | inr last ↦ rw last (omega (arith, div-mul-le_self b (2 ^ (8 - cidr))), mask_bytes-All 0 bs hs)
]

module _ (parse_ip : Bytes → Option Bytes)
    (parses : (s ip : Bytes) → parse_ip s ≡ some ip → IsIp ip) where
  base_start6-IsIp :
      (base : Bytes) → IsIp (base_start6 parse_ip base) × (length (base_start6 parse_ip base) ≡ 16)
  unfolding base_start6
  base_start6-IsIp base = elim (Option-cases (parse_ip base)) [
    | inl bad ↦ rw bad (record { width = inr refl; bytes = omega arith }, refl)
    | inr (ip, good) ↦
        let (whole, wide) = to16-IsIp ip (parses base ip good) in
        rw (good, filled (to16 ip) wide) (whole, wide)
  ]
    where
      filled : (b : Bytes) → length b ≡ 16 → is_empty b ≡ false
      filled [] h = absurd (omega arith)
      filled (x ∷ b) h = refl

  parse_ip4-lt : (s b : Bytes) → parse_ip4 parse_ip s ≡ some b → be_uint32 b < 2 ^ 32
  unfolding parse_ip4
  parse_ip4-lt s b h = elim (Option-cases (parse_ip s)) [
    | inl bad ↦ absurd (cc)
    | inr (ip, good) ↦
        let (wide, bytes) = to4-bytes ip b (parses s ip good) (rw (good, parse_ip4) at h) in
        be_uint32-lt b wide bytes
  ]

  -- The start that a base gives, or zero.
  base_start4-block :
      (base : Bytes) (k : ℕ)
      → k < 32
      → let v = base_start4 parse_ip base (32 - k) in (v % 2 ^ k ≡ 0) × (v + 2 ^ k ≤ 2 ^ 32)
  unfolding base_start4
  base_start4-block base k small =
      elim (Option-cases (parse_ip4 parse_ip (append_zeros (4 - length (split_dots base)) base))) [
        | inl bad ↦
            rw (bad, base_start4)
              (
                zero-mod (2 ^ k),
                ground (arith, pow-le-pow_right {n = 2} (omega arith) (below small)),
              )
        | inr (b, good) ↦
            rw (good, base_start4) (mask4-block k (be_uint32 b) small (parse_ip4-lt _ b good))
      ]
    where
      below : {k : ℕ} → k < 32 → k ≤ 32
      below h = omega arith

  start-Placed :
      (base : Bytes) (size : ℕ)
      → IsSize size
      → let v = base_start4 parse_ip base (32 - ceil_log2 size) in
        Placed (if v == 0 then fallback4 else v) size
  start-Placed base size (k, small, e) =
      let v = base_start4 parse_ip base (32 - ceil_log2 size) in
      elim (Bool-cases (v == 0)) [
        | inl empty ↦ rw empty (inr refl)
        | inr given ↦
            rw given (inl (rw (e, ceil_log2-pow k small) (base_start4-block base k small)))
      ]

  module _ (base_v4 base_v6 : Bytes) (cfg : IpPoolConfig) where
    abbrev built : NewPool
    built = new_ip_pool_with_config parse_ip base_v4 base_v6 cfg

    module _ (size4 : IsSize built.pool.pool_size) (size6 : IsSize built.pool.pool_size6) where
      built-IsReady :
          IsReady built.pool
          × (built.pool.pool_size ≡ 2 ^ (32 - built.cidr_mask))
          × (built.pool.pool_size6 ≡ 2 ^ (128 - built.cidr_mask6))
      unfolding new_ip_pool_with_config empty_pool_at fake_of
      built-IsReady =
          let (start, wide) = base_start6-IsIp (or_text base_v6 default_base_v6) in
          (
            record {
              valid = fresh-IsValid built.pool refl refl refl;
              keyed = λ r f h. absurd (cc (fresh-fake_of built.pool refl r));
              start6 = record {
                width = inr (mask_bytes-length _ _ ∙ wide);
                bytes = mask_bytes-All _ _ start.bytes;
              };
              wide6 = mask_bytes-length _ _ ∙ wide;
            },
            mask_size 32 built.pool.pool_size (omega arith) size4,
            mask_size 128 built.pool.pool_size6 (omega arith) size6,
          )

      built-Fits4 :
          1 < built.pool.pool_size
          → built.pool.pool_size ≤ 2 ^ 29
          → Fits4 built.pool
            × ((built.pool.pool_start % built.pool.pool_size ≡ 0)
                ⊎ (built.pool.pool_start ≡ fallback4))
      unfolding new_ip_pool_with_config empty_pool_at
      built-Fits4 h l =
          let placed = start-Placed (or_text base_v4 default_base_v4) built.pool.pool_size size4 in
          (
            block-Fits4 built.pool size4 h l placed,
            elim placed [ inl (aligned, inside) ↦ inl aligned | inr fallback ↦ inr fallback ],
          )

  module _ (lookup_env : Bytes → Option Bytes) (trim_space : Bytes → Bytes) where
    abbrev made : NewPool
    made = engine_pool parse_ip lookup_env trim_space

    sizes : IsSize made.pool.pool_size × IsSize made.pool.pool_size6
    unfolding engine_pool new_ip_pool_with_config empty_pool_at get_ip_pool_config
    sizes = (
      pool_size_of-IsSize 32 131072 _ (omega arith) (17, omega arith, refl),
      pool_size_of-IsSize 128 1048576 _ (omega arith) (20, omega arith, refl),
    )

    made-fresh : made.pool.shards ≡ replicate 64 empty_shard
    unfolding engine_pool new_ip_pool_with_config empty_pool_at
    made-fresh = refl

    -- Where the library parses texts to addresses only, the pool that the engine makes, whatever the
    -- environment holds, is well formed and empty, and its two sizes are those that its masks stand
    -- for.
    pub engine_pool-IsReady :
        IsReady made.pool
        × ((r : IpKey) → fake_of made.pool r ≡ none)
        × (made.pool.pool_size ≡ 2 ^ (32 - made.cidr_mask))
        × (made.pool.pool_size6 ≡ 2 ^ (128 - made.cidr_mask6))
    unfolding engine_pool
    engine_pool-IsReady =
        let (ready, four, six) = built-IsReady _ _ _ sizes.0 sizes.1 in
        (ready, fresh-fake_of made.pool made-fresh, four, six)

    -- Where the library parses texts to addresses only, an IPv4 pool of 2 to 2 ^ 29 addresses lies
    -- within the address space with an even start and an even size, and it starts at a multiple of
    -- its size or at 198.18.0.0.
    engine_pool-Fits4 :
        1 < made.pool.pool_size
        → made.pool.pool_size ≤ 2 ^ 29
        → Fits4 made.pool
          × ((made.pool.pool_start % made.pool.pool_size ≡ 0) ⊎ (made.pool.pool_start ≡ fallback4))
    unfolding engine_pool
    engine_pool-Fits4 = built-Fits4 _ _ _ sizes.0 sizes.1
