-- ===== src/Config.antt =====
-- getEnv, getEnvBool and getIPPoolConfig of cmd/nextpath-engine/main.go, and NewIPPoolWithConfig of
-- internal/dnsengine/ippool.go. The environment, strings.TrimSpace, strings.ToLower and net.ParseIP
-- are parameters.
pub mod Building
pub mod Lists
pub mod Sizes
use next_path.Base.{
  ℕ, zero, suc, ◌+◌, ◌-◌, ◌*◌, ◌/◌, ◌^◌, Bool, true, false, ◌&&◌, ◌||◌, [], ◌∷◌, ◌++◌, ite, Option,
  none, some, ◌==◌, ltb, leb, if◌then◌else◌, length, replicate,
}
use next_path.Names.{split_dots}
use next_path.Net.{Bytes, Bytes-discrete, to4, to16, be_uint32, zero16}
use next_path.Pool.{IpPool, empty_shard}
use next_path.Text.{is_empty, trim, trim_prefix, parse_uint}

-- `FAKE_IP`, `FAKE_IP6`, `POOL_SIZE`, `POOL_SIZE_V4`, `POOL_SIZE_V6`.
abbrev pub key_fake_ip : Bytes
key_fake_ip = 70 ∷ 65 ∷ 75 ∷ 69 ∷ 95 ∷ 73 ∷ 80 ∷ []

abbrev pub key_fake_ip6 : Bytes
key_fake_ip6 = 70 ∷ 65 ∷ 75 ∷ 69 ∷ 95 ∷ 73 ∷ 80 ∷ 54 ∷ []

abbrev pub key_pool_size : Bytes
key_pool_size = 80 ∷ 79 ∷ 79 ∷ 76 ∷ 95 ∷ 83 ∷ 73 ∷ 90 ∷ 69 ∷ []

abbrev pub key_pool_size_v4 : Bytes
key_pool_size_v4 = key_pool_size ++ 95 ∷ 86 ∷ 52 ∷ []

abbrev pub key_pool_size_v6 : Bytes
key_pool_size_v6 = key_pool_size ++ 95 ∷ 86 ∷ 54 ∷ []

-- `198.18` and `fd00:18::`.
abbrev pub default_base_v4 : Bytes
default_base_v4 = 49 ∷ 57 ∷ 56 ∷ 46 ∷ 49 ∷ 56 ∷ []

abbrev pub default_base_v6 : Bytes
default_base_v6 = 102 ∷ 100 ∷ 48 ∷ 48 ∷ 58 ∷ 49 ∷ 56 ∷ 58 ∷ 58 ∷ []

abbrev default_pool_size_v4 : ℕ
default_pool_size_v4 = 131072

abbrev default_pool_size_v6 : ℕ
default_pool_size_v6 = 1048576

pub record IpPoolConfig : Type 0 where
  pub pool_size_v4 : ℕ
  pub pool_size_v6 : ℕ

-- What the mask of an environment variable makes of a size; `widest` is 32 or 128. A shift by more
-- than 31 is cut to 31, and for 32 bits never happens.
unfoldable pub size_of_mask : ℕ → ℕ → ℕ
size_of_mask widest val =
    if ltb 0 val && leb val widest
    then if ltb 31 (widest - val) then 2 ^ 31 else 2 ^ (widest - val)
    else 2 ^ 24

-- A text that is no number leaves the size at zero.
unfoldable pub pool_size_of : ℕ → Bytes → ℕ
pool_size_of widest [] = 0
pool_size_of widest (c ∷ cs) = elim (parse_uint (trim_prefix (c ∷ cs) (47 ∷ []))) [
  | none ↦ 0
  | some val ↦ size_of_mask widest val
]

module _ (lookup_env : Bytes → Option Bytes) (trim_space : Bytes → Bytes) where
  unfoldable pub get_env : Bytes → Bytes → Bytes
  get_env key default_val = elim (lookup_env key) [
    | none ↦ default_val
    | some value ↦
        let val = trim (34 ∷ 39 ∷ []) (trim_space value) in
        if is_empty val then default_val else val
  ]

  -- `true`, `1`, `y` and `yes` are true.
  unfoldable pub get_env_bool : (Bytes → Bytes) → Bytes → Bool → Bool
  get_env_bool to_lower key default_val =
      let val = to_lower (trim_space (get_env key [])) in
      if is_empty val
      then default_val
      else is val (116 ∷ 114 ∷ 117 ∷ 101 ∷ [])
        || is val (49 ∷ [])
        || is val (121 ∷ [])
        || is val (121 ∷ 101 ∷ 115 ∷ [])
    where
      is : Bytes → Bytes → Bool
      is a b = ite (Bytes-discrete a b) true false

  unfoldable pub get_ip_pool_config : IpPoolConfig
  get_ip_pool_config = record {
    pool_size_v4 = pool_size_of 32 (get_env key_pool_size_v4 (get_env key_pool_size []));
    pool_size_v6 = pool_size_of 128 (get_env key_pool_size_v6 []);
  }

-- `int(math.Ceil(math.Log2(float64(size))))`: the least `n` with `size ≤ 2 ^ n`. On a uint32 the
-- logarithm is exact on powers of two and never rounds to an integer elsewhere. 32 steps reach
-- every uint32.
unfoldable pub ceil_log2_from : ℕ → ℕ → ℕ → ℕ
ceil_log2_from zero n size = n
ceil_log2_from (suc k) n size =
    let next = ceil_log2_from k (suc n) size in if leb size (2 ^ n) then n else next

unfoldable pub ceil_log2 : ℕ → ℕ
ceil_log2 size = ceil_log2_from 32 0 size

-- `ip.Mask(net.CIDRMask(cidr, 32))` on the value of an IPv4 address.
unfoldable pub mask4 : ℕ → ℕ → ℕ
mask4 cidr v = v / 2 ^ (32 - cidr) * 2 ^ (32 - cidr)

-- `ip.Mask(net.CIDRMask(cidr, 128))`.
unfoldable pub mask_bytes : ℕ → Bytes → Bytes
mask_bytes cidr [] = []
mask_bytes cidr (b ∷ bs) =
    if leb 8 cidr
    then b ∷ mask_bytes (cidr - 8) bs
    else (b / 2 ^ (8 - cidr) * 2 ^ (8 - cidr)) ∷ mask_bytes 0 bs

-- The loop that appends `.0` while there are fewer than four parts.
unfoldable pub append_zeros : ℕ → Bytes → Bytes
append_zeros zero s = s
append_zeros (suc n) s = append_zeros n (s ++ 46 ∷ 48 ∷ [])

-- 198.18.0.0.
abbrev pub fallback4 : ℕ
fallback4 = 198 * 2 ^ 24 + 18 * 2 ^ 16

-- fd00:18::.
abbrev pub fallback6 : Bytes
fallback6 = 253 ∷ 0 ∷ 0 ∷ 24 ∷ 0 ∷ 0 ∷ 0 ∷ 0 ∷ 0 ∷ 0 ∷ 0 ∷ 0 ∷ 0 ∷ 0 ∷ 0 ∷ 0 ∷ []

abbrev pub or_default : ℕ → ℕ → ℕ
or_default size default = if size == 0 then default else size

abbrev pub or_text : Bytes → Bytes → Bytes
or_text s default = if is_empty s then default else s

-- The pool and the masks that its struct keeps beside it.
pub record NewPool : Type 0 where
  pub pool : IpPool
  pub cidr_mask : ℕ
  pub cidr_mask6 : ℕ

unfoldable pub empty_pool_at : ℕ → ℕ → Bytes → ℕ → IpPool
empty_pool_at start size start6 size6 = record {
  shards = replicate 64 empty_shard;
  global_fake_to_real = [];
  global_versions = [];
  pool_start = start;
  pool_size = size;
  pool_start6 = start6;
  pool_size6 = size6;
  hlc = 0;
  metrics = record { allocations = 0; collisions = 0; exhaustions = 0 };
}

module _ (parse_ip : Bytes → Option Bytes) where
  -- `ip.To4()` of the parsed text.
  unfoldable pub parse_ip4 : Bytes → Option Bytes
  parse_ip4 s = elim (parse_ip s) [ none ↦ none | some ip ↦ to4 ip ]

  unfoldable pub base_start4 : Bytes → ℕ → ℕ
  base_start4 base cidr =
      let text = append_zeros (4 - length (split_dots base)) base in
      elim (parse_ip4 text) [ none ↦ 0 | some ip4 ↦ mask4 cidr (be_uint32 ip4) ]

  unfoldable pub base_start6 : Bytes → Bytes
  base_start6 base =
      let ip : Bytes = elim (parse_ip base) [ none ↦ [] | some ip ↦ to16 ip ] in
      if is_empty ip then fallback6 else ip

  unfoldable pub new_ip_pool_with_config : Bytes → Bytes → IpPoolConfig → NewPool
  new_ip_pool_with_config base_v4 base_v6 cfg =
      let size = or_default cfg.pool_size_v4 default_pool_size_v4 in
      let size6 = or_default cfg.pool_size_v6 default_pool_size_v6 in
      let cidr = 32 - ceil_log2 size in
      let cidr6 = 128 - ceil_log2 size6 in
      let start = base_start4 (or_text base_v4 default_base_v4) cidr in
      let start6 = mask_bytes cidr6 (base_start6 (or_text base_v6 default_base_v6)) in
      record {
        pool = empty_pool_at (if start == 0 then fallback4 else start) size start6 size6;
        cidr_mask = cidr;
        cidr_mask6 = cidr6;
      }

  -- The pool that `main` makes of the environment.
  unfoldable pub engine_pool : (Bytes → Option Bytes) → (Bytes → Bytes) → NewPool
  engine_pool lookup_env trim_space =
      let env = get_env lookup_env trim_space in
      new_ip_pool_with_config (env key_fake_ip default_base_v4) (env key_fake_ip6 default_base_v6)
        (get_ip_pool_config lookup_env trim_space)
