-- ===== src/Tests/Config.antt =====
-- The pool that main in cmd/nextpath-engine/main.go makes of one environment: `POOL_SIZE=/16` and
-- addresses that net.ParseIP reads as 10.0.0.7.
use next_path.Alloc.Round.{IsReady}
use next_path.Base.{
  true, ◌-◌, ◌^◌, [], ◌∷◌, ite, Option, none, some, ◌≡◌, refl, subst, inr, arith, ℕ_discrete,
}
use next_path.Config.Building.{engine_pool-IsReady}
use next_path.Config.Lists.{get_compile_config}
use next_path.Config.{
  get_env_bool, engine_pool, new_ip_pool_with_config, empty_pool_at, get_ip_pool_config, get_env,
  pool_size_of, size_of_mask, ceil_log2, ceil_log2_from, mask4, base_start4, parse_ip4,
  append_zeros, key_pool_size,
}
use next_path.Domains.{has_prefix}
use next_path.Names.{has_byte, split_dots, add_byte}
use next_path.Net.{Bytes, Bytes-discrete, IpKey, IsIp, ipv4, to4}
use next_path.Pool.Views.{fake_of}
use next_path.Text.{trim, trim_left, trim_prefix, parse_uint, parse_digits}

-- `/16`.
abbrev slash_sixteen : Bytes
slash_sixteen = 47 ∷ 49 ∷ 54 ∷ []

abbrev lookup : Bytes → Option Bytes
lookup key = ite (Bytes-discrete key key_pool_size) (some slash_sixteen) none

abbrev parse : Bytes → Option Bytes
parse s = some (ipv4 10 0 0 7)

parse-IsIp : (s ip : Bytes) → parse s ≡ some ip → IsIp ip
parse-IsIp s ip h =
    let e : ipv4 10 0 0 7 ≡ ip = cc in
    subst IsIp e (record { width = inr refl; bytes = omega arith })

size : (engine_pool parse lookup (λ s. s)).pool.pool_size ≡ 65536
unfolding engine_pool new_ip_pool_with_config empty_pool_at get_ip_pool_config get_env pool_size_of
    size_of_mask trim trim_left trim_prefix has_prefix has_byte parse_uint parse_digits
    Bytes-discrete ℕ_discrete
size = refl

start : (engine_pool parse lookup (λ s. s)).pool.pool_start ≡ 167772160
unfolding engine_pool new_ip_pool_with_config empty_pool_at get_ip_pool_config get_env pool_size_of
    size_of_mask trim trim_left trim_prefix has_prefix has_byte parse_uint parse_digits
    Bytes-discrete ℕ_discrete ceil_log2 ceil_log2_from mask4 base_start4 parse_ip4 append_zeros to4
    split_dots add_byte
start = refl

engine_pool-IsReady_example :
    let n = engine_pool parse lookup (λ s. s) in
    IsReady n.pool
    × ((r : IpKey) → fake_of n.pool r ≡ none)
    × (n.pool.pool_size ≡ 2 ^ (32 - n.cidr_mask))
    × (n.pool.pool_size6 ≡ 2 ^ (128 - n.cidr_mask6))
engine_pool-IsReady_example = engine_pool-IsReady parse parse-IsIp lookup (λ s. s)

-- Without a variable advertisements are blocked, and the limit is 500.
defaults : (get_compile_config (λ key. none) (λ s. s) (λ s. s) parse_uint []).limit ≡ 500
unfolding get_compile_config get_env parse_uint parse_digits
defaults = refl

blocks : (get_compile_config (λ key. none) (λ s. s) (λ s. s) parse_uint []).block_ads ≡ true
unfolding get_compile_config get_env get_env_bool
blocks = refl
