-- ===== src/Net.antt =====
-- What the program uses of Go's `net.IP` and `bytes`, the key type of internal/dnsengine/ippool.go,
-- and its hash. An address is its bytes; a nil `net.IP` is the empty list.
pub mod Keys
use next_path.Base.{
  ℕ, ◌+◌, ◌*◌, ◌/◌, ◌%◌, ◌^◌, ◌<◌, bit_xor, Ordering, Bool, true, false, List, [], ◌∷◌, ◌++◌, ite,
  Option, none, some, ◌≡◌, refl, ◌==◌, ltb, if◌then◌else◌, length, take, drop, get_or, replicate,
  All, ◌⊎◌, ℕ_discrete,
}

abbrev pub Bytes : Type 0
Bytes = List ℕ

unfoldable pub Bytes-discrete : Discrete Bytes
Bytes-discrete = hlevel ℕ_discrete

-- `v4InV6Prefix` of the net package.
abbrev pub v4_prefix : Bytes
v4_prefix = 0 ∷ 0 ∷ 0 ∷ 0 ∷ 0 ∷ 0 ∷ 0 ∷ 0 ∷ 0 ∷ 0 ∷ 255 ∷ 255 ∷ []

-- `net.IPv4(a, b, c, d)`: the 16-byte form.
abbrev pub ipv4 : ℕ → ℕ → ℕ → ℕ → Bytes
ipv4 a b c d = v4_prefix ++ a ∷ b ∷ c ∷ d ∷ []

-- `ip.To4()`; `none` is nil.
unfoldable pub to4 : Bytes → Option Bytes
to4 ip =
    if length ip == 4
    then some ip
    else if length ip == 16
    then ite (Bytes-discrete (take 12 ip) v4_prefix) (some (drop 12 ip)) none
    else none

-- `ip.To16()`; nil is the empty list.
unfoldable pub to16 : Bytes → Bytes
to16 ip = if length ip == 4 then v4_prefix ++ ip else if length ip == 16 then ip else []

-- `binary.BigEndian.Uint32`, of four bytes.
abbrev pub be_uint32 : Bytes → ℕ
be_uint32 b = get_or b 0 0 * 2 ^ 24 + get_or b 1 0 * 2 ^ 16 + get_or b 2 0 * 2 ^ 8 + get_or b 3 0

-- `byte(v >> 24), byte(v >> 16), byte(v >> 8), byte(v)`.
abbrev pub octets : ℕ → Bytes
octets v = (v / 2 ^ 24 % 256) ∷ (v / 2 ^ 16 % 256) ∷ (v / 2 ^ 8 % 256) ∷ (v % 256) ∷ []

-- `bytes.Compare`.
unfoldable pub bytes_compare : Bytes → Bytes → Ordering
bytes_compare [] [] = Ordering.eq
bytes_compare [] (y ∷ ys) = Ordering.lt
bytes_compare (x ∷ xs) [] = Ordering.gt
bytes_compare (x ∷ xs) (y ∷ ys) =
    if ltb x y then Ordering.lt else if ltb y x then Ordering.gt else bytes_compare xs ys

pub record IpKey : Type 0 where
  pub is_ipv6 : Bool
  pub v4 : ℕ
  pub v6 : Bytes

unfoldable pub IpKey-discrete : Discrete IpKey
unfolding Bytes-discrete
IpKey-discrete = hlevel ℕ_discrete

abbrev pub zero16 : Bytes
zero16 = replicate 16 0

-- `copy(v6[:], ip)` into sixteen zero bytes.
abbrev pub copy16 : Bytes → Bytes
copy16 ip = take 16 (ip ++ drop (length ip) zero16)

-- `ToIPKey`.
unfoldable pub to_ip_key : Bytes → IpKey
to_ip_key ip = elim (to4 ip) [
  | some ip4 ↦ record { is_ipv6 = false; v4 = be_uint32 ip4; v6 = zero16 }
  | none ↦ record { is_ipv6 = true; v4 = 0; v6 = copy16 (to16 ip) }
]

-- `IPKey.ToIP`.
unfoldable pub to_ip : IpKey → Bytes
to_ip k = if k.is_ipv6 then k.v6 else v4_prefix ++ octets k.v4

-- `normalizeIP`.
unfoldable pub normalize_ip : Bytes → Bytes
normalize_ip ip = elim (to4 ip) [ some ip4 ↦ ip4 | none ↦ to16 ip ]

-- One round of the loop of `fnv1aBytes`, on uint32.
fnv_round : ℕ → ℕ → ℕ
fnv_round h b = bit_xor h b * 16777619 % 2 ^ 32

fnv_loop : ℕ → Bytes → ℕ
fnv_loop h [] = h
fnv_loop h (b ∷ bs) = fnv_loop (fnv_round h b) bs

-- `h ^= h >> k`.
xor_shift : ℕ → ℕ → ℕ
xor_shift h k = bit_xor h (h / 2 ^ k)

-- `fnv1aBytes`: FNV-1a, then the finaliser of murmur3.
unfoldable pub fnv1a_bytes : Bytes → ℕ
unfolding fnv_round fnv_loop xor_shift
fnv1a_bytes bs =
    let h = fnv_loop 2166136261 bs in
    let h1 = xor_shift h 16 * 0x85ebca6b % 2 ^ 32 in
    let h2 = xor_shift h1 13 * 0xc2b2ae35 % 2 ^ 32 in xor_shift h2 16

-- An address as the rest of the program gets it: four or sixteen bytes.
pub record IsIp (ip : Bytes) : Type 0 where
  pub width : (length ip ≡ 4) ⊎ (length ip ≡ 16)
  pub bytes : All (λ b. b < 256) ip

test_to4 : to4 (ipv4 10 0 0 1) ≡ some (10 ∷ 0 ∷ 0 ∷ 1 ∷ [])
unfolding to4 Bytes-discrete ℕ_discrete
test_to4 = refl

test_fnv : fnv1a_bytes [] ≡ 2872998923
unfolding fnv1a_bytes
test_fnv = refl
