-- ===== src/Net/Keys.antt =====
-- Keys and addresses determine one another, so a map and a shard that are found by an address are
-- found by its key. The code is internal/dnsengine/ippool.go, ToIPKey, ToIP and normalizeIP.
use next_path.Base.{
  ℕ, suc, ◌<◌, ◌^◌, true, false, List, [], ◌∷◌, ◌++◌, inl, inr, none, some, ◌≡◌, refl, ap, arith,
  length, length-append, take, drop, All, All-append, Option-cases, Bool-cases, length-drop,
}
use next_path.Net.{
  Bytes, v4_prefix, to4, to16, be_uint32, octets, IpKey, zero16, to_ip_key, to_ip, normalize_ip,
  IsIp,
}

abbrev IsByte : ℕ → Type 0
IsByte b = b < 256

pub octets-be_uint32 : (b : Bytes) → length b ≡ 4 → All IsByte b → octets (be_uint32 b) ≡ b
octets-be_uint32 (a ∷ b ∷ c ∷ d ∷ []) h v = ground arith
octets-be_uint32 [] h v = absurd (omega arith)
octets-be_uint32 (a ∷ []) h v = absurd (omega arith)
octets-be_uint32 (a ∷ b ∷ []) h v = absurd (omega arith)
octets-be_uint32 (a ∷ b ∷ c ∷ []) h v = absurd (omega arith)
octets-be_uint32 (a ∷ b ∷ c ∷ d ∷ e ∷ r) h v = absurd (omega arith)

pub be_uint32-octets : (v : ℕ) → v < 2 ^ 32 → be_uint32 (octets v) ≡ v
be_uint32-octets v h = omega arith

pub be_uint32-lt : (b : Bytes) → length b ≡ 4 → All IsByte b → be_uint32 b < 2 ^ 32
be_uint32-lt (a ∷ b ∷ c ∷ d ∷ []) h v = omega arith
be_uint32-lt [] h v = absurd (omega arith)
be_uint32-lt (a ∷ []) h v = absurd (omega arith)
be_uint32-lt (a ∷ b ∷ []) h v = absurd (omega arith)
be_uint32-lt (a ∷ b ∷ c ∷ []) h v = absurd (omega arith)
be_uint32-lt (a ∷ b ∷ c ∷ d ∷ e ∷ r) h v = absurd (omega arith)

All-drop {ℓ} : {A : Type ℓ} (P : A → Type 0) (n : ℕ) (xs : List A) → All P xs → All P (drop n xs)
All-drop P ℕ.zero xs h = h
All-drop P (suc n) [] h = h
All-drop P (suc n) (x ∷ xs) h = All-drop P n xs h.1

-- `To4` of a four-byte address in its sixteen-byte form.
pub to4-prefix : (b : Bytes) → length b ≡ 4 → to4 (v4_prefix ++ b) ≡ some b
unfolding to4
to4-prefix b h = ground arith

-- What `To4` gives has four bytes.
pub to4-bytes : (ip b : Bytes) → IsIp ip → to4 ip ≡ some b → (length b ≡ 4) × All IsByte b
unfolding to4
to4-bytes ip b v e = ground (arith, length-drop 12 ip, All-drop IsByte 12 ip)

-- An address that is no IPv4 address keeps its sixteen bytes.
to16_of_none : (ip : Bytes) → IsIp ip → to4 ip ≡ none → (to16 ip ≡ ip) × (length ip ≡ 16)
unfolding to4 to16
to16_of_none ip v e = ground arith

-- The sixteen-byte form of an address is an address.
pub to16-IsIp : (ip : Bytes) → IsIp ip → IsIp (to16 ip) × (length (to16 ip) ≡ 16)
unfolding to16
to16-IsIp ip h = elim h.width [
  | inl four ↦
      let wide : length (v4_prefix ++ ip) ≡ 16 = omega (arith, length-append v4_prefix ip) in
      rw four (
        record {
          width = inr wide;
          bytes = All-append (λ b. b < 256) v4_prefix ip (omega arith) h.bytes;
        },
        wide,
      )
  | inr sixteen ↦ rw sixteen (h, sixteen)
]

copy_full : (xs ys : Bytes) (n : ℕ) → length xs ≡ n → take n (xs ++ ys) ≡ xs
copy_full [] ys ℕ.zero h = refl
copy_full [] ys (suc n) h = absurd (omega arith)
copy_full (x ∷ xs) ys ℕ.zero h = absurd (omega arith)
copy_full (x ∷ xs) ys (suc n) h = ap (◌∷◌ x) (copy_full xs ys n (omega arith))

-- A key of an address: an IPv4 key holds 32 bits, an IPv6 key sixteen bytes that `To4` refuses.
pub record IsKey (k : IpKey) : Type 0 where
  pub v4_part : k.is_ipv6 ≡ false → (k.v4 < 2 ^ 32) × (k.v6 ≡ zero16)
  pub v6_part : k.is_ipv6 ≡ true → (k.v4 ≡ 0) × IsIp k.v6 × (to4 k.v6 ≡ none)

pub to_ip_key_v4 :
    (ip b : Bytes)
    → to4 ip ≡ some b
    → to_ip_key ip ≡ record { is_ipv6 = false; v4 = be_uint32 b; v6 = zero16 }
unfolding to_ip_key
to_ip_key_v4 ip b e = rw (e, to_ip_key)

to_ip_key_v6 :
    (ip : Bytes)
    → IsIp ip
    → to4 ip ≡ none
    → to_ip_key ip ≡ record { is_ipv6 = true; v4 = 0; v6 = ip }
unfolding to_ip_key
to_ip_key_v6 ip v e =
    let (same, width) = to16_of_none ip v e in
    rw (e, to_ip_key, same)
      (ap (λ (w : Bytes). record { is_ipv6 = true; v4 = 0; v6 = w })
        (copy_full ip (drop (length ip) zero16) 16 width))

-- The key of an address is well formed.
pub to_ip_key-IsKey : (ip : Bytes) → IsIp ip → IsKey (to_ip_key ip)
to_ip_key-IsKey ip v = elim (Option-cases (to4 ip)) [
  | inl e ↦ rw (to_ip_key_v6 ip v e) (record { v4_part = λ h. cc; v6_part = λ h. (refl, v, e) })
  | inr (b, e) ↦
      let (width, bytes) = to4-bytes ip b v e in
      rw (to_ip_key_v4 ip b e)
        (record { v4_part = λ h. (be_uint32-lt b width bytes, refl); v6_part = λ h. cc })
]

-- The address of a well-formed key has that key.
pub to_ip_key-to_ip : (k : IpKey) → IsKey k → to_ip_key (to_ip k) ≡ k
unfolding to_ip
to_ip_key-to_ip k v = elim (Bool-cases k.is_ipv6) [
  | inl e ↦
      let (zero_v4, ip, refused) = v.v6_part e in
      rw (e, to_ip_key_v6 k.v6 ip refused) (ground arith)
  | inr e ↦
      let (small, zero_v6) = v.v4_part e in
      rw (e, to_ip_key_v4 (v4_prefix ++ octets k.v4) (octets k.v4) (to4-prefix _ (omega arith)))
        (ground (arith, be_uint32-octets k.v4))
]

-- An address of four or sixteen bytes and the address of its key are normalised alike.
pub normalize_ip-to_ip :
    (ip : Bytes) → IsIp ip → normalize_ip (to_ip (to_ip_key ip)) ≡ normalize_ip ip
unfolding to_ip normalize_ip
normalize_ip-to_ip ip v = elim (Option-cases (to4 ip)) [
  | inl e ↦ rw (to_ip_key_v6 ip v e)
  | inr (b, e) ↦
      let (width, bytes) = to4-bytes ip b v e in
      rw (to_ip_key_v4 ip b e, octets-be_uint32 b width bytes, to4-prefix b width, e, normalize_ip)
        refl
]
