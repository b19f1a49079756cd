-- ===== src/Alloc/Choosing.antt =====
-- The fake address that GetFakeIPsForReals (internal/dnsengine/ippool.go) chooses, of either family,
-- is an address that nobody has.
use next_path.Alloc.{
  occupied, try_candidate4, probe4, try_candidate6, probe6, candidate4, candidate6, natural4,
  natural6, choose_fake, compute_level1_hash, ip_of_uint32, ip6_of_uint32, to4_bytes,
}
use next_path.Base.{
  ℕ, zero, suc, ◌+◌, ◌%◌, ◌<◌, Bool, true, false, ◌||◌, List, [], ◌∷◌, Option, none, some, ◌≡◌,
  refl, ap, inl, inr, arith, min, take, drop, length, length-append, All, All-append, ◌==◌,
  if◌then◌else◌, Bool-cases,
}
use next_path.Net.{Bytes, IsIp, octets, be_uint32, to_ip_key}
use next_path.Pool.Views.{real_of}
use next_path.Pool.{IpPool}

-- A free address.
pub record IsFree (p : IpPool) (ip : Bytes) : Type 0 where
  pub address : IsIp ip
  pub nobody : real_of p (to_ip_key ip) ≡ none

pub ip_of_uint32-IsIp : (v : ℕ) → IsIp (ip_of_uint32 v)
ip_of_uint32-IsIp v = record { width = inr refl; bytes = omega arith }

All-take {ℓ} : {A : Type ℓ} (P : A → Type 0) (n : ℕ) (xs : List A) → All P xs → All P (take n xs)
All-take P zero xs h = tt
All-take P (suc n) [] h = tt
All-take P (suc n) (x ∷ xs) (h, hs) = (h, All-take P n xs hs)

length-take_of_le {ℓ} :
    {A : Type ℓ} (n k : ℕ) (xs : List A) → length xs ≡ n + k → length (take n xs) ≡ n
length-take_of_le zero k xs h = refl
length-take_of_le (suc n) k [] h = absurd (omega arith)
length-take_of_le (suc n) k (x ∷ xs) h = ap suc (length-take_of_le n k xs (omega arith))

pub ip6_of_uint32-IsIp :
    (start : Bytes) (v : ℕ) → IsIp start → length start ≡ 16 → IsIp (ip6_of_uint32 start v)
ip6_of_uint32-IsIp start v ip h = record {
  width =
      inr (omega (arith, length-append (take 12 start) (octets v), length-take_of_le 12 4 start h));
  bytes =
      All-append (λ b. b < 256) (take 12 start) (octets v)
        (All-take (λ b. b < 256) 12 start ip.bytes) (omega arith);
}

free-nobody : (p : IpPool) (ip : Bytes) → occupied p ip ≡ false → real_of p (to_ip_key ip) ≡ none
unfolding occupied real_of
free-nobody p ip h = ground arith

module _ (p : IpPool) where
  try_candidate4-IsFree :
      (v : ℕ) (rest : Option Bytes) (ip : Bytes)
      → (rest ≡ some ip → IsFree p ip)
      → try_candidate4 p v rest ≡ some ip
      → IsFree p ip
  unfolding try_candidate4
  try_candidate4-IsFree v rest ip k h = elim (Bool-cases (v % 256 == 0 || v % 256 == 255)) [
    | inl skip ↦ k (rw skip at h)
    | inr keep ↦ elim (Bool-cases (occupied p (ip_of_uint32 v))) [
      | inl taken ↦ k (rw (keep, taken) at h)
      | inr free ↦
          let found : some (ip_of_uint32 v) ≡ some ip = rw (keep, free) at h in
          let here : ip_of_uint32 v ≡ ip = cc in
          rw (← here) (record { address = ip_of_uint32-IsIp v; nobody = free-nobody p _ free })
    ]
  ]

  probe4-IsFree : (natural n a : ℕ) (ip : Bytes) → probe4 p natural n a ≡ some ip → IsFree p ip
  unfolding probe4
  probe4-IsFree natural zero a ip h = absurd (cc)
  probe4-IsFree natural (suc n) a ip h =
      try_candidate4-IsFree (candidate4 p natural a) _ ip (probe4-IsFree natural n (a + 1) ip) h

  module _ (start : IsIp p.pool_start6) (wide : length p.pool_start6 ≡ 16) where
    try_candidate6-IsFree :
        (v : ℕ) (rest : Option Bytes) (ip : Bytes)
        → (rest ≡ some ip → IsFree p ip)
        → try_candidate6 p v rest ≡ some ip
        → IsFree p ip
    unfolding try_candidate6
    try_candidate6-IsFree v rest ip k h =
        let c = ip6_of_uint32 p.pool_start6 v in
        elim (Bool-cases (occupied p c)) [
          | inl taken ↦ k (rw taken at h)
          | inr free ↦
              let found : some c ≡ some ip = rw free at h in
              let here : c ≡ ip = cc in
              rw (← here) (record {
                address = ip6_of_uint32-IsIp p.pool_start6 v start wide;
                nobody = free-nobody p _ free;
              })
        ]

    probe6-IsFree : (natural n a : ℕ) (ip : Bytes) → probe6 p natural n a ≡ some ip → IsFree p ip
    unfolding probe6
    probe6-IsFree natural zero a ip h = absurd (cc)
    probe6-IsFree natural (suc n) a ip h =
        try_candidate6-IsFree (candidate6 p natural a) _ ip (probe6-IsFree natural n (a + 1) ip) h

    compute_level1_hash-IsIp :
        (is_ipv6 : Bool) (real_ip : Bytes) → IsIp (compute_level1_hash is_ipv6 real_ip p)
    unfolding compute_level1_hash
    compute_level1_hash-IsIp false real_ip = ip_of_uint32-IsIp (natural4 p real_ip)
    compute_level1_hash-IsIp true real_ip =
        ip6_of_uint32-IsIp p.pool_start6 (natural6 p real_ip) start wide

    -- The address chosen is free.
    pub choose_fake-IsFree :
        (is_ipv6 : Bool) (real_ip ip : Bytes)
        → choose_fake is_ipv6 real_ip p ≡ some ip
        → IsFree p ip
    unfolding choose_fake
    choose_fake-IsFree is_ipv6 real_ip ip h =
        let natural = compute_level1_hash is_ipv6 real_ip p in
        elim (Bool-cases (occupied p natural)) [
          | inr free ↦
              let found : some natural ≡ some ip = rw free at h in
              let here : natural ≡ ip = cc in
              rw (← here) (record {
                address = compute_level1_hash-IsIp is_ipv6 real_ip;
                nobody = free-nobody p _ free;
              })
          | inl taken ↦ probed is_ipv6 (rw taken at h)
        ]
      where
        probed :
            (b : Bool)
            → (if b
                then probe6 p
                    (be_uint32 (drop 12 (compute_level1_hash is_ipv6 real_ip p)))
                    (min p.pool_size6 1024)
                    0
                else probe4 p
                    (be_uint32 (to4_bytes (compute_level1_hash is_ipv6 real_ip p)))
                    (min p.pool_size 1024)
                    0)
              ≡ some ip
            → IsFree p ip
        probed false e = probe4-IsFree _ _ _ ip e
        probed true e = probe6-IsFree _ _ _ ip e
