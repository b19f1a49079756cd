-- ===== src/Alloc/Probing.antt =====
-- The linear probes of GetFakeIPsForReals in internal/dnsengine/ippool.go: what they find is free
-- and in the pool, and they give up only when all that they may try is taken.
use native.Mathlib.Nat.{mod-eq_of_lt}
use next_path.Alloc.Natural.{Fits4, Usable4, natural4-Usable4}
use next_path.Alloc.{
  u32_mod, ip_of_uint32, occupied, candidate4, try_candidate4, probe4, natural4, choose_fake,
  compute_level1_hash, to4_bytes,
}
use next_path.Base.{
  ℕ, zero, suc, ◌+◌, ◌-◌, ◌%◌, ◌≤◌, ◌<◌, true, false, ◌||◌, Option, none, some, ◌≡◌, sym, ◌⊎◌, inl,
  inr, arith, min, ◌==◌, leb, if◌then◌else◌, Bool-cases, ℕ_discrete, leb,
}
use next_path.Net.Keys.{to4-prefix, be_uint32-octets}
use next_path.Net.{Bytes, be_uint32, octets}
use next_path.Pool.{IpPool}

-- An address that the probe passes over.
abbrev pub Passed4 : IpPool → ℕ → Type 0
Passed4 p v = (v % 256 ≡ 0) ⊎ (v % 256 ≡ 255) ⊎ (occupied p (ip_of_uint32 v) ≡ true)

-- An address that can be given.
pub record Free4 (p : IpPool) (ip : Bytes) : Type 0 where
  pub value : ℕ
  pub text : ip ≡ ip_of_uint32 value
  pub usable : Usable4 p value
  pub free : occupied p ip ≡ false

-- One attempt, at a candidate of the pool.
try_candidate4-Free4 :
    (p : IpPool) (v : ℕ) (rest : Option Bytes) (ip : Bytes)
    → p.pool_start ≤ v
    → v < p.pool_start + p.pool_size
    → try_candidate4 p v rest ≡ some ip
    → (rest ≡ some ip) ⊎ Free4 p ip
unfolding try_candidate4
try_candidate4-Free4 p v rest ip lo hi h = elim (Bool-cases (v % 256 == 0 || v % 256 == 255)) [
  | inl skip ↦ inl (rw skip at h)
  | inr keep ↦ elim (Bool-cases (occupied p (ip_of_uint32 v))) [
    | inl taken ↦ inl (rw (keep, taken) at h)
    | inr free ↦
        let found : some (ip_of_uint32 v) ≡ some ip = rw (keep, free) at h in
        let here : ip_of_uint32 v ≡ ip = cc in
        inr (record {
          value = v;
          text = sym here;
          usable = record {
            lower = lo;
            upper = hi;
            no_network = ground arith;
            no_broadcast = ground arith;
          };
          free = rw (← here) free;
        })
  ]
]

try_candidate4-Passed4 :
    (p : IpPool) (v : ℕ) (rest : Option Bytes)
    → try_candidate4 p v rest ≡ none
    → (rest ≡ none) × Passed4 p v
unfolding try_candidate4
try_candidate4-Passed4 p v rest h = ground arith

-- The attempt that reaches offset `d` from offset `n`.
attempt_for : ℕ → ℕ → ℕ → ℕ
attempt_for size n d = if leb n d then d - n else d + size - n

attempt_for-lt : (size n d : ℕ) → n < size → d < size → attempt_for size n d < size
unfolding attempt_for
attempt_for-lt size n d h₁ h₂ = ground arith

attempt_for-mod :
    (size n d : ℕ)
    → n < size
    → d < size
    → size ≤ 1024
    → (n + attempt_for size n d) % u32_mod % size ≡ d
unfolding attempt_for
attempt_for-mod size n d h₁ h₂ h₃ = elim (Bool-cases (leb n d)) [
  | inl le ↦ let e : (n + (d - n)) % u32_mod ≡ d = ground arith in rw (le, e) (mod-eq_of_lt h₂)
  | inr gt ↦
      let e : (n + (d + size - n)) % u32_mod ≡ d + size = ground arith in
      rw (gt, e) (wrap size d h₂)
]
  where
    wrap : (size d : ℕ) → d < size → (d + size) % size ≡ d
    wrap size d h = grind arith

module _ (p : IpPool) (natural : ℕ) where
  candidate4-range :
      (a : ℕ)
      → Fits4 p
      → (p.pool_start ≤ candidate4 p natural a)
        × (candidate4 p natural a < p.pool_start + p.pool_size)
  unfolding candidate4
  candidate4-range a fits = go (((natural + u32_mod - p.pool_start) % u32_mod + a) % u32_mod)
    where
      go :
          (x : ℕ)
          → (p.pool_start ≤ (p.pool_start + x % p.pool_size) % u32_mod)
            × ((p.pool_start + x % p.pool_size) % u32_mod < p.pool_start + p.pool_size)
      go x = omega arith

  -- What the IPv4 probe finds can be given.
  pub probe4-Free4 : (n a : ℕ) (ip : Bytes) → Fits4 p → probe4 p natural n a ≡ some ip → Free4 p ip
  unfolding probe4
  probe4-Free4 zero a ip fits h = absurd (cc)
  probe4-Free4 (suc n) a ip fits h =
      let (lo, hi) = candidate4-range a fits in
      or_rest
        (try_candidate4-Free4 p (candidate4 p natural a) (probe4 p natural n (a + 1)) ip lo hi h)
        (probe4-Free4 n (a + 1) ip fits)
    where
      or_rest :
          (probe4 p natural n (a + 1) ≡ some ip) ⊎ Free4 p ip
          → (probe4 p natural n (a + 1) ≡ some ip → Free4 p ip)
          → Free4 p ip
      or_rest (inl r) k = k r
      or_rest (inr f) k = f

  -- When it gives up, it has passed over every candidate.
  pub probe4-Passed4 :
      (n a k : ℕ)
      → probe4 p natural n a ≡ none
      → a ≤ k
      → k < a + n
      → Passed4 p (candidate4 p natural k)
  unfolding probe4
  probe4-Passed4 zero a k h lo hi = absurd (omega arith)
  probe4-Passed4 (suc n) a k h lo hi =
      let (rest, here) = try_candidate4-Passed4 p (candidate4 p natural a) _ h in
      elim (ℕ_discrete k a) [
        | yes e ↦ rw e here
        | no n' ↦ probe4-Passed4 n (a + 1) k rest (omega arith) (omega arith)
      ]

  -- Some attempt below the size of the pool meets each of its addresses.
  pub candidate4-onto :
      (v : ℕ)
      → Fits4 p
      → p.pool_size ≤ 1024
      → p.pool_start ≤ natural
      → natural < p.pool_start + p.pool_size
      → p.pool_start ≤ v
      → v < p.pool_start + p.pool_size
      → (k : ℕ) × (k < p.pool_size) × (candidate4 p natural k ≡ v)
  unfolding candidate4
  candidate4-onto v fits small n₁ n₂ v₁ v₂ =
      let n = natural - p.pool_start in
      let d = v - p.pool_start in
      let size = p.pool_size in
      let offset : (natural + u32_mod - p.pool_start) % u32_mod ≡ n = omega arith in
      let reach = attempt_for-mod size n d (omega arith) (omega arith) small in
      (
        attempt_for size n d,
        attempt_for-lt size n d (omega arith) (omega arith),
        rw (offset, reach) (omega arith),
      )

-- The value of an IPv4 address in its sixteen-byte form.
value_of_ip : (v : ℕ) → v < u32_mod → be_uint32 (to4_bytes (ip_of_uint32 v)) ≡ v
value_of_ip v h = rw (to4-prefix (octets v) (omega arith), to4_bytes) (be_uint32-octets v h)

-- In an IPv4 pool within the address space, of an even start and an even size above zero, the fake
-- address chosen for an IPv4 address is free, in the pool, and ends in neither .0 nor
-- .255.
pub choose_fake-Free4 :
    (p : IpPool) (real_ip ip : Bytes) → Fits4 p → choose_fake false real_ip p ≡ some ip → Free4 p ip
unfolding choose_fake compute_level1_hash
choose_fake-Free4 p real_ip ip fits h =
    elim (Bool-cases (occupied p (ip_of_uint32 (natural4 p real_ip)))) [
      | inl taken ↦ probe4-Free4 p _ (min p.pool_size 1024) 0 ip fits (rw taken at h)
      | inr free ↦
          let found : some (ip_of_uint32 (natural4 p real_ip)) ≡ some ip = rw free at h in
          let here : ip_of_uint32 (natural4 p real_ip) ≡ ip = cc in
          record {
            value = natural4 p real_ip;
            text = sym here;
            usable = natural4-Usable4 p real_ip fits;
            free = rw (← here) free;
          }
    ]

-- When the search of an IPv4 pool within the address space, of an even start and an even size of at
-- most 1024 addresses, fails, every address of the pool is taken or
-- ends in .0 or .255.
pub choose_fake-exhausted4 :
    (p : IpPool) (real_ip : Bytes) (v : ℕ)
    → Fits4 p
    → p.pool_size ≤ 1024
    → choose_fake false real_ip p ≡ none
    → p.pool_start ≤ v
    → v < p.pool_start + p.pool_size
    → Passed4 p v
unfolding choose_fake compute_level1_hash
choose_fake-exhausted4 p real_ip v fits small h v₁ v₂ =
    let natural = natural4 p real_ip in
    let u = natural4-Usable4 p real_ip fits in
    elim (Bool-cases (occupied p (ip_of_uint32 natural))) [
      | inr free ↦ let found : some (ip_of_uint32 natural) ≡ none = rw free at h in cc
      | inl taken ↦
          let failed : probe4 p (be_uint32 (to4_bytes (ip_of_uint32 natural)))
                (min p.pool_size 1024) 0
              ≡ none =
            rw taken at h in
          let value = value_of_ip natural (omega (arith, u.upper, fits.inside)) in
          let (k, lt, meets) = candidate4-onto p natural v fits small u.lower u.upper v₁ v₂ in
          rw meets at
            (probe4-Passed4 p natural _ 0 k (rw value at failed) (omega arith) (omega arith))
    ]
