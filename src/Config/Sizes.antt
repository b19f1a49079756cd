-- ===== src/Config/Sizes.antt =====
-- The sizes that getIPPoolConfig and NewIPPoolWithConfig give a pool.
use next_path.Base.{
  ℕ, zero, suc, ◌+◌, ◌-◌, ◌*◌, ◌/◌, ◌%◌, ◌^◌, ◌≤◌, ◌<◌, Bool, true, false, ◌&&◌, [], ◌∷◌, ◌≡◌, inl,
  inr, refl, sym, arith, ◌==◌, ltb, leb, Bool-cases, Option-cases,
}
use next_path.Config.{mask4, pool_size_of, size_of_mask, ceil_log2, ceil_log2_from, or_default}
use next_path.Net.{Bytes}
use native.Mathlib.Nat.{div-lt_iff_lt-mul, mul-le-mul_right, mul-mod_left, one-le-pow, suc-mul}
use next_path.Text.{parse_uint, trim_prefix}

-- A test on all numbers below a bound.
all_below : ℕ → (ℕ → Bool) → Bool
all_below zero test = true
all_below (suc n) test = test n && all_below n test

and_both : (a b : Bool) → (a && b) ≡ true → (a ≡ true) × (b ≡ true)
and_both true true h = (refl, refl)
and_both true false h = absurd (cc)
and_both false b h = absurd (cc)

all_below-at : (n : ℕ) (test : ℕ → Bool) → all_below n test ≡ true → (k : ℕ) → k < n → test k ≡ true
unfolding all_below
all_below-at zero test h k b = absurd (omega arith)
all_below-at (suc n) test h k b =
    let (here, below) = and_both (test n) (all_below n test) h in
    elim (Bool-cases (k == n)) [
      | inl e ↦ subst_test (ground arith) here
      | inr ne ↦ all_below-at n test below k (ground arith)
    ]
  where
    subst_test : n ≡ k → test n ≡ true → test k ≡ true
    subst_test e h = rw (sym e) h

log_table : all_below 32 (λ k. ceil_log2 (2 ^ k) == k) ≡ true
unfolding all_below ceil_log2 ceil_log2_from
log_table = refl

-- The logarithm of a power of two is its exponent.
pub ceil_log2-pow : (k : ℕ) → k < 32 → ceil_log2 (2 ^ k) ≡ k
ceil_log2-pow k h = test→equal (ceil_log2 (2 ^ k)) (all_below-at 32 _ log_table k h)
  where
    test→equal : (n : ℕ) → (n == k) ≡ true → n ≡ k
    test→equal n h = ground arith

-- A size that a pool can have: a power of two below 2 ^ 32.
abbrev pub IsSize : ℕ → Type 0
IsSize n = (k : ℕ) × (k < 32) × (n ≡ 2 ^ k)

size_of_mask-IsSize : (widest val : ℕ) → 32 ≤ widest → IsSize (size_of_mask widest val)
unfolding size_of_mask
size_of_mask-IsSize widest val w = elim (Bool-cases (ltb 0 val && leb val widest)) [
  | inr bad ↦ rw bad (24, omega arith, refl)
  | inl good ↦ elim (Bool-cases (ltb 31 (widest - val))) [
    | inl wide ↦ rw (good, wide) (31, omega arith, refl)
    | inr fits ↦ rw (good, fits) (widest - val, ground arith, refl)
  ]
]

-- The size that a pool takes from the text of its variable: the default where there is none.
pub pool_size_of-IsSize :
    (widest default : ℕ) (text : Bytes)
    → 32 ≤ widest
    → IsSize default
    → IsSize (or_default (pool_size_of widest text) default)
unfolding pool_size_of
pool_size_of-IsSize widest default [] w d = d
pool_size_of-IsSize widest default (c ∷ cs) w d =
    elim (Option-cases (parse_uint (trim_prefix (c ∷ cs) (47 ∷ [])))) [
      | inl bad ↦ rw (bad, pool_size_of) d
      | inr (val, good) ↦
          rw (good, pool_size_of)
            (given (size_of_mask widest val) (size_of_mask-IsSize widest val w))
    ]
  where
    given : (n : ℕ) → IsSize n → IsSize (or_default n default)
    given n s = elim (Bool-cases (n == 0)) [ inl e ↦ rw e d | inr ne ↦ rw ne s ]

split_table : all_below 32 (λ k. 2 ^ (32 - k) * 2 ^ k == 2 ^ 32) ≡ true
unfolding all_below
split_table = refl

pow_split : (k : ℕ) → k < 32 → 2 ^ (32 - k) * 2 ^ k ≡ 2 ^ 32
pow_split k h = test→equal (2 ^ (32 - k) * 2 ^ k) (all_below-at 32 _ split_table k h)
  where
    test→equal : (n : ℕ) → (n == 2 ^ 32) ≡ true → n ≡ 2 ^ 32
    test→equal n h = ground arith

block_fits : (v m n : ℕ) → 0 < m → v < n * m → v / m * m + m ≤ n * m
block_fits v m n pos h =
    let below : v / m < n = (div-lt_iff_lt-mul pos).1 h in
    let scaled : suc (v / m) * m ≤ n * m = mul-le-mul_right m (omega arith) in
    subst_sum (suc-mul (v / m) m) scaled
  where
    subst_sum : suc (v / m) * m ≡ v / m * m + m → suc (v / m) * m ≤ n * m → v / m * m + m ≤ n * m
    subst_sum e h = omega arith

-- An address with its low `k` bits cleared starts a block of `2 ^ k` addresses within the space.
pub mask4-block :
    (k v : ℕ)
    → k < 32
    → v < 2 ^ 32
    → (mask4 (32 - k) v % 2 ^ k ≡ 0) × (mask4 (32 - k) v + 2 ^ k ≤ 2 ^ 32)
unfolding mask4
mask4-block k v small h = rw (back k small) (
  mul-mod_left (v / 2 ^ k) (2 ^ k),
  omega (
    arith,
    pow_split k small,
    block_fits v (2 ^ k) (2 ^ (32 - k)) (one-le-pow k 2 (omega arith))
        (omega (arith, pow_split k small)),
  ),
)
  where
    back : (k : ℕ) → k < 32 → 32 - (32 - k) ≡ k
    back k h = omega arith
