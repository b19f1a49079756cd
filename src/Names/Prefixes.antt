-- ===== src/Names/Prefixes.antt =====
-- The labels that isNumberedPrefix and isPureDigits of internal/parser/compiler.go let stripPrefix take off.
use next_path.Base.{
  Bool, false, Bool, All, ◌≤◌, ◌≢◌, ◌↔◌, length, true, ◌||◌, [], ◌∷◌, ◌++◌, ◌≡◌, ◌⊎◌, inl, inr,
  refl, ap, arith, drop, Bool-cases,
}
use next_path.Domains.{has_prefix}
use next_path.Text.{codes}
use next_path.Names.{is_pure_digits, is_numbered_prefix, between, is_pure_digits_from, is_stripped}
use next_path.Net.{Bytes}

-- Decimal digits.
abbrev pub IsDigits : Bytes → Type 0
IsDigits = All (λ c. (48 ≤ c) × (c ≤ 57))

-- `www`, `m`, `hd` or `cdn` with digits after it or none, or digits alone, at least one.
abbrev pub IsPrefix : Bytes → Type 0
IsPrefix label =
    (digits : Bytes) × IsDigits digits
    × ((label ≡ codes "www" ++ digits)
        ⊎ (label ≡ codes "m" ++ digits)
        ⊎ (label ≡ codes "hd" ++ digits)
        ⊎ (label ≡ codes "cdn" ++ digits)
        ⊎ ((label ≡ digits) × (digits ≢ [])))

is_pure_digits_from_iff : (s : Bytes) → (is_pure_digits_from s ≡ true) ↔ IsDigits s
unfolding is_pure_digits_from
is_pure_digits_from_iff [] = (λ h. tt, λ h. refl)
is_pure_digits_from_iff (c ∷ cs) =
    let (to, from) = is_pure_digits_from_iff cs in
    elim (Bool-cases (between 48 57 c)) [
      | inl digit ↦ rw digit (λ h. ((ground arith, ground arith), to h), λ (range, h). from h)
      | inr other ↦ rw other (λ h. absurd (cc), λ ((lo, hi), h). absurd (ground arith))
    ]

has_prefix-split : (s t : Bytes) → has_prefix s t ≡ true → s ≡ t ++ drop (length t) s
unfolding has_prefix
has_prefix-split s [] h = refl
has_prefix-split [] (y ∷ t) h = absurd (cc)
has_prefix-split (x ∷ s) (y ∷ t) h =
    let same : x ≡ y = ground arith in
    let rest : has_prefix s t ≡ true = ground arith in
    rw same (ap (λ u. y ∷ u) (has_prefix-split s t rest))

has_prefix-front : (t r : Bytes) → (has_prefix (t ++ r) t ≡ true) × (drop (length t) (t ++ r) ≡ r)
unfolding has_prefix
has_prefix-front [] r = (refl, refl)
has_prefix-front (y ∷ t) r =
    let (front, back) = has_prefix-front t r in (ground (arith, front), back)

is_numbered_prefix_iff :
    (s base : Bytes)
    → (is_numbered_prefix s base ≡ true)
      ↔ ((digits : Bytes) × IsDigits digits × (s ≡ base ++ digits))
unfolding is_numbered_prefix
is_numbered_prefix_iff s base = (
  λ h. elim (Bool-cases (has_prefix s base)) [
    | inl begins ↦
        let rest = drop (length base) s in
        let pure : is_pure_digits_from rest ≡ true = rw begins at h in
        (rest, (is_pure_digits_from_iff rest).0 pure, has_prefix-split s base begins)
    | inr other ↦ absurd (cc (rw other at h))
  ],
  λ (digits, pure, e).
      let (front, back) = has_prefix-front base digits in
      rw (e, front, back) ((is_pure_digits_from_iff digits).1 pure),
)

is_pure_digits_iff : (s : Bytes) → (is_pure_digits s ≡ true) ↔ (IsDigits s × (s ≢ []))
unfolding is_pure_digits
is_pure_digits_iff [] = (λ h. absurd (cc), λ (h, n). absurd (n refl))
is_pure_digits_iff (c ∷ cs) =
    let (to, from) = is_pure_digits_from_iff (c ∷ cs) in
    (λ h. (to h, λ e. absurd (cc)), λ (h, n). from h)

one_of_five :
    (a b c d e : Bool)
    → (a || b || c || d || e) ≡ true
    → (a ≡ true) ⊎ (b ≡ true) ⊎ (c ≡ true) ⊎ (d ≡ true) ⊎ (e ≡ true)
one_of_five true b c d e h = inl refl
one_of_five false true c d e h = inr (inl refl)
one_of_five false false true d e h = inr (inr (inl refl))
one_of_five false false false true e h = inr (inr (inr (inl refl)))
one_of_five false false false false e h = inr (inr (inr (inr h)))

pub is_stripped-IsPrefix : (s : Bytes) → is_stripped s ≡ true → IsPrefix s
unfolding is_stripped
is_stripped-IsPrefix s h = elim (one_of_five _ _ _ _ _ h) [
  | inl w ↦ let (ds, pure, e) = (is_numbered_prefix_iff s (codes "www")).0 w in (ds, pure, inl e)
  | inr (inl m) ↦
      let (ds, pure, e) = (is_numbered_prefix_iff s (codes "m")).0 m in (ds, pure, inr (inl e))
  | inr (inr (inl hd)) ↦
      let (ds, pure, e) = (is_numbered_prefix_iff s (codes "hd")).0 hd in
      (ds, pure, inr (inr (inl e)))
  | inr (inr (inr (inl cdn))) ↦
      let (ds, pure, e) = (is_numbered_prefix_iff s (codes "cdn")).0 cdn in
      (ds, pure, inr (inr (inr (inl e))))
  | inr (inr (inr (inr digits))) ↦
      let (pure, full) = (is_pure_digits_iff s).0 digits in
      (s, pure, inr (inr (inr (inr (refl, full)))))
]

pub IsPrefix-is_stripped : (s : Bytes) → IsPrefix s → is_stripped s ≡ true
unfolding is_stripped
IsPrefix-is_stripped s (ds, pure, kind) = elim kind [
  | inl e ↦ let h = (is_numbered_prefix_iff s (codes "www")).1 (ds, pure, e) in ground (arith, h)
  | inr (inl e) ↦
      let h = (is_numbered_prefix_iff s (codes "m")).1 (ds, pure, e) in ground (arith, h)
  | inr (inr (inl e)) ↦
      let h = (is_numbered_prefix_iff s (codes "hd")).1 (ds, pure, e) in ground (arith, h)
  | inr (inr (inr (inl e))) ↦
      let h = (is_numbered_prefix_iff s (codes "cdn")).1 (ds, pure, e) in ground (arith, h)
  | inr (inr (inr (inr (e, full)))) ↦
      let h = (is_pure_digits_iff s).1 (rw e pure, rw e full) in ground (arith, h)
]
