-- ===== src/Names/Stripping.antt =====
-- stripPrefix in internal/parser/compiler.go takes one label off, at most.
use next_path.Base.{
  ◌≢◌, length, ℕ, suc, ◌<◌, ◌||◌, [], ◌∷◌, ◌++◌, ◌≡◌, ◌⊎◌, inl, inr, refl, ap, arith, ◌==◌, ltb,
  take, drop, Bool-cases,
}
use next_path.Domains.{dot}
use next_path.Names.{count_dots, first_dot, is_stripped, strip_prefix}
use next_path.Names.Prefixes.{IsDigits, IsPrefix, is_stripped-IsPrefix, IsPrefix-is_stripped}
use next_path.Net.{Bytes}

-- At the first dot, a name with a dot is its first label, the dot, and the rest.
split_first :
    (d : Bytes)
    → 0 < count_dots d
    → (d ≡ take (first_dot d) d ++ dot ∷ drop (suc (first_dot d)) d)
      × (count_dots (take (first_dot d) d) ≡ 0)
      × (count_dots d ≡ suc (count_dots (drop (suc (first_dot d)) d)))
unfolding count_dots first_dot
split_first [] h = absurd (omega arith)
split_first (c ∷ cs) h = elim (Bool-cases (c == dot)) [
  | inl e ↦ rw e (ap (λ (b : ℕ). b ∷ cs) (ground arith), refl, refl)
  | inr n ↦
      let (whole, none_before, count) = split_first cs (rw n at h) in
      rw n (ap (◌∷◌ c) whole, ground (arith, none_before), count)
]

-- A text without a dot in front of a dot.
plain_front :
    (label t : Bytes)
    → count_dots label ≡ 0
    → (count_dots (label ++ dot ∷ t) ≡ suc (count_dots t))
      × (first_dot (label ++ dot ∷ t) ≡ length label)
      × (take (length label) (label ++ dot ∷ t) ≡ label)
unfolding count_dots first_dot
plain_front [] t h = (refl, refl, refl)
plain_front (c ∷ cs) t h = elim (Bool-cases (c == dot)) [
  | inl e ↦ absurd (cc (rw e at h))
  | inr n ↦
      let (count, first, front) = plain_front cs t (rw n at h) in
      rw n (count, ap suc first, ap (λ u. c ∷ u) front)
]

digits_plain : (ds : Bytes) → IsDigits ds → count_dots ds ≡ 0
unfolding count_dots
digits_plain [] h = refl
digits_plain (c ∷ cs) ((lo, hi), h) = ground (arith, digits_plain cs h)

-- A prefix has no dot and is not empty.
IsPrefix-plain : (label : Bytes) → IsPrefix label → (count_dots label ≡ 0) × (0 < length label)
unfolding count_dots
IsPrefix-plain label (ds, pure, kind) =
    let plain = digits_plain ds pure in
    elim kind [
      | inl e ↦ rw e (plain, omega arith)
      | inr (inl e) ↦ rw e (plain, omega arith)
      | inr (inr (inl e)) ↦ rw e (plain, omega arith)
      | inr (inr (inr (inl e))) ↦ rw e (plain, omega arith)
      | inr (inr (inr (inr (e, full)))) ↦ rw e (plain, not_empty ds full)
    ]
  where
    not_empty : (s : Bytes) → s ≢ [] → 0 < length s
    not_empty [] n = absurd (n refl)
    not_empty (c ∷ cs) n = omega arith

-- A dot, which is 46, stands in the text.
abbrev pub HasDot : Bytes → Type 0
HasDot t = (a : Bytes) × (b : Bytes) × (t ≡ a ++ 46 ∷ b)

HasDot-count : (a b : Bytes) → 0 < count_dots (a ++ 46 ∷ b)
unfolding count_dots
HasDot-count [] b = omega arith
HasDot-count (c ∷ a) b = ground (arith, HasDot-count a b)

-- The name is a prefix, a dot, and this rest, which has a dot.
abbrev pub Strips : Bytes → Bytes → Type 0
Strips d t = (label : Bytes) × IsPrefix label × (d ≡ label ++ 46 ∷ t) × HasDot t

Strips-front :
    (d t label : Bytes)
    → IsPrefix label
    → d ≡ label ++ 46 ∷ t
    → HasDot t
    → (1 < count_dots d) × (0 < first_dot d) × (take (first_dot d) d ≡ label)
Strips-front d t label known e (a, b, at) =
    let (plain, long) = IsPrefix-plain label known in
    let (count, first, front) = plain_front label t plain in
    let dotted : 0 < count_dots t = rw at (HasDot-count a b) in
    rw (e, count, first) (omega arith, long, front)

-- stripPrefix of a name that has no capital letter. If the name is www, m, hd or cdn with digits or
-- none, or digits alone, then a dot and a rest that has a dot, the answer is this rest; and if it is
-- not, the answer is the name.
pub strip_prefix-label :
    (to_lower : Bytes → Bytes) (d : Bytes)
    → to_lower d ≡ d
    → let s = strip_prefix to_lower d in Strips d s ⊎ ((s ≡ d) × ((t : Bytes) → ¬ Strips d t))
unfolding strip_prefix
strip_prefix-label to_lower d lower =
    let k = first_dot d in
    elim (Bool-cases (ltb (count_dots d) 2 || k == 0)) [
      | inl few ↦
          rw (lower, few)
            (inr (
              refl,
              λ t (label, known, e, at).
                  let (many, long, front) = Strips-front d t label known e at in
                  absurd (ground arith),
            ))
      | inr many ↦ elim (Bool-cases (is_stripped (take k d))) [
        | inr other ↦
            rw (lower, many, other)
              (inr (
                refl,
                λ t (label, known, e, at).
                    let (few, long, front) = Strips-front d t label known e at in
                    absurd (cc (IsPrefix-is_stripped label known)),
              ))
        | inl known ↦
            let (whole, no_dot, count) = split_first d (ground (arith, many)) in
            let rest = drop (suc k) d in
            let dotted : 0 < count_dots rest = ground (arith, many, count) in
            rw (lower, many, known)
              (inl (
                take k d,
                is_stripped-IsPrefix (take k d) known,
                whole,
                (
                  take (first_dot rest) rest,
                  drop (suc (first_dot rest)) rest,
                  (split_first rest dotted).0,
                ),
              ))
      ]
    ]
