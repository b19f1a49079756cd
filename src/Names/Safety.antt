-- ===== src/Names/Safety.antt =====
-- What normalizeDomain in internal/parser/compiler.go lets into a zone file.
use next_path.Base.{
  ap, ◌++◌, ℕ, ◌≤◌, Bool, true, false, not, ◌&&◌, ◌||◌, List, [], ◌∷◌, Option, ◌≡◌, ◌⊎◌, inl, inr,
  refl, arith, ◌==◌, ltb, if◌then◌else◌, length, All, Bool-cases, Option-cases,
}
use next_path.Domains.{dot}
use next_path.Names.{
  between, hyphen, is_alnum_or_u, last_byte, inner_valid, is_valid_label, add_byte, split_dots,
  all_valid, normalize_domain, contains_any, refused, trim_wildcard, trim_dots, has_byte,
}
use next_path.Net.{Bytes}

-- A letter of either case, a digit or an underscore: a-z, A-Z, 0-9, and 95.
abbrev pub IsAlnum : ℕ → Type 0
IsAlnum c = ((97 ≤ c) × (c ≤ 122)) ⊎ ((65 ≤ c) × (c ≤ 90)) ⊎ ((48 ≤ c) × (c ≤ 57)) ⊎ (c ≡ 95)

-- One of these or the hyphen, which is 45.
abbrev pub IsLabelByte : ℕ → Type 0
IsLabelByte c = IsAlnum c ⊎ (c ≡ 45)

-- One of these or the dot, which is 46.
abbrev pub IsNameByte : ℕ → Type 0
IsNameByte c = IsLabelByte c ⊎ (c ≡ 46)

between-range : (lo hi c : ℕ) → between lo hi c ≡ true → (lo ≤ c) × (c ≤ hi)
between-range lo hi c h = (ground arith, ground arith)

is_alnum_or_u-IsAlnum : (c : ℕ) → is_alnum_or_u c ≡ true → IsAlnum c
unfolding is_alnum_or_u
is_alnum_or_u-IsAlnum c h = elim (Bool-cases (between 97 122 c)) [
  | inl low ↦ inl (between-range 97 122 c low)
  | inr a ↦ elim (Bool-cases (between 65 90 c)) [
    | inl high ↦ inr (inl (between-range 65 90 c high))
    | inr b ↦ elim (Bool-cases (between 48 57 c)) [
      | inl digit ↦ inr (inr (inl (between-range 48 57 c digit)))
      | inr d ↦ inr (inr (inr (same (rw (a, b, d) at h))))
    ]
  ]
]
  where
    same : (c == 95) ≡ true → c ≡ 95
    same e = ground arith

either_passes :
    (a b rest : Bool)
    → (if not a && not b then false else rest) ≡ true
    → ((a ≡ true) ⊎ (b ≡ true)) × (rest ≡ true)
either_passes true b rest h = (inl refl, h)
either_passes false true rest h = (inr refl, h)
either_passes false false rest h = absurd (cc)

both_pass :
    (a b rest : Bool)
    → (if not a || not b then false else rest) ≡ true
    → (a ≡ true) × (b ≡ true) × (rest ≡ true)
both_pass true true rest h = (refl, refl, h)
both_pass true false rest h = absurd (cc)
both_pass false b rest h = absurd (cc)

passes : (a rest : Bool) → (if a then false else rest) ≡ true → (a ≡ false) × (rest ≡ true)
passes false rest h = (refl, h)
passes true rest h = absurd (cc)

inner_valid-All :
    (cs : Bytes) → inner_valid cs ≡ true → is_alnum_or_u (last_byte cs) ≡ true → All IsLabelByte cs
unfolding inner_valid last_byte
inner_valid-All [] h l = tt
inner_valid-All (c ∷ []) h l = (inl (is_alnum_or_u-IsAlnum c l), tt)
inner_valid-All (c ∷ d ∷ ds) h l =
    let (kind, rest) = either_passes (is_alnum_or_u c) (c == hyphen) (inner_valid (d ∷ ds)) h in
    (
      elim kind [ inl a ↦ inl (is_alnum_or_u-IsAlnum c a) | inr e ↦ inr (ground arith) ],
      inner_valid-All (d ∷ ds) rest l,
    )

-- A text is what stands before its last byte, and that byte.
last_byte-split : (c : ℕ) (cs : Bytes) → (r : Bytes) × (c ∷ cs ≡ r ++ last_byte (c ∷ cs) ∷ [])
unfolding last_byte
last_byte-split c [] = ([], refl)
last_byte-split c (d ∷ ds) = let (r, e) = last_byte-split d ds in (c ∷ r, ap (λ t. c ∷ t) e)

-- A label of the domain name system, with underscores: 1 to 63 letters, digits, underscores and
-- hyphens, of which the first and the last are no hyphen.
pub record IsLabel (l : Bytes) : Type 0 where
  pub bytes : All IsLabelByte l
  pub short : length l ≤ 63
  pub first : (c : ℕ) × (r : Bytes) × (l ≡ c ∷ r) × IsAlnum c
  pub last : (c : ℕ) × (r : Bytes) × (l ≡ r ++ c ∷ []) × IsAlnum c

tail_last : (c d : ℕ) (ds : Bytes) → last_byte (c ∷ d ∷ ds) ≡ last_byte (d ∷ ds)
unfolding last_byte
tail_last c d ds = refl

is_valid_label-IsLabel : (l : Bytes) → is_valid_label l ≡ true → IsLabel l
unfolding is_valid_label
is_valid_label-IsLabel [] h = absurd (cc)
is_valid_label-IsLabel (c ∷ cs) h =
    let (short, ends) = passes (ltb 63 (length (c ∷ cs))) _ h in
    let (first, last, inner) =
      both_pass (is_alnum_or_u c) (is_alnum_or_u (last_byte (c ∷ cs))) _ ends in
    let (r, e) = last_byte-split c cs in
    record {
      bytes = (inl (is_alnum_or_u-IsAlnum c first), rest cs last inner);
      short = ground (arith, short);
      first = (c, cs, refl, is_alnum_or_u-IsAlnum c first);
      last = (last_byte (c ∷ cs), r, e, is_alnum_or_u-IsAlnum (last_byte (c ∷ cs)) last);
    }
  where
    rest :
        (cs : Bytes)
        → is_alnum_or_u (last_byte (c ∷ cs)) ≡ true
        → inner_valid cs ≡ true
        → All IsLabelByte cs
    rest [] l i = tt
    rest (d ∷ ds) l i = inner_valid-All (d ∷ ds) i (rw (tail_last c d ds) at l)

all_valid-All : (ls : List Bytes) → all_valid ls ≡ true → All IsLabel ls
unfolding all_valid
all_valid-All [] h = tt
all_valid-All (l ∷ ls) h =
    let (valid, rest) = passes (not (is_valid_label l)) (all_valid ls) h in
    (is_valid_label-IsLabel l (ground arith), all_valid-All ls rest)

add_byte-All :
    (c : ℕ) (ls : List Bytes) (P : ℕ → Type 0) → All (All P) (add_byte c ls) → P c × All (All P) ls
unfolding add_byte
add_byte-All c [] P ((h, t), u) = (h, tt)
add_byte-All c (l ∷ ls) P ((h, hs), rest) = (h, (hs, rest))

split_dots-All : (d : Bytes) → All (All IsNameByte) (split_dots d) → All IsNameByte d
unfolding split_dots
split_dots-All [] h = tt
split_dots-All (c ∷ cs) h = elim (Bool-cases (c == dot)) [
  | inl e ↦ let (empty, rest) = rw e at h in (inr (ground arith), split_dots-All cs rest)
  | inr n ↦
      let (head, rest) = add_byte-All c (split_dots cs) IsNameByte (rw n at h) in
      (head, split_dots-All cs rest)
]

label_bytes : (l : Bytes) → All IsLabelByte l → All IsNameByte l
label_bytes [] h = tt
label_bytes (c ∷ cs) (h, hs) = (inl h, label_bytes cs hs)

labels_only : (ls : List Bytes) → All IsLabel ls → All (All IsNameByte) ls
labels_only [] h = tt
labels_only (l ∷ ls) (h, hs) = (label_bytes l h.bytes, labels_only ls hs)

-- Whatever the parameters do, normalizeDomain answers the empty string or a name of dots and labels:
-- each label has one to 63 letters, digits, underscores and hyphens, and its first and its last byte
-- are no hyphen.
pub normalize_domain-IsName :
    (to_lower trim_space : Bytes → Bytes) (to_ascii : Bytes → Option Bytes) (domain : Bytes)
    → let d = normalize_domain to_lower trim_space to_ascii domain in
      (d ≡ []) ⊎ (All IsLabel (split_dots d) × All IsNameByte d)
unfolding normalize_domain
normalize_domain-IsName to_lower trim_space to_ascii domain =
    let d = trim_wildcard (to_lower (trim_space domain)) in
    let e = trim_dots d in
    elim (Bool-cases (contains_any d refused)) [
      | inl bad ↦ rw bad (inl refl)
      | inr good ↦ elim (Bool-cases (not (has_byte dot e) || ltb 253 (length e))) [
        | inl bad ↦ rw (good, bad) (inl refl)
        | inr fits ↦ elim (Option-cases (to_ascii e)) [
          | inl failed ↦ rw (good, fits, failed) (inl refl)
          | inr (a, ascii) ↦ elim (Bool-cases (all_valid (split_dots a))) [
            | inr invalid ↦ rw (good, fits, ascii, invalid) (inl refl)
            | inl valid ↦
                let labels = all_valid-All (split_dots a) valid in
                rw (good, fits, ascii, valid)
                  (inr (labels, split_dots-All a (labels_only _ labels)))
          ]
        ]
      ]
    ]
