-- ===== src/Domains/Minimal.antt =====
-- CollapseDomains in internal/parser/compiler.go keeps no subdomain of a name that it keeps, where no
-- byte is below the dot.
use mathlib.Core.List.Memᴰ
use mathlib.Core.List.{Memᴰ, reverse-cons, reverse-reverse}
use next_path.Base.{
  true, false, List, [], ◌∷◌, ◌++◌, ◌≡◌, inl, inr, refl, sym, ap, ◌∙◌, arith, All, Bool-cases,
  reverse,
}
use next_path.Domains.Collapsing.{High, High-reverse, between, All-collapse_from}
use next_path.Domains.Order.{Sorted, sort_domains-Sorted, All-sort_domains}
use next_path.Domains.{
  dot, has_prefix, has_suffix, less_from, less, sort_domains, collapse_from, collapse_sorted,
  collapse_domains,
}
use next_path.Net.{Bytes}

-- Not before the name, and no subdomain of it.
abbrev Clear : Bytes → Bytes → Type 0
Clear d y = (less y d ≡ false) × (has_suffix y (dot ∷ d) ≡ false)

reverse-injective : (a b : Bytes) → reverse a ≡ reverse b → a ≡ b
reverse-injective a b h = sym (reverse-reverse a) ∙ ap reverse h ∙ reverse-reverse b

Clear-step :
    (kept d y : Bytes) → High d → Clear kept d → Clear d y → less y kept ≡ false → Clear kept y
Clear-step kept d y high (after, apart) (later, clear) above = (
  above,
  elim (Bool-cases (has_suffix y (dot ∷ kept))) [
    | inr no_suffix ↦ no_suffix
    | inl suffix ↦
        let same =
          between (reverse kept) (reverse d) (reverse y) after later (High-reverse d high)
            (rw (reverse-cons dot kept) at apart) (rw (reverse-cons dot kept) at suffix) in
        absurd (cc (reverse-cons dot kept, reverse-cons dot d))
  ],
)

-- Each name is clear of those before it.
abbrev Cleared : List Bytes → Type 0
Cleared [] = Unit
Cleared (d ∷ ds) = All (Clear d) ds × Cleared ds

All-Clear-step :
    (kept d : Bytes) (ds : List Bytes)
    → High d
    → Clear kept d
    → All (λ y. less y kept ≡ false) ds
    → All (Clear d) ds
    → All (Clear kept) ds
All-Clear-step kept d [] high c above h = tt
All-Clear-step kept d (y ∷ ys) high c (a, rest) (h, hs) =
    (Clear-step kept d y high c h a, All-Clear-step kept d ys high c rest hs)

collapse_from-Cleared :
    (kept : Bytes) (ds : List Bytes)
    → All (λ y. less y kept ≡ false) ds
    → Sorted ds
    → All High ds
    → All (Clear kept) (collapse_from kept ds) × Cleared (collapse_from kept ds)
unfolding collapse_from
collapse_from-Cleared kept [] above sorted high = (tt, tt)
collapse_from-Cleared kept (d ∷ ds) (a, ks) (s, ss) (h, hs) =
    elim (Bool-cases (has_suffix d (dot ∷ kept))) [
      | inl under ↦ rw under (collapse_from-Cleared kept ds ks ss hs)
      | inr apart ↦
          let (clear, rest) = collapse_from-Cleared d ds s ss hs in
          let above = All-collapse_from (λ y. less y kept ≡ false) d ds ks in
          rw apart (
            ((a, apart), All-Clear-step kept d (collapse_from d ds) h (a, apart) above clear),
            (clear, rest),
          )
    ]

collapse_sorted-Cleared : (ds : List Bytes) → Sorted ds → All High ds → Cleared (collapse_sorted ds)
unfolding collapse_sorted
collapse_sorted-Cleared [] s h = tt
collapse_sorted-Cleared (d ∷ ds) (s, ss) (h, hs) = collapse_from-Cleared d ds s ss hs

-- A subdomain stands after its parent, and a name is none of its own.
prefix_before : (c y : Bytes) → has_prefix y (c ++ dot ∷ []) ≡ true → less_from c y ≡ true
unfolding less_from has_prefix
prefix_before [] [] h = absurd (cc)
prefix_before [] (z ∷ y) h = refl
prefix_before (x ∷ c) [] h = absurd (cc)
prefix_before (x ∷ c) (z ∷ y) h = ground (arith, prefix_before c y)

no_own_prefix : (c : Bytes) → has_prefix c (c ++ dot ∷ []) ≡ false
unfolding has_prefix
no_own_prefix [] = refl
no_own_prefix (x ∷ c) = ground (arith, no_own_prefix c)

-- A name is no subdomain of one that does not stand before it.
no_suffix_before : (d x : Bytes) → less x d ≡ false → has_suffix d (dot ∷ x) ≡ false
no_suffix_before d x h = elim (Bool-cases (has_suffix d (dot ∷ x))) [
  | inr no_suffix ↦ no_suffix
  | inl suffix ↦
      let before = prefix_before (reverse x) (reverse d) (rw (reverse-cons dot x) at suffix) in
      absurd (cc)
]

pub All-at : (P : Bytes → Type 0) (x : Bytes) (ds : List Bytes) → All P ds → Memᴰ x ds → P x
All-at P x [] h m = absurd (Memᴰ.not-nil m)
All-at P x (d ∷ ds) (h, hs) m = elim (Memᴰ.cases_cons m) [
  | inl s ↦ rw s h
  | inr m' ↦ All-at P x ds hs m'
]

Cleared-apart :
    (ds : List Bytes) (x y : Bytes)
    → Cleared ds
    → Memᴰ x ds
    → Memᴰ y ds
    → has_suffix y (dot ∷ x) ≡ false
Cleared-apart [] x y h m n = absurd (Memᴰ.not-nil m)
Cleared-apart (d ∷ ds) x y (h, hs) m n = elim (Memᴰ.cases_cons m) [
  | inl s ↦ elim (Memᴰ.cases_cons n) [
    | inl t ↦ rw (s, t, reverse-cons dot d) (no_own_prefix (reverse d))
    | inr n' ↦ rw s (All-at (Clear d) y ds h n').1
  ]
  | inr m' ↦ elim (Memᴰ.cases_cons n) [
    | inl t ↦ rw t (no_suffix_before d x (All-at (Clear d) x ds h m').0)
    | inr n' ↦ Cleared-apart ds x y hs m' n'
  ]
]

-- CollapseDomains keeps no subdomain of a name that it keeps, if no byte of the names is below the
-- dot.
pub collapse_domains-apart :
    (ds : List Bytes) (x y : Bytes)
    → All High ds
    → Memᴰ x (collapse_domains ds)
    → Memᴰ y (collapse_domains ds)
    → has_suffix y (dot ∷ x) ≡ false
unfolding collapse_domains
collapse_domains-apart ds x y high m n =
    Cleared-apart (collapse_sorted (sort_domains ds)) x y
      (collapse_sorted-Cleared (sort_domains ds) (sort_domains-Sorted ds)
        (All-sort_domains High ds high))
      m n
