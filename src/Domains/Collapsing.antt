-- ===== src/Domains/Collapsing.antt =====
-- CollapseDomains in internal/parser/compiler.go.
use mathlib.Core.List.Memᴰ
use mathlib.Core.List.{Memᴰ, reverse-cons}
use next_path.Base.{
  ◌≤◌, true, false, List, [], ◌∷◌, ◌++◌, ◌≡◌, ◌⊎◌, inl, inr, refl, arith, All, All-append,
  Bool-cases, reverse,
}
use next_path.Domains.Order.{sort_domains-Member, All-sort_domains}
use next_path.Domains.{
  dot, has_prefix, has_suffix, less_from, sort_domains, collapse_from, collapse_sorted,
  collapse_domains,
}
use next_path.Net.{Bytes}

-- The name is a subdomain of the other.
abbrev pub Under : Bytes → Bytes → Type 0
Under d e = has_suffix d (dot ∷ e) ≡ true

-- The name is kept, or a subdomain of a name that is kept.
abbrev pub Covered : Bytes → List Bytes → Type 0
Covered d kept = Memᴰ d kept ⊎ ((e : Bytes) × Memᴰ e kept × Under d e)

Covered-tail : (d e : Bytes) (es : List Bytes) → Covered d es → Covered d (e ∷ es)
Covered-tail d e es (inl m) = inl (Memᴰ.tail m)
Covered-tail d e es (inr (k, m, u)) = inr (k, Memᴰ.tail m, u)

collapse_from-Covered :
    (kept d : Bytes) (ds : List Bytes) → Memᴰ d ds → Covered d (kept ∷ collapse_from kept ds)
unfolding collapse_from
collapse_from-Covered kept d [] m = absurd (Memᴰ.not-nil m)
collapse_from-Covered kept d (e ∷ es) m = elim (Bool-cases (has_suffix e (dot ∷ kept))) [
  | inl under ↦ rw under (elim (Memᴰ.cases_cons m) [
    | inl s ↦ inr (kept, Memᴰ.head refl, rw s under)
    | inr m' ↦ collapse_from-Covered kept d es m'
  ])
  | inr apart ↦ rw apart (elim (Memᴰ.cases_cons m) [
    | inl s ↦ inl (Memᴰ.tail (Memᴰ.head s))
    | inr m' ↦ Covered-tail d kept _ (collapse_from-Covered e d es m')
  ])
]

collapse_sorted-Covered : (d : Bytes) (ds : List Bytes) → Memᴰ d ds → Covered d (collapse_sorted ds)
unfolding collapse_sorted
collapse_sorted-Covered d [] m = absurd (Memᴰ.not-nil m)
collapse_sorted-Covered d (e ∷ es) m = elim (Memᴰ.cases_cons m) [
  | inl s ↦ inl (Memᴰ.head s)
  | inr m' ↦ collapse_from-Covered e d es m'
]

-- CollapseDomains keeps every name or a name that it is a subdomain of.
pub collapse_domains-Covered :
    (d : Bytes) (ds : List Bytes) → Memᴰ d ds → Covered d (collapse_domains ds)
unfolding collapse_domains
collapse_domains-Covered d ds m =
    collapse_sorted-Covered d (sort_domains ds) (sort_domains-Member ds d m)

pub All-collapse_from :
    (P : Bytes → Type 0) (kept : Bytes) (ds : List Bytes) → All P ds → All P (collapse_from kept ds)
unfolding collapse_from
All-collapse_from P kept [] h = tt
All-collapse_from P kept (e ∷ es) (h, hs) = elim (Bool-cases (has_suffix e (dot ∷ kept))) [
  | inl under ↦ rw under (All-collapse_from P kept es hs)
  | inr apart ↦ rw apart (h, All-collapse_from P e es hs)
]

All-collapse_sorted : (P : Bytes → Type 0) (ds : List Bytes) → All P ds → All P (collapse_sorted ds)
unfolding collapse_sorted
All-collapse_sorted P [] h = tt
All-collapse_sorted P (d ∷ ds) (h, hs) = (h, All-collapse_from P d ds hs)

-- What holds of every name that CollapseDomains is given holds of every name that it keeps.
pub All-collapse_domains :
    (P : Bytes → Type 0) (ds : List Bytes) → All P ds → All P (collapse_domains ds)
unfolding collapse_domains
All-collapse_domains P ds h = All-collapse_sorted P (sort_domains ds) (All-sort_domains P ds h)

-- No byte of the name is below the dot. A hyphen is.
abbrev pub High : Bytes → Type 0
High d = All (λ b. dot ≤ b) d

pub High-reverse : (d : Bytes) → High d → High (reverse d)
High-reverse [] h = tt
High-reverse (b ∷ d) (h, hs) =
    rw (reverse-cons b d)
      (All-append (λ b. dot ≤ b) (reverse d) (b ∷ []) (High-reverse d hs) (h, tt))

-- On names read from their ends: between a name and its subdomains stand only such.
pub between :
    (c d y : Bytes)
    → less_from d c ≡ false
    → less_from y d ≡ false
    → High d
    → has_prefix d (c ++ dot ∷ []) ≡ false
    → has_prefix y (c ++ dot ∷ []) ≡ true
    → d ≡ c
unfolding less_from has_prefix
between [] [] y h₁ h₂ v p q = refl
between [] (b ∷ d) [] h₁ h₂ v p q = absurd (cc)
between [] (b ∷ d) (z ∷ y) h₁ h₂ (v, vs) p q = absurd (ground arith)
between (x ∷ c) [] y h₁ h₂ v p q = absurd (cc)
between (x ∷ c) (b ∷ d) [] h₁ h₂ v p q = absurd (cc)
between (x ∷ c) (b ∷ d) (z ∷ y) h₁ h₂ (v, vs) p q = ground (arith, between c d y)
