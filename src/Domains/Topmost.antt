-- ===== src/Domains/Topmost.antt =====
-- CollapseDomains in internal/parser/compiler.go keeps exactly the topmost names.
use mathlib.Core.List.{Memᴰ, reverse-cons}
use next_path.Base.{
  true, false, List, [], ◌∷◌, ◌++◌, ◌≡◌, ◌↔◌, inl, inr, refl, arith, All, Bool-cases, reverse,
}
use next_path.Domains.Collapsing.{Under, High, collapse_domains-Covered, All-collapse_domains}
use next_path.Domains.Minimal.{All-at, collapse_domains-apart}
use next_path.Domains.{dot, has_prefix, has_suffix, collapse_domains}
use next_path.Net.{Bytes}

has_prefix-append :
    (s t u : Bytes) → has_prefix s t ≡ true → has_prefix t u ≡ true → has_prefix s u ≡ true
unfolding has_prefix
has_prefix-append s t [] h k = refl
has_prefix-append s [] (z ∷ u) h k = absurd (cc)
has_prefix-append [] (y ∷ t) (z ∷ u) h k = absurd (cc)
has_prefix-append (x ∷ s) (y ∷ t) (z ∷ u) h k = ground (arith, has_prefix-append s t u)

pub has_prefix_longer : (t r u : Bytes) → has_prefix t u ≡ true → has_prefix (t ++ r) u ≡ true
unfolding has_prefix
has_prefix_longer t r [] h = refl
has_prefix_longer [] r (z ∷ u) h = absurd (cc)
has_prefix_longer (y ∷ t) r (z ∷ u) h = ground (arith, has_prefix_longer t r u)

-- A subdomain of a subdomain is one.
Under-trans : (d e k : Bytes) → Under d e → Under e k → Under d k
Under-trans d e k h g =
    let long = has_prefix_longer (reverse e) (dot ∷ []) (reverse (dot ∷ k)) g in
    has_prefix-append (reverse d) (reverse (dot ∷ e)) (reverse (dot ∷ k)) h
      (rw (reverse-cons dot e) long)

All-members : (ds es : List Bytes) → ((x : Bytes) → Memᴰ x es → Memᴰ x ds) → All (λ x. Memᴰ x ds) es
All-members ds [] sub = tt
All-members ds (e ∷ es) sub =
    (sub e (Memᴰ.head refl), All-members ds es (λ x m. sub x (Memᴰ.tail m)))

-- One of the names, and a subdomain of none of them.
abbrev pub IsTopmost : Bytes → List Bytes → Type 0
IsTopmost d ds = Memᴰ d ds × ((e : Bytes) → Memᴰ e ds → has_suffix d (dot ∷ e) ≡ false)

collapse_domains-Member : (ds : List Bytes) (d : Bytes) → Memᴰ d (collapse_domains ds) → Memᴰ d ds
collapse_domains-Member ds d m =
    All-at (λ x. Memᴰ x ds) d (collapse_domains ds)
      (All-collapse_domains (λ x. Memᴰ x ds) ds (All-members ds ds (λ x m. m))) m

-- Of names without a byte below the dot, CollapseDomains keeps exactly those that are subdomains of
-- none of the others.
pub collapse_domains_iff :
    (ds : List Bytes) (d : Bytes) → All High ds → Memᴰ d (collapse_domains ds) ↔ IsTopmost d ds
collapse_domains_iff ds d high = (
  λ m. (
    collapse_domains-Member ds d m,
    λ e there. elim (collapse_domains-Covered e ds there) [
      | inl kept ↦ collapse_domains-apart ds e d high kept m
      | inr (k, kept, under) ↦ elim (Bool-cases (has_suffix d (dot ∷ e))) [
        | inr apart ↦ apart
        | inl below ↦
            let up = Under-trans d e k below under in
            let apart = collapse_domains-apart ds k d high kept m in absurd (cc)
      ]
    ],
  ),
  λ (m, top). elim (collapse_domains-Covered d ds m) [
    | inl kept ↦ kept
    | inr (k, kept, under) ↦ let apart = top k (collapse_domains-Member ds k kept) in absurd (cc)
  ],
)
