-- ===== src/Tests/Domains.antt =====
-- Theorems of internal/parser/compiler.go at concrete names, and runs of CollapseDomains.
use mathlib.Core.List.{Memᴰ}
use next_path.Base.{true, false, List, [], ◌∷◌, ◌≡◌, ◌⊎◌, ◌↔◌, refl, arith, All}
use next_path.Domains.Collapsing.{Covered}
use next_path.Domains.Topmost.{IsTopmost, collapse_domains_iff}
use next_path.Domains.Zone.{Named, build_simple_rpz-Covered, build_simple_rpz-Named}
use next_path.Domains.{
  DomainRule, has_prefix, less_from, has_key, excepted, insert_domain, sort_domains, collapse_from,
  collapse_sorted, collapse_domains, build_simple_rpz,
}
use next_path.Net.{Bytes}

-- a.com, x.a.com and x-a.com.
abbrev parent : Bytes
parent = 97 ∷ 46 ∷ 99 ∷ 111 ∷ 109 ∷ []

abbrev child : Bytes
child = 120 ∷ 46 ∷ parent

abbrev hyphenated : Bytes
hyphenated = 120 ∷ 45 ∷ parent

collapses : collapse_domains (child ∷ parent ∷ []) ≡ parent ∷ []
unfolding collapse_domains collapse_sorted collapse_from sort_domains insert_domain less_from
    has_prefix
collapses = refl

-- A name with a hyphen sorts between the two, and the subdomain stays.
hyphen_between :
    collapse_domains (child ∷ hyphenated ∷ parent ∷ []) ≡ parent ∷ hyphenated ∷ child ∷ []
unfolding collapse_domains collapse_sorted collapse_from sort_domains insert_domain less_from
    has_prefix
hyphen_between = refl

-- b.com.
abbrev other : Bytes
other = 98 ∷ 46 ∷ 99 ∷ 111 ∷ 109 ∷ []

parent_kept : Memᴰ parent (collapse_domains (child ∷ other ∷ parent ∷ []))
unfolding collapse_domains collapse_sorted collapse_from sort_domains insert_domain less_from
    has_prefix
parent_kept = Memᴰ.head refl

other_kept : Memᴰ other (collapse_domains (child ∷ other ∷ parent ∷ []))
unfolding collapse_domains collapse_sorted collapse_from sort_domains insert_domain less_from
    has_prefix
other_kept = Memᴰ.tail (Memᴰ.head refl)

collapse_domains_iff_example :
    Memᴰ parent (collapse_domains (child ∷ other ∷ parent ∷ []))
    ↔ IsTopmost parent (child ∷ other ∷ parent ∷ [])
collapse_domains_iff_example =
    collapse_domains_iff (child ∷ other ∷ parent ∷ []) parent (omega arith)

abbrev rules : List DomainRule
rules = (record { domain = child; is_ex = true }) ∷ (record { domain = parent; is_ex = false }) ∷ []

build_simple_rpz-Covered_example :
    let r : DomainRule = record { domain = child; is_ex = true } in
    ((r.is_ex ≡ false)
      → Covered r.domain (build_simple_rpz rules).0 ⊎ Covered r.domain (excepted rules))
    × ((r.is_ex ≡ true) → Covered r.domain (build_simple_rpz rules).1)
build_simple_rpz-Covered_example =
    build_simple_rpz-Covered rules (record { domain = child; is_ex = true }) (Memᴰ.head refl)

build_simple_rpz-Named_example :
    All (λ d. (has_key d (excepted rules) ≡ false) × Named rules d) (build_simple_rpz rules).0
build_simple_rpz-Named_example = build_simple_rpz-Named rules
