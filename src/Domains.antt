-- ===== src/Domains.antt =====
-- Domain names in internal/parser/compiler.go: CollapseDomains and
-- buildSimpleRPZ. A string is its bytes, and a Go map of strings to empty structs the list of its
-- keys in the order of one iteration.
pub mod Order
pub mod Collapsing
pub mod Minimal
pub mod Zone
pub mod Topmost
use next_path.Base.{
  ℕ, zero, suc, ◌+◌, ◌-◌, Bool, true, false, not, ◌&&◌, ◌||◌, List, [], ◌∷◌, ◌++◌, ite, Option,
  none, some, ◌==◌, ltb, leb, if◌then◌else◌, length, reverse,
}
use next_path.Net.{Bytes, Bytes-discrete}

-- `'.'`.
abbrev pub dot : ℕ
dot = 46

-- `strings.HasPrefix(s, t)`.
unfoldable pub has_prefix : Bytes → Bytes → Bool
has_prefix s [] = true
has_prefix [] (y ∷ t) = false
has_prefix (x ∷ s) (y ∷ t) = x == y && has_prefix s t

-- `strings.HasSuffix(s, t)`.
abbrev pub has_suffix : Bytes → Bytes → Bool
has_suffix s t = has_prefix (reverse s) (reverse t)

-- The loop of `domainSorter.Less` on what is left of two names, read from their ends.
unfoldable pub less_from : Bytes → Bytes → Bool
less_from [] [] = false
less_from [] (y ∷ b) = true
less_from (x ∷ a) [] = false
less_from (x ∷ a) (y ∷ b) = if x == y then less_from a b else ltb x y

abbrev pub less : Bytes → Bytes → Bool
less a b = less_from (reverse a) (reverse b)

-- `sort.Sort(domainSorter(domains))`. Names that neither is less than the other are equal, so that
-- every sorting gives this list.
unfoldable pub insert_domain : Bytes → List Bytes → List Bytes
insert_domain d [] = d ∷ []
insert_domain d (e ∷ es) =
    let rest = insert_domain d es in if less e d then e ∷ rest else d ∷ e ∷ es

unfoldable pub sort_domains : List Bytes → List Bytes
unfolding insert_domain
sort_domains [] = []
sort_domains (d ∷ ds) = insert_domain d (sort_domains ds)

-- The loop of `CollapseDomains` after its first round: `kept` is the last name kept.
unfoldable pub collapse_from : Bytes → List Bytes → List Bytes
collapse_from kept [] = []
collapse_from kept (d ∷ ds) =
    let same = collapse_from kept ds in
    let next = collapse_from d ds in if has_suffix d (dot ∷ kept) then same else d ∷ next

unfoldable pub collapse_sorted : List Bytes → List Bytes
unfolding collapse_from
collapse_sorted [] = []
collapse_sorted (d ∷ ds) = d ∷ collapse_from d ds

unfoldable pub collapse_domains : List Bytes → List Bytes
collapse_domains ds = collapse_sorted (sort_domains ds)

pub record DomainRule : Type 0 where
  pub domain : Bytes
  pub is_ex : Bool

-- A key of a map.
unfoldable pub has_key : Bytes → List Bytes → Bool
has_key d [] = false
has_key d (e ∷ es) = ite (Bytes-discrete d e) true (has_key d es)

unfoldable pub add_key : Bytes → List Bytes → List Bytes
add_key d ds = if has_key d ds then ds else d ∷ ds

-- `inc` and `excMap` of `buildSimpleRPZ`.
unfoldable pub included : List DomainRule → List Bytes
included [] = []
included (r ∷ rs) = if r.is_ex then included rs else add_key r.domain (included rs)

unfoldable pub excepted : List DomainRule → List Bytes
excepted [] = []
excepted (r ∷ rs) = if r.is_ex then add_key r.domain (excepted rs) else excepted rs

-- The names that are no exception.
unfoldable pub without : List Bytes → List Bytes → List Bytes
without exc [] = []
without exc (d ∷ ds) = let rest = without exc ds in if has_key d exc then rest else d ∷ rest

unfoldable pub build_simple_rpz : List DomainRule → List Bytes × List Bytes
build_simple_rpz rules =
    let exc = excepted rules in
    (without exc (collapse_domains (included rules ++ exc)), collapse_domains exc)
