-- ===== src/Tests/Names.antt =====
-- Theorems on the names of internal/parser/compiler.go at concrete names.
use next_path.Base.{[], ◌∷◌, some, ◌≡◌, ◌⊎◌, refl, All, drop}
use next_path.Domains.{has_prefix}
use next_path.Names.Safety.{IsLabel, IsNameByte, normalize_domain-IsName}
use next_path.Names.Stripping.{Strips, strip_prefix-label}
use next_path.Names.{
  normalize_domain, strip_prefix, split_dots, count_dots, is_stripped, trim_wildcard, trim_dots,
  trim_left_dots, contains_any, has_byte, all_valid, is_valid_label, inner_valid, is_alnum_or_u,
  last_byte, add_byte, first_dot, is_numbered_prefix, is_pure_digits, is_pure_digits_from,
}
use next_path.Net.{Bytes}

-- `*.a.com` and `www.a.com`.
abbrev wildcard : Bytes
wildcard = 42 ∷ 46 ∷ 97 ∷ 46 ∷ 99 ∷ 111 ∷ 109 ∷ []

abbrev www_name : Bytes
www_name = 119 ∷ 119 ∷ 119 ∷ 46 ∷ 97 ∷ 46 ∷ 99 ∷ 111 ∷ 109 ∷ []

normalizes : normalize_domain (λ d. d) (λ d. d) some wildcard ≡ drop 2 wildcard
unfolding normalize_domain trim_wildcard trim_dots trim_left_dots contains_any has_byte all_valid
    is_valid_label inner_valid is_alnum_or_u last_byte split_dots add_byte has_prefix
normalizes = refl

normalize_domain-IsName_example :
    let d = normalize_domain (λ x. x) (λ x. x) some wildcard in
    (d ≡ []) ⊎ (All IsLabel (split_dots d) × All IsNameByte d)
normalize_domain-IsName_example = normalize_domain-IsName (λ x. x) (λ x. x) some wildcard

strips : strip_prefix (λ d. d) www_name ≡ drop 4 www_name
unfolding strip_prefix is_stripped is_numbered_prefix is_pure_digits is_pure_digits_from count_dots
    first_dot has_prefix
strips = refl

strip_prefix-label_example :
    let s = strip_prefix (λ x. x) www_name in
    Strips www_name s ⊎ ((s ≡ www_name) × ((t : Bytes) → ¬ Strips www_name t))
strip_prefix-label_example = strip_prefix-label (λ x. x) www_name refl
