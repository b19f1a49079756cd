-- ===== src/Names.antt =====
-- normalizeDomain, isValidLabel, isAlnumOrU, stripPrefix, isNumberedPrefix and isPureDigits in
-- internal/parser/compiler.go. The library functions on Unicode tables, strings.ToLower and
-- strings.TrimSpace, and idna.ToASCII, where an error is `none`, are parameters.
pub mod Safety
pub mod Prefixes
pub mod Stripping
use next_path.Base.{
  ℕ, zero, suc, ◌+◌, ◌-◌, Bool, true, false, not, ◌&&◌, ◌||◌, List, [], ◌∷◌, ◌++◌, Option, none,
  some, ◌==◌, ltb, leb, if◌then◌else◌, length, reverse, take, drop,
}
use next_path.Domains.{dot, has_prefix}
use next_path.Net.{Bytes}

abbrev pub between : ℕ → ℕ → ℕ → Bool
between lo hi c = leb lo c && leb c hi

unfoldable pub is_alnum_or_u : ℕ → Bool
is_alnum_or_u c = between 97 122 c || between 65 90 c || between 48 57 c || c == 95

-- `'-'`.
abbrev pub hyphen : ℕ
hyphen = 45

-- `label[l-1]`.
unfoldable pub last_byte : Bytes → ℕ
last_byte [] = 0
last_byte (c ∷ []) = c
last_byte (c ∷ d ∷ ds) = last_byte (d ∷ ds)

-- The loop of `isValidLabel` on the bytes after the first: the last one is not its own.
unfoldable pub inner_valid : Bytes → Bool
inner_valid [] = true
inner_valid (c ∷ []) = true
inner_valid (c ∷ d ∷ ds) =
    let rest = inner_valid (d ∷ ds) in
    if not (is_alnum_or_u c) && not (c == hyphen) then false else rest

unfoldable pub is_valid_label : Bytes → Bool
is_valid_label [] = false
is_valid_label (c ∷ cs) =
    if ltb 63 (length (c ∷ cs))
    then false
    else if not (is_alnum_or_u c) || not (is_alnum_or_u (last_byte (c ∷ cs)))
    then false
    else inner_valid cs

-- `strings.Split(d, ".")`.
unfoldable pub add_byte : ℕ → List Bytes → List Bytes
add_byte c [] = (c ∷ []) ∷ []
add_byte c (l ∷ ls) = (c ∷ l) ∷ ls

unfoldable pub split_dots : Bytes → List Bytes
split_dots [] = [] ∷ []
split_dots (c ∷ cs) = let rest = split_dots cs in if c == dot then [] ∷ rest else add_byte c rest

unfoldable pub has_byte : ℕ → Bytes → Bool
has_byte c [] = false
has_byte c (d ∷ ds) = if c == d then true else has_byte c ds

-- `strings.ContainsAny(d, chars)` for ASCII characters.
unfoldable pub contains_any : Bytes → Bytes → Bool
contains_any [] chars = false
contains_any (c ∷ d) chars =
    let rest = contains_any d chars in if has_byte c chars then true else rest

-- `[]~:/?#\@!$&'()*+,;=`.
abbrev pub refused : Bytes
refused =
    91 ∷ 93 ∷ 126 ∷ 58 ∷ 47 ∷ 63 ∷ 35 ∷ 92 ∷ 64 ∷ 33 ∷ 36 ∷ 38 ∷ 39 ∷ 40 ∷ 41 ∷ 42 ∷ 43 ∷ 44 ∷ 59
    ∷ 61 ∷ []

-- `strings.Trim(d, ".")`.
unfoldable pub trim_left_dots : Bytes → Bytes
trim_left_dots [] = []
trim_left_dots (c ∷ cs) = let rest = trim_left_dots cs in if c == dot then rest else c ∷ cs

unfoldable pub trim_dots : Bytes → Bytes
trim_dots d = reverse (trim_left_dots (reverse (trim_left_dots d)))

-- `strings.TrimPrefix(d, "*.")`.
unfoldable pub trim_wildcard : Bytes → Bytes
trim_wildcard d = if has_prefix d (42 ∷ 46 ∷ []) then drop 2 d else d

unfoldable pub all_valid : List Bytes → Bool
all_valid [] = true
all_valid (l ∷ ls) = let rest = all_valid ls in if not (is_valid_label l) then false else rest

module _ (to_lower trim_space : Bytes → Bytes) (to_ascii : Bytes → Option Bytes) where
  -- The name, or the empty string where it is refused.
  unfoldable pub normalize_domain : Bytes → Bytes
  normalize_domain domain =
      let d = trim_wildcard (to_lower (trim_space domain)) in
      let e = trim_dots d in
      if contains_any d refused
      then []
      else if not (has_byte dot e) || ltb 253 (length e)
      then []
      else elim (to_ascii e) [ none ↦ [] | some a ↦ if all_valid (split_dots a) then a else [] ]

unfoldable pub is_pure_digits_from : Bytes → Bool
is_pure_digits_from [] = true
is_pure_digits_from (c ∷ cs) =
    let rest = is_pure_digits_from cs in if between 48 57 c then rest else false

unfoldable pub is_pure_digits : Bytes → Bool
is_pure_digits [] = false
is_pure_digits (c ∷ cs) = is_pure_digits_from (c ∷ cs)

unfoldable pub is_numbered_prefix : Bytes → Bytes → Bool
is_numbered_prefix s base =
    if not (has_prefix s base) then false else is_pure_digits_from (drop (length base) s)

-- `strings.Count(d, ".")`.
unfoldable pub count_dots : Bytes → ℕ
count_dots [] = 0
count_dots (c ∷ cs) = let rest = count_dots cs in if c == dot then suc rest else rest

-- `strings.IndexByte(d, '.')`; the length where there is none.
unfoldable pub first_dot : Bytes → ℕ
first_dot [] = 0
first_dot (c ∷ cs) = let rest = first_dot cs in if c == dot then 0 else suc rest

-- `www`, `m`, `hd`, `cdn`, each with a number or none, and a number alone.
unfoldable pub is_stripped : Bytes → Bool
is_stripped prefix =
    is_numbered_prefix prefix (119 ∷ 119 ∷ 119 ∷ [])
    || is_numbered_prefix prefix (109 ∷ [])
    || is_numbered_prefix prefix (104 ∷ 100 ∷ [])
    || is_numbered_prefix prefix (99 ∷ 100 ∷ 110 ∷ [])
    || is_pure_digits prefix

-- A name of two dots or more; with a dot, the first one has an index.
unfoldable pub strip_prefix : (Bytes → Bytes) → Bytes → Bytes
strip_prefix to_lower d =
    let low = to_lower d in
    let k = first_dot low in
    if ltb (count_dots d) 2 || k == 0
    then d
    else if is_stripped (take k low)
    then drop (suc k) d
    else d
