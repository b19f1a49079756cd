-- ===== src/Text.antt =====
-- What the program uses of Go's strings and strconv packages, on the bytes of ASCII arguments.
use Prim.Native.Char.{code}
use Prim.Native.String.{String}
use next_path.Base.{
  ℕ, ◌+◌, ◌-◌, ◌*◌, ◌^◌, Bool, true, false, [], ◌∷◌, Option, none, some, ltb, if◌then◌else◌, length,
  ◌==◌, reverse, drop,
}
use next_path.Domains.{has_prefix}
use next_path.Names.{between, has_byte}
use next_path.Net.{Bytes}

-- The code points of a literal, which are its bytes if it is ASCII.
abbrev pub codes : String → Bytes
codes String.[] = []
codes (String.◌∷◌ c s) = code c ∷ codes s

abbrev pub is_empty : Bytes → Bool
is_empty [] = true
is_empty (c ∷ cs) = false

-- `strings.Trim(s, cutset)`.
unfoldable pub trim_left : Bytes → Bytes → Bytes
trim_left cutset [] = []
trim_left cutset (c ∷ cs) =
    let rest = trim_left cutset cs in if has_byte c cutset then rest else c ∷ cs

unfoldable pub trim : Bytes → Bytes → Bytes
trim cutset s = reverse (trim_left cutset (reverse (trim_left cutset s)))

-- `strings.TrimPrefix(s, prefix)`.
unfoldable pub trim_prefix : Bytes → Bytes → Bytes
trim_prefix s prefix = if has_prefix s prefix then drop (length prefix) s else s

-- `strings.Contains(s, sub)`.
unfoldable pub contains_text : Bytes → Bytes → Bool
contains_text [] sub = has_prefix [] sub
contains_text (c ∷ cs) sub =
    let rest = contains_text cs sub in if has_prefix (c ∷ cs) sub then true else rest

-- `s[:i]` at the first byte of a set, as `strings.IndexAny` and `strings.IndexByte` find it; the
-- whole of `s` where there is none.
unfoldable pub before_any : Bytes → Bytes → Bytes
before_any chars [] = []
before_any chars (c ∷ cs) =
    let rest = before_any chars cs in if has_byte c chars then [] else c ∷ rest

-- `strconv.ParseUint(s, 10, 32)`; an error is `none`.
unfoldable pub parse_digits : ℕ → Bytes → Option ℕ
parse_digits n [] = some n
parse_digits n (c ∷ cs) =
    let rest = parse_digits (n * 10 + (c - 48)) cs in if between 48 57 c then rest else none

unfoldable pub parse_uint : Bytes → Option ℕ
parse_uint [] = none
parse_uint (c ∷ cs) = elim (parse_digits 0 (c ∷ cs)) [
  | none ↦ none
  | some n ↦ if ltb n (2 ^ 32) then some n else none
]

-- `strings.TrimSpace` of ASCII text.
abbrev pub blanks : Bytes
blanks = 9 ∷ 10 ∷ 11 ∷ 12 ∷ 13 ∷ 32 ∷ []

unfoldable pub trim_space : Bytes → Bytes
trim_space s = trim blanks s

-- `strings.SplitN(s, "\n", 2)`; one part alone is `none`.
unfoldable pub split_line : Bytes → Option (Bytes × Bytes)
split_line [] = none
split_line (c ∷ cs) =
    let rest : Option (Bytes × Bytes) = elim (split_line cs) [
      | none ↦ none
      | some (first, second) ↦ some (c ∷ first, second)
    ] in
    if c == 10 then some ([], cs) else rest
