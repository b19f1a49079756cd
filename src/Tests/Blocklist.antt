-- ===== src/Tests/Blocklist.antt =====
-- Theorems on the lists of internal/parser/compiler.go at concrete lists. Names are read as they
-- stand, fields are whole lines, and no name is a casino's.
use next_path.Base.{
  inr, inl, dec_lt, ℕ, ◌≤◌, ◌<◌, true, false, not, ◌&&◌, ◌||◌, [], ◌∷◌, ◌++◌, Option, none, some,
  ◌≡◌, refl, arith, All,
}
use next_path.Blocklist.Addresses.{Prefixes, aggregate_prefixes}
use next_path.Blocklist.Aggregating.{Widens, Aggregated, aggregate_prefixes-Aggregated}
use next_path.Blocklist.Cosmetic.{read_line-cosmetic}
use next_path.Blocklist.Exceptions.{
  NoRule, NoException, StripsTo, adblock_zone-Named, proxy_zone-StripsTo,
}
use next_path.Blocklist.Lines.{
  Library, Flags, no_lists, normal, parse_adblock_line, adblock_rule, read_marks, cut_domain,
  read_line, flags_of,
}
use next_path.Blocklist.Rules.{IsName, parse_adblock_line-IsName}
use next_path.Blocklist.Zones.{adblock_zone, proxy_zone}
use next_path.Domains.{DomainRule, has_prefix}
use next_path.Domains.Zone.{Named}
use next_path.Names.Safety.{IsNameByte}
use next_path.Names.{
  has_byte, normalize_domain, split_dots, contains_any, all_valid, is_valid_label, inner_valid,
  is_alnum_or_u, last_byte, add_byte, trim_wildcard, trim_dots, trim_left_dots,
}
use next_path.Net.{Bytes}
use next_path.Text.{is_empty, contains_text, before_any}

-- Prefixes of one family, of which only the length counts; joining leaves them as they are.
abbrev Len : Type 0
Len = (n : ℕ) × (n ≤ 128)

abbrev cut : Len → ℕ → Option Len
cut n b = elim (dec_lt b n.0) [ yes h ↦ some (b, omega (arith, n.1)) | no h ↦ none ]

abbrev lengths : Prefixes
lengths = record {
  Prefix = Len;
  bits = λ n. n.0;
  is6 = λ n. false;
  sub_nets = λ inc exc. inc;
  super = cut;
  parse_prefix = λ s. none;
}

lengths-Widens : Widens lengths
unfolding dec_lt
lengths-Widens = record {
  collapses = λ m nets h. h;
  supers = λ n b h. widened n b h;
  bounded = λ n. n.1;
}
  where
    widened : (n : Len) (b : ℕ) → b < n.0 → (p : Len) × (cut n b ≡ some p) × (p.0 ≡ b)
    widened n b h =
        elim (dec_lt b n.0)
          as (λ d.
            (p : Len) × (elim d [ yes h ↦ some (b, omega (arith, n.1)) | no h ↦ none ] ≡ some p)
            × (p.0 ≡ b)) [
              | yes below ↦ ((b, omega (arith, n.1)), refl, refl)
              | no not_below ↦ absurd (not_below h)
            ]

-- 192.0.2.0/24 and two of its halves' halves, to be joined to two prefixes.
aggregate_prefixes-Aggregated_example : Aggregated lengths lengths-Widens 2 false (
    aggregate_prefixes lengths
      ((24, omega arith) ∷ (26, omega arith) ∷ (26, omega arith) ∷ [])
      2
      false)
aggregate_prefixes-Aggregated_example =
    aggregate_prefixes-Aggregated lengths lengths-Widens
      ((24, omega arith) ∷ (26, omega arith) ∷ (26, omega arith) ∷ []) 2 false (omega arith)

abbrev library : Library
library = record {
  to_lower = λ d. d;
  trim_space = λ d. d;
  to_ascii = some;
  fields = λ d. d ∷ [];
  parses_addr = λ d. false;
  is_casino = λ d. false;
}

abbrev adblock : Flags
adblock = flags_of [] true

-- `a.com` and `||a.com^`.
abbrev a_com : Bytes
a_com = 97 ∷ 46 ∷ 99 ∷ 111 ∷ 109 ∷ []

abbrev blocks_a_com : Bytes
blocks_a_com = 124 ∷ 124 ∷ a_com ++ 94 ∷ []

abbrev rule : DomainRule
rule = record { domain = a_com; is_ex = false }

parses : parse_adblock_line library blocks_a_com true ≡ some rule
unfolding parse_adblock_line adblock_rule read_marks cut_domain has_prefix has_byte before_any
    contains_text normalize_domain contains_any all_valid is_valid_label inner_valid is_alnum_or_u
    last_byte split_dots add_byte trim_wildcard trim_dots trim_left_dots
parses = refl

parse_adblock_line-IsName_example :
    IsName rule.domain
    × (rule.is_ex ≡ (
        has_prefix blocks_a_com (64 ∷ 64 ∷ [])
        || true && not (has_prefix blocks_a_com (124 ∷ 124 ∷ []))))
parse_adblock_line-IsName_example = parse_adblock_line-IsName library blocks_a_com true rule parses

adblock_no_rpz : adblock.is_rpz ≡ false
unfolding flags_of contains_text has_prefix
adblock_no_rpz = refl

adblock_no_hosts : adblock.is_domain ≡ false
unfolding flags_of contains_text has_prefix
adblock_no_hosts = refl

valid_a_com : is_empty (normal library a_com) ≡ false
unfolding normalize_domain has_prefix has_byte contains_any all_valid is_valid_label inner_valid
    is_alnum_or_u last_byte split_dots add_byte trim_wildcard trim_dots trim_left_dots
valid_a_com = refl

no_casino : (adblock.filter_casino && library.is_casino (normal library a_com)) ≡ false
unfolding flags_of
no_casino = refl

letter : (c : ℕ) → 97 ≤ c → c ≤ 122 → IsNameByte c
letter c low high = inl (inl (inl (low, high)))

named : All IsNameByte a_com
named = (
  letter 97 (omega arith) (omega arith),
  (
    inr refl,
    (
      letter 99 (omega arith) (omega arith),
      (letter 111 (omega arith) (omega arith), (letter 109 (omega arith) (omega arith), tt)),
    ),
  ),
)

-- `a.com##.ad`.
read_line-cosmetic_example :
    (parse_adblock_line library (a_com ++ 35 ∷ 35 ∷ 46 ∷ 97 ∷ 100 ∷ []) false ≡ none)
    × (read_line library adblock (a_com ++ 35 ∷ 35 ∷ 46 ∷ 97 ∷ 100 ∷ []) no_lists
        ≡ record no_lists {
          rules = record { domain = normal library a_com; is_ex = adblock.is_exclude_file } ∷ [];
        })
read_line-cosmetic_example =
    read_line-cosmetic library adblock false a_com (46 ∷ 97 ∷ 100 ∷ []) no_lists adblock_no_rpz
      adblock_no_hosts refl refl refl named valid_a_com no_casino

adblock_zone-Named_example :
    All
      (λ d. Named (rule ∷ []) d × NoException (rule ∷ []) d × NoRule [] d)
      (adblock_zone (rule ∷ []) [] []).domains
adblock_zone-Named_example = adblock_zone-Named (rule ∷ []) [] []

proxy_zone-StripsTo_example :
    All
      (λ d. StripsTo (λ x. x) (rule ∷ []) d × NoException (rule ∷ []) d × NoRule [] d × NoRule [] d)
      (proxy_zone (λ x. x) (rule ∷ []) [] []).domains
proxy_zone-StripsTo_example = proxy_zone-StripsTo (λ x. x) (rule ∷ []) [] []
