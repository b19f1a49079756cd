-- ===== src/Blocklist/Lines.antt =====
-- parseAdblockLine, validateFile, readUrls and the flags of loadDomainsWithRules in
-- internal/parser/compiler.go. The functions of the library on Unicode, netip.ParseAddr and IsCasino
-- of internal/parser/filter.go are parameters; a file is its lines.
use next_path.Base.{
  Bool, true, false, not, ◌&&◌, ◌||◌, List, [], ◌∷◌, ◌++◌, Option, none, some, if◌then◌else◌, drop,
}
use next_path.Domains.{DomainRule, add_key, has_prefix}
use next_path.Names.{has_byte, normalize_domain}
use next_path.Net.{Bytes}
use next_path.Text.{is_empty, trim, contains_text, before_any}

-- `##` and `#@#`.
abbrev pub is_cosmetic : Bytes → Bool
is_cosmetic line = contains_text line (35 ∷ 35 ∷ []) || contains_text line (35 ∷ 64 ∷ 35 ∷ [])

-- The prefixes `@@||`, `||` and `@@`: whether the line is an exception, and the rest of it.
unfoldable pub read_marks : Bytes → Bool → Bool × Bytes
read_marks line force =
    if has_prefix line (64 ∷ 64 ∷ 124 ∷ 124 ∷ [])
    then (true, drop 4 line)
    else if has_prefix line (124 ∷ 124 ∷ [])
    then (false, drop 2 line)
    else if has_prefix line (64 ∷ 64 ∷ [])
    then (true, drop 2 line)
    else (force, line)

-- `*.`.
abbrev wildcard : Bytes
wildcard = 42 ∷ 46 ∷ []

-- The part before `^`, `$` or `*`, with its own wildcard in front.
unfoldable pub cut_domain : Bytes → Bytes
cut_domain domain =
    if has_prefix domain wildcard
    then wildcard ++ before_any (94 ∷ 36 ∷ 42 ∷ []) (drop 2 domain)
    else before_any (94 ∷ 36 ∷ 42 ∷ []) domain

-- The characters that `strings.Trim` takes off a line of a hosts file.
abbrev pub hosts_cutset : Bytes
hosts_cutset =
    33 ∷ 34 ∷ 35 ∷ 36 ∷ 37 ∷ 38 ∷ 39 ∷ 40 ∷ 41 ∷ 43 ∷ 44 ∷ 45 ∷ 47 ∷ 58 ∷ 59 ∷ 60 ∷ 61 ∷ 62 ∷ 63
    ∷ 64 ∷ 91 ∷ 92 ∷ 93 ∷ 94 ∷ 95 ∷ 96 ∷ 123 ∷ 124 ∷ 125 ∷ 126 ∷ []

pub record Library : Type 0 where
  pub to_lower : Bytes → Bytes
  pub trim_space : Bytes → Bytes
  pub to_ascii : Bytes → Option Bytes
  pub fields : Bytes → List Bytes
  pub parses_addr : Bytes → Bool
  pub is_casino : Bytes → Bool

-- `isExcludeFile`, `isRpz`, `isDomain` and `filterCasino`.
pub record Flags : Type 0 where
  pub is_exclude_file : Bool
  pub is_rpz : Bool
  pub is_domain : Bool
  pub filter_casino : Bool

-- What a file gives: its rules, and the keys of two maps.
pub record Lists : Type 0 where
  pub rules : List DomainRule
  pub cas_set : List Bytes
  pub raw_rules : List Bytes

abbrev pub no_lists : Lists
no_lists = record { rules = []; cas_set = []; raw_rules = [] }

-- The flags that `loadDomainsWithRules` derives from the name of a list.
unfoldable pub flags_of : Bytes → Bool → Flags
flags_of name filter_casino = record {
  is_exclude_file =
      has_prefix name (101 ∷ 120 ∷ 99 ∷ 108 ∷ 117 ∷ 100 ∷ 101 ∷ [])
      || has_prefix name (114 ∷ 101 ∷ 109 ∷ 111 ∷ 118 ∷ 101 ∷ []);
  is_rpz = contains_text name (114 ∷ 112 ∷ 122 ∷ []);
  is_domain =
      (contains_text name (104 ∷ 111 ∷ 115 ∷ 116 ∷ 115 ∷ [])
        || contains_text name (100 ∷ 111 ∷ 109 ∷ 97 ∷ 105 ∷ 110 ∷ []))
      && not (contains_text name (97 ∷ 100 ∷ 98 ∷ 108 ∷ 111 ∷ 99 ∷ 107 ∷ []));
  filter_casino = filter_casino;
}

module _ (l : Library) where
  abbrev pub normal : Bytes → Bytes
  normal = normalize_domain l.to_lower l.trim_space l.to_ascii

  -- The rule of a name that is cut out of its line.
  unfoldable pub adblock_rule : Bool → Bytes → Option DomainRule
  adblock_rule is_ex domain =
      let v = normal domain in
      if is_empty domain || (has_byte 42 domain && not (has_prefix domain wildcard))
      then none
      else if is_empty v
      then none
      else some (record { domain = v; is_ex = is_ex })

  unfoldable pub parse_adblock_line : Bytes → Bool → Option DomainRule
  parse_adblock_line text force_exception =
      let line = l.trim_space text in
      let (is_ex, domain) = read_marks line force_exception in
      if is_empty line || is_cosmetic line
      then none
      else if has_byte 47 domain
      then none
      else adblock_rule is_ex (l.trim_space (cut_domain domain))

  -- A rule is kept, unless its name is a casino's and these are filtered.
  unfoldable pub keep_rule : Flags → DomainRule → Lists → Lists
  keep_rule f r ls =
      if f.filter_casino && l.is_casino r.domain
      then record ls { cas_set = add_key r.domain ls.cas_set }
      else record ls { rules = ls.rules ++ r ∷ [] }

  -- The names of a line of a hosts file.
  unfoldable pub read_fields : Flags → List Bytes → Lists → Lists
  read_fields f [] ls = ls
  read_fields f (field ∷ fields) ls =
      let v = normal field in
      let kept = keep_rule f (record { domain = v; is_ex = f.is_exclude_file }) ls in
      read_fields f fields (if l.parses_addr field then ls else if is_empty v then ls else kept)

  -- The three kinds of files, on a line without its comment.
  unfoldable pub read_rpz : Bytes → Lists → Lists
  read_rpz line ls =
      if has_prefix line (36 ∷ []) || has_prefix line (64 ∷ [])
      then ls
      else record ls { raw_rules = add_key line ls.raw_rules }

  unfoldable pub read_hosts : Flags → Bytes → Lists → Lists
  read_hosts f text ls =
      let line = trim hosts_cutset text in
      if is_empty line then ls else read_fields f (l.fields line) ls

  unfoldable pub read_adblock : Flags → Bytes → Lists → Lists
  read_adblock f line ls =
      let parsed : Lists = elim (parse_adblock_line line f.is_exclude_file) [
        | none ↦ ls
        | some r ↦ keep_rule f r ls
      ] in
      if has_prefix line (33 ∷ []) || has_prefix line (91 ∷ []) then ls else parsed

  unfoldable pub read_content : Flags → Bytes → Lists → Lists
  read_content f line ls =
      if f.is_rpz
      then read_rpz line ls
      else if f.is_domain
      then read_hosts f line ls
      else read_adblock f line ls

  unfoldable pub read_line : Flags → Bytes → Lists → Lists
  read_line f text ls =
      let line = l.trim_space text in
      let content = if has_byte 35 line then l.trim_space (before_any (35 ∷ []) line) else line in
      if is_empty line || has_prefix line (35 ∷ []) || has_prefix line (59 ∷ [])
      then ls
      else if is_empty content
      then ls
      else read_content f content ls

  unfoldable pub read_lines : Flags → List Bytes → Lists → Lists
  read_lines f [] ls = ls
  read_lines f (line ∷ lines) ls = read_lines f lines (read_line f line ls)

  -- A file that cannot be opened gives nothing.
  unfoldable pub validate_file : Flags → Option (List Bytes) → Lists
  validate_file f none = no_lists
  validate_file f (some lines) = read_lines f lines no_lists

  -- The lines of a list of sources that are addresses.
  unfoldable pub read_urls : List Bytes → List Bytes
  read_urls [] = []
  read_urls (text ∷ texts) =
      let line = l.trim_space text in
      let rest = read_urls texts in
      if is_empty line || has_prefix line (35 ∷ []) then rest else line ∷ rest
