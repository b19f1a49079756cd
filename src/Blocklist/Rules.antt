-- ===== src/Blocklist/Rules.antt =====
-- What the parsers of internal/parser/compiler.go let through.
use next_path.Base.{
  if_holds, arith, Bool, true, false, not, ◌&&◌, ◌||◌, List, [], ◌∷◌, Option, none, some, ◌≡◌,
  subst, ◌∙◌, guarded, inl, inr, refl, if◌then◌else◌, All, All-append, Bool-cases, Option-cases,
}
use next_path.Blocklist.Lines.{
  hosts_cutset, read_adblock, read_hosts, read_rpz, Library, Flags, Lists, normal, adblock_rule,
  parse_adblock_line, keep_rule, read_fields, read_content, read_line, read_lines, validate_file,
  is_cosmetic, read_marks, cut_domain, no_lists,
}
use next_path.Domains.{DomainRule, has_prefix}
use next_path.Names.Safety.{IsLabel, IsNameByte, normalize_domain-IsName}
use next_path.Names.{has_byte, split_dots}
use next_path.Net.{Bytes}
use mathlib.Core.Option.{some-injective}
use next_path.Text.{is_empty, trim, before_any}

-- A name that a zone file can hold.
abbrev pub IsName : Bytes → Type 0
IsName d = (is_empty d ≡ false) × All IsLabel (split_dots d) × All IsNameByte d

-- A name, and no casino's where these are filtered.
abbrev pub IsClean : Library → Flags → DomainRule → Type 0
IsClean l f r = IsName r.domain × ((f.filter_casino && l.is_casino r.domain) ≡ false)

module _ (l : Library) where
  normal-IsName : (d : Bytes) → is_empty (normal l d) ≡ false → IsName (normal l d)
  normal-IsName d h = elim (normalize_domain-IsName l.to_lower l.trim_space l.to_ascii d) [
    | inl nothing ↦ absurd (cc (rw nothing at h))
    | inr (labels, bytes) ↦ (h, labels, bytes)
  ]

  adblock_rule-IsName :
      (is_ex : Bool) (domain : Bytes) (r : DomainRule)
      → adblock_rule l is_ex domain ≡ some r
      → IsName r.domain × (r.is_ex ≡ is_ex)
  unfolding adblock_rule
  adblock_rule-IsName is_ex domain r h =
      let v = normal l domain in
      let tested : Option DomainRule =
        if is_empty v then none else some (record { domain = v; is_ex = is_ex }) in
      let (plain, named) =
        guarded (is_empty domain || (has_byte 42 domain && not (has_prefix domain (42 ∷ 46 ∷ []))))
          tested r h in
      let (good, e) = guarded (is_empty v) (some (record { domain = v; is_ex = is_ex })) r named in
      subst (λ (q : DomainRule). IsName q.domain × (q.is_ex ≡ is_ex)) (some-injective _ _ e)
        (normal-IsName domain good, refl)

  read_marks-exception :
      (line : Bytes) (force : Bool)
      → (read_marks line force).0
        ≡ (has_prefix line (64 ∷ 64 ∷ []) || force && not (has_prefix line (124 ∷ 124 ∷ [])))
  unfolding read_marks has_prefix
  read_marks-exception [] true = refl
  read_marks-exception [] false = refl
  read_marks-exception (x ∷ []) true = ground arith
  read_marks-exception (x ∷ []) false = ground arith
  read_marks-exception (x ∷ y ∷ rest) true = ground arith
  read_marks-exception (x ∷ y ∷ rest) false = ground arith

  -- A rule that parseAdblockLine reads has a name of valid labels. It is an exception if its line
  -- starts with two at signs, or if exceptions are forced and the line does not start with two bars.
  pub parse_adblock_line-IsName :
      (text : Bytes) (force : Bool) (r : DomainRule)
      → parse_adblock_line l text force ≡ some r
      → let line = l.trim_space text in
        IsName r.domain
        × (r.is_ex
            ≡ (has_prefix line (64 ∷ 64 ∷ []) || force && not (has_prefix line (124 ∷ 124 ∷ []))))
  unfolding parse_adblock_line
  parse_adblock_line-IsName text force r h =
      let line = l.trim_space text in
      let (is_ex, domain) = read_marks line force in
      let cut = adblock_rule l is_ex (l.trim_space (cut_domain domain)) in
      let (plain, rest) =
        guarded (is_empty line || is_cosmetic line) (if has_byte 47 domain then none else cut) r
          h in
      let (no_path, rule) = guarded (has_byte 47 domain) cut r rest in
      let (name, ex) = adblock_rule-IsName is_ex (l.trim_space (cut_domain domain)) r rule in
      (name, ex ∙ read_marks-exception line force)

  module _ (f : Flags) where
    AllClean : Lists → Type 0
    AllClean ls = All (IsClean l f) ls.rules

    keep_rule-AllClean :
        (r : DomainRule) (ls : Lists)
        → IsName r.domain
        → AllClean ls
        → AllClean (keep_rule l f r ls)
    unfolding keep_rule AllClean
    keep_rule-AllClean r ls name h = elim (Bool-cases (f.filter_casino && l.is_casino r.domain)) [
      | inl casino ↦ rw casino h
      | inr other ↦ rw other (All-append (IsClean l f) ls.rules (r ∷ []) h ((name, other), tt))
    ]

    read_fields-AllClean :
        (fields : List Bytes) (ls : Lists) → AllClean ls → AllClean (read_fields l f fields ls)
    unfolding read_fields
    read_fields-AllClean [] ls h = h
    read_fields-AllClean (field ∷ fields) ls h = elim (Bool-cases (l.parses_addr field)) [
      | inl address ↦ rw address (read_fields-AllClean fields ls h)
      | inr other ↦ elim (Bool-cases (is_empty (normal l field))) [
        | inl bad ↦ rw (other, bad) (read_fields-AllClean fields ls h)
        | inr good ↦
            rw (other, good)
              (read_fields-AllClean fields _ (keep_rule-AllClean _ ls (normal-IsName field good) h))
      ]
    ]

    read_rpz-AllClean : (line : Bytes) (ls : Lists) → AllClean ls → AllClean (read_rpz l line ls)
    unfolding read_rpz AllClean
    read_rpz-AllClean line ls h =
        elim (Bool-cases (has_prefix line (36 ∷ []) || has_prefix line (64 ∷ []))) [
          | inl header ↦ rw header h
          | inr rule ↦ rw rule h
        ]

    read_hosts-AllClean :
        (text : Bytes) (ls : Lists) → AllClean ls → AllClean (read_hosts l f text ls)
    unfolding read_hosts
    read_hosts-AllClean text ls h =
        let line = trim hosts_cutset text in
        elim (Bool-cases (is_empty line)) [
          | inl empty ↦ rw empty h
          | inr full ↦ rw full (read_fields-AllClean (l.fields line) ls h)
        ]

    read_adblock-AllClean :
        (line : Bytes) (ls : Lists) → AllClean ls → AllClean (read_adblock l f line ls)
    unfolding read_adblock
    read_adblock-AllClean line ls h =
        elim (Bool-cases (has_prefix line (33 ∷ []) || has_prefix line (91 ∷ []))) [
          | inl comment ↦ rw comment h
          | inr rule ↦ elim (Option-cases (parse_adblock_line l line f.is_exclude_file)) [
            | inl nothing ↦ rw (rule, nothing) h
            | inr (r, parsed) ↦
                rw (rule, parsed)
                  (keep_rule-AllClean r ls
                    (parse_adblock_line-IsName line f.is_exclude_file r parsed).0 h)
          ]
        ]

    read_content-AllClean :
        (line : Bytes) (ls : Lists) → AllClean ls → AllClean (read_content l f line ls)
    unfolding read_content
    read_content-AllClean line ls h =
        let rpz = read_rpz l line ls in
        let hosts = read_hosts l f line ls in
        let adblock = read_adblock l f line ls in
        if_holds AllClean f.is_rpz rpz (if f.is_domain then hosts else adblock)
          (read_rpz-AllClean line ls h)
          (if_holds AllClean f.is_domain hosts adblock (read_hosts-AllClean line ls h)
            (read_adblock-AllClean line ls h))

    read_line-AllClean :
        (text : Bytes) (ls : Lists) → AllClean ls → AllClean (read_line l f text ls)
    unfolding read_line
    read_line-AllClean text ls h =
        let line = l.trim_space text in
        let content = if has_byte 35 line then l.trim_space (before_any (35 ∷ []) line) else line in
        elim (Bool-cases
          (is_empty line || has_prefix line (35 ∷ []) || has_prefix line (59 ∷ []))) [
            | inl skipped ↦ rw skipped h
            | inr read ↦ elim (Bool-cases (is_empty content)) [
              | inl empty ↦ rw (read, empty) h
              | inr full ↦ rw (read, full) (read_content-AllClean content ls h)
            ]
          ]

    read_lines-AllClean :
        (lines : List Bytes) (ls : Lists) → AllClean ls → AllClean (read_lines l f lines ls)
    unfolding read_lines
    read_lines-AllClean [] ls h = h
    read_lines-AllClean (line ∷ lines) ls h =
        read_lines-AllClean lines _ (read_line-AllClean line ls h)

    -- Of any file of any kind, validateFile keeps only rules whose name is not empty, has valid labels
    -- and is, where these are filtered, no casino's.
    pub validate_file-AllClean :
        (file : Option (List Bytes)) → All (IsClean l f) (validate_file l f file).rules
    unfolding validate_file AllClean
    validate_file-AllClean none = tt
    validate_file-AllClean (some lines) = read_lines-AllClean lines no_lists tt
