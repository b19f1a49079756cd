-- ===== src/Blocklist/Cosmetic.antt =====
-- Element-hiding rules in the lists that validateFile of internal/parser/compiler.go reads.
use next_path.Base.{
  All, ◌≤◌, ◌⊎◌, ℕ, Bool, true, false, [], ◌∷◌, ◌++◌, none, some, ◌&&◌, ◌≡◌, refl, inl, inr, arith,
  ◌==◌, Bool-cases,
}
use next_path.Blocklist.Lines.{
  Library, Flags, Lists, normal, read_marks, cut_domain, adblock_rule, keep_rule, read_adblock,
  read_content, parse_adblock_line, read_line,
}
use next_path.Domains.{has_prefix}
use next_path.Names.Safety.{IsNameByte}
use next_path.Names.{has_byte}
use next_path.Net.{Bytes}
use next_path.Text.{is_empty, contains_text, before_any}

hash_present : (d b : Bytes) → has_byte 35 (d ++ 35 ∷ b) ≡ true
unfolding has_byte
hash_present [] b = refl
hash_present (c ∷ d) b = elim (Bool-cases (35 == c)) [
  | inl e ↦ rw e refl
  | inr n ↦ rw n (hash_present d b)
]

before_hash : (d b : Bytes) → has_byte 35 d ≡ false → before_any (35 ∷ []) (d ++ 35 ∷ b) ≡ d
unfolding has_byte before_any
before_hash [] b h = refl
before_hash (c ∷ d) b h = ground (arith, before_hash d b)

hiding_found : (d b : Bytes) → contains_text (d ++ 35 ∷ 35 ∷ b) (35 ∷ 35 ∷ []) ≡ true
unfolding contains_text has_prefix
hiding_found [] b = refl
hiding_found (c ∷ d) b = elim (Bool-cases (has_prefix (c ∷ (d ++ 35 ∷ 35 ∷ b)) (35 ∷ 35 ∷ []))) [
  | inl e ↦ rw e refl
  | inr n ↦ rw n (hiding_found d b)
]

same_head :
    (d b : Bytes) (c : ℕ)
    → is_empty d ≡ false
    → has_prefix (d ++ b) (c ∷ []) ≡ has_prefix d (c ∷ [])
unfolding has_prefix
same_head [] b c h = absurd (cc)
same_head (x ∷ d) b c h = refl

nonempty : (d b : Bytes) → is_empty d ≡ false → is_empty (d ++ b) ≡ false
nonempty [] b h = absurd (cc)
nonempty (x ∷ d) b h = refl

-- The marks of the formats are no bytes of a name.
Mark : ℕ → Type 0
Mark c = (c ≤ 44) ⊎ (c ≡ 47) ⊎ ((59 ≤ c) × (c ≤ 64)) ⊎ ((91 ≤ c) × (c ≤ 94)) ⊎ (123 ≤ c)

differs : (m c : ℕ) → Mark m → IsNameByte c → (m == c) ≡ false
unfolding Mark
differs m c mark name = ground arith

module _ (m : ℕ) (mark : Mark m) where
  absent : (d : Bytes) → All IsNameByte d → has_byte m d ≡ false
  unfolding has_byte
  absent [] h = refl
  absent (c ∷ d) (name, names) = rw (differs m c mark name) (absent d names)

  not_first : (s d : Bytes) → All IsNameByte d → has_prefix d (m ∷ s) ≡ false
  unfolding has_prefix
  not_first s [] h = refl
  not_first s (c ∷ d) (name, names) = ground (arith, differs m c mark name)

  not_inside : (s d : Bytes) → All IsNameByte d → contains_text d (m ∷ s) ≡ false
  unfolding contains_text has_prefix
  not_inside s [] h = refl
  not_inside s (c ∷ d) (name, names) = rw (not_first s (c ∷ d) (name, names)) (not_inside s d names)

uncut : (d : Bytes) → All IsNameByte d → before_any (94 ∷ 36 ∷ 42 ∷ []) d ≡ d
unfolding before_any has_byte
uncut [] h = refl
uncut (c ∷ d) (name, names) = ground (arith, uncut d names)

hash : Mark 35
unfolding Mark
hash = inl (omega arith)

star : Mark 42
unfolding Mark
star = inl (omega arith)

exclamation : Mark 33
unfolding Mark
exclamation = inl (omega arith)

slash : Mark 47
unfolding Mark
slash = inr (inl refl)

semicolon : Mark 59
unfolding Mark
semicolon = inr (inr (inl (omega arith, omega arith)))

at_sign : Mark 64
unfolding Mark
at_sign = inr (inr (inl (omega arith, omega arith)))

bracket : Mark 91
unfolding Mark
bracket = inr (inr (inr (inl (omega arith, omega arith))))

bar : Mark 124
unfolding Mark
bar = inr (inr (inr (inr (omega arith))))

module _ (l : Library) (d : Bytes) (full : is_empty d ≡ false) (name : All IsNameByte d) where
  parse_adblock_line-name :
      (force : Bool)
      → l.trim_space d ≡ d
      → is_empty (normal l d) ≡ false
      → parse_adblock_line l d force ≡ some (record { domain = normal l d; is_ex = force })
  unfolding parse_adblock_line read_marks cut_domain adblock_rule Mark
  parse_adblock_line-name force short valid =
      rw
        (
          short,
          not_first 64 at_sign (64 ∷ 124 ∷ 124 ∷ []) d name,
          not_first 124 bar (124 ∷ []) d name,
          not_first 64 at_sign (64 ∷ []) d name,
          not_inside 35 hash (35 ∷ []) d name,
          not_inside 35 hash (64 ∷ 35 ∷ []) d name,
          absent 47 slash d name,
          not_first 42 star (46 ∷ []) d name,
          uncut d name,
          short,
          absent 42 star d name,
          full,
          valid,
        )
        refl

  read_adblock-name :
      (f : Flags) (ls : Lists)
      → l.trim_space d ≡ d
      → is_empty (normal l d) ≡ false
      → (f.filter_casino && l.is_casino (normal l d)) ≡ false
      → read_adblock l f d ls ≡ record ls {
        rules = ls.rules ++ record { domain = normal l d; is_ex = f.is_exclude_file } ∷ [];
      }
  unfolding read_adblock keep_rule
  read_adblock-name f ls short valid kept =
      rw
        (
          parse_adblock_line-name f.is_exclude_file short valid,
          not_first 33 exclamation [] d name,
          not_first 91 bracket [] d name,
          kept,
        )
        refl

-- parseAdblockLine refuses a line that hides elements of a domain, but validateFile of a list in the
-- adblock format cuts it at the first hash before and so takes the domain as a rule: one that blocks
-- it, or, in a file of exceptions, an exception. The blanks around the line and the domain are taken
-- off already, the domain has bytes of a name only, its normal form is not empty and no casino's that
-- is filtered.
pub read_line-cosmetic :
    (l : Library) (f : Flags) (force : Bool) (d b : Bytes) (ls : Lists)
    → f.is_rpz ≡ false
    → f.is_domain ≡ false
    → l.trim_space (d ++ 35 ∷ 35 ∷ b) ≡ d ++ 35 ∷ 35 ∷ b
    → l.trim_space d ≡ d
    → is_empty d ≡ false
    → All IsNameByte d
    → is_empty (normal l d) ≡ false
    → (f.filter_casino && l.is_casino (normal l d)) ≡ false
    → (parse_adblock_line l (d ++ 35 ∷ 35 ∷ b) force ≡ none)
      × (read_line l f (d ++ 35 ∷ 35 ∷ b) ls ≡ record ls {
        rules = ls.rules ++ record { domain = normal l d; is_ex = f.is_exclude_file } ∷ [];
      })
unfolding parse_adblock_line read_line read_content read_adblock
read_line-cosmetic l f force d b ls no_rpz no_hosts trimmed short full name valid kept =
    let line = d ++ 35 ∷ 35 ∷ b in
    (
      rw (trimmed, nonempty d (35 ∷ 35 ∷ b) full, hiding_found d b) refl,
      rw
          (
            trimmed,
            hash_present d (35 ∷ b),
            before_hash d (35 ∷ b) (absent 35 hash d name),
            short,
            nonempty d (35 ∷ 35 ∷ b) full,
            same_head d (35 ∷ 35 ∷ b) 35 full,
            same_head d (35 ∷ 35 ∷ b) 59 full,
            not_first 35 hash [] d name,
            not_first 59 semicolon [] d name,
            full,
            no_rpz,
            no_hosts,
          )
          (read_adblock-name l d full name f ls short valid kept),
    )
