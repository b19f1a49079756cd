-- ===== src/Updater/Etags.antt =====
-- The validators in the file .etag, as cmd/nextpath-engine/main.go writes and reads them.
use mathlib.Core.List.{reverse-append, reverse-reverse, reverse-cons}
use next_path.Base.{
  ℕ, ap, append_assoc, ◌≢◌, false, [], ◌∷◌, ◌++◌, none, some, ◌≡◌, refl, sym, ◌∙◌, arith,
  if◌then◌else◌, reverse,
}
use next_path.Names.{has_byte}
use next_path.Net.{Bytes}
use next_path.Text.{blanks, is_empty, trim_left, trim, trim_space, split_line}
use next_path.Updater.{meta_parts, read_meta, meta_text}

-- The text does not begin with a blank.
abbrev pub BeginsPlain : Bytes → Type 0
BeginsPlain [] = Unit
BeginsPlain (c ∷ s) = has_byte c blanks ≡ false

-- A text of one line, without blanks around it.
pub record IsTag (s : Bytes) : Type 0 where
  pub begins : BeginsPlain s
  pub ends : BeginsPlain (reverse s)
  pub line : split_line s ≡ none

trim_left_plain : (s : Bytes) → BeginsPlain s → trim_left blanks s ≡ s
unfolding trim_left
trim_left_plain [] h = refl
trim_left_plain (c ∷ s) h = rw h refl

BeginsPlain-append : (s t : Bytes) → s ≢ [] → BeginsPlain s → BeginsPlain (s ++ t)
BeginsPlain-append [] t n h = absurd (n refl)
BeginsPlain-append (c ∷ s) t n h = h

reverse_not_nil : (c : ℕ) (s : Bytes) → reverse (c ∷ s) ≢ []
reverse_not_nil c s e =
    let back : c ∷ s ≡ [] = sym (reverse-reverse (c ∷ s)) ∙ ap reverse e in absurd (cc)

pub trim_plain : (s : Bytes) → BeginsPlain s → BeginsPlain (reverse s) → trim_space s ≡ s
unfolding trim_space trim
trim_plain s b e = rw (trim_left_plain s b, trim_left_plain (reverse s) e) (reverse-reverse s)

-- A line feed at either end goes.
trim_left_feed : (s : Bytes) → trim_left blanks (10 ∷ s) ≡ trim_left blanks s
unfolding trim_left has_byte
trim_left_feed s = refl

trim_before : (s : Bytes) → trim_space (10 ∷ s) ≡ trim_space s
unfolding trim_space trim
trim_before s = rw (trim_left_feed s) refl

trim_after :
    (c : ℕ) (s : Bytes)
    → BeginsPlain (c ∷ s)
    → BeginsPlain (reverse (c ∷ s))
    → trim_space ((c ∷ s) ++ 10 ∷ []) ≡ c ∷ s
unfolding trim_space trim
trim_after c s b e =
    rw
      (
        trim_left_plain ((c ∷ s) ++ 10 ∷ []) b,
        reverse-append (c ∷ s) (10 ∷ []),
        trim_left_feed (reverse (c ∷ s)),
        trim_left_plain (reverse (c ∷ s)) e,
      )
      (reverse-reverse (c ∷ s))

trim_between :
    (c d : ℕ) (s t : Bytes)
    → BeginsPlain (c ∷ s)
    → BeginsPlain (reverse (d ∷ t))
    → trim_space ((c ∷ s) ++ 10 ∷ d ∷ t) ≡ (c ∷ s) ++ 10 ∷ d ∷ t
trim_between c d s t b e = trim_plain ((c ∷ s) ++ 10 ∷ d ∷ t) b (
    rw
      (
        reverse-append (c ∷ s) (10 ∷ d ∷ t),
        reverse-cons 10 (d ∷ t),
        append_assoc (reverse (d ∷ t)) (10 ∷ []) (reverse (c ∷ s)),
      )
      (BeginsPlain-append (reverse (d ∷ t)) _ (reverse_not_nil d t) e))

pub split_line_at : (s t : Bytes) → split_line s ≡ none → split_line (s ++ 10 ∷ t) ≡ some (s, t)
unfolding split_line
split_line_at [] t h = refl
split_line_at (c ∷ s) t h = ground (arith, split_line_at s t)

meta_parts_one : (s : Bytes) → split_line s ≡ none → meta_parts s ≡ (s, [])
unfolding meta_parts
meta_parts_one s h = rw (h, meta_parts) refl

meta_parts_two :
    (s a b : Bytes) → split_line s ≡ some (a, b) → meta_parts s ≡ (trim_space a, trim_space b)
unfolding meta_parts
meta_parts_two s a b h = rw (h, meta_parts) refl

-- What runReload reads of .etag after it wrote an ETag and a date of modification there, each a text of
-- one line without blanks around it, or empty: the two, if there is an ETag; else the date as the
-- ETag and no date.
pub read_meta-meta_text :
    (etag last_mod : Bytes)
    → IsTag etag
    → IsTag last_mod
    → read_meta (meta_text etag last_mod)
      ≡ (if is_empty etag then (last_mod, []) else (etag, last_mod))
unfolding read_meta
read_meta-meta_text [] m a b =
    ap meta_parts (trim_before m ∙ trim_plain m b.begins b.ends) ∙ meta_parts_one m b.line
read_meta-meta_text (c ∷ s) [] a b =
    ap meta_parts (trim_after c s a.begins a.ends) ∙ meta_parts_one (c ∷ s) a.line
read_meta-meta_text (c ∷ s) (d ∷ t) a b =
    ap meta_parts (trim_between c d s t a.begins b.ends)
    ∙ meta_parts_two _ (c ∷ s) (d ∷ t) (split_line_at (c ∷ s) (d ∷ t) a.line)
    ∙ rw (trim_plain (c ∷ s) a.begins a.ends, trim_plain (d ∷ t) b.begins b.ends) refl
