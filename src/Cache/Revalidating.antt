-- ===== src/Cache/Revalidating.antt =====
-- The validators that downloadOrGetCached of internal/parser/compiler.go keeps beside a cached file.
use next_path.Base.{
  true, false, ◌&&◌, [], ◌∷◌, none, some, ◌≡◌, ◌≢◌, inl, inr, refl, sym, ap, ◌∙◌, Bool-cases,
  if_pos,
}
use next_path.Cache.{
  Web, Response, responded, meta_path, file_exists, discard, note, keep_body, take_response,
  download_or_get_cached, get_cached_filepath, request_for, validators_of, request_with, tmp_path,
}
use next_path.Disk.{Disk, read, write, mkdir_all, read-remove}
use next_path.Net.{Bytes, Bytes-discrete}
use next_path.Text.{is_empty}
use next_path.Updater.{meta_text}
use next_path.Cache.Fetching.{longer, read-written, note-other}
use next_path.Updater.Etags.{IsTag, trim_plain, split_line_at}

tags_empty :
    (a b : Bytes) → (is_empty a && is_empty b) ≡ true → ◌≡◌ {A = Bytes × Bytes} ([], []) (a, b)
tags_empty [] [] h = refl
tags_empty [] (y ∷ t) h = absurd (cc)
tags_empty (x ∷ s) b h = absurd (cc)

read-discarded :
    (w : Web) (path : Bytes) (d : Disk)
    → w.removes path ≡ true
    → read path (discard w path d) ≡ none
unfolding discard
read-discarded w path d ok =
    rw ok (read-remove path path d ∙ if_pos (Bytes-discrete path path) refl _ _)

exists_full :
    (cached content : Bytes) (d : Disk)
    → content ≢ []
    → read cached d ≡ some content
    → file_exists cached d ≡ true
exists_full cached [] d full h = absurd (full refl)
exists_full cached (c ∷ content) d full h = rw (file_exists, h) refl

validators_of-note :
    (w : Web) (cached etag last_mod content : Bytes) (d : Disk)
    → IsTag etag
    → IsTag last_mod
    → content ≢ []
    → (w.calls cached).notes ≡ true
    → w.reads (meta_path cached) ≡ true
    → w.removes (meta_path cached) ≡ true
    → read cached d ≡ some content
    → validators_of w cached (note w cached etag last_mod d) ≡ (etag, last_mod)
unfolding validators_of note
validators_of-note w cached etag last_mod content d tag date full notes reads removes at =
    let after = note w cached etag last_mod d in
    let kept = note-other w cached etag last_mod cached d (λ e. longer cached _ _ (sym e)) ∙ at in
    let exists = exists_full cached content after full kept in
    elim (Bool-cases (is_empty etag && is_empty last_mod)) [
      | inl bare ↦
          let none_left : read (meta_path cached) after ≡ none =
            rw (note, bare) (read-discarded w (meta_path cached) d removes) in
          rw (exists, reads, none_left) (tags_empty etag last_mod bare)
      | inr some_tag ↦
          let noted : read (meta_path cached) after ≡ some (meta_text etag last_mod) =
            rw (note, some_tag, notes)
              (read-written (meta_path cached) (meta_text etag last_mod) d) in
          rw
            (
              exists,
              reads,
              noted,
              split_line_at etag last_mod tag.line,
              trim_plain etag tag.begins tag.ends,
              trim_plain last_mod date.begins date.ends,
            )
            refl
    ]

-- The calls on the files of the cached one succeed.
abbrev pub Works : Web → Bytes → Type 0
Works w cached =
    ((w.calls cached).creates ≡ true)
    × ((w.calls cached).renames ≡ true)
    × ((w.calls cached).notes ≡ true)
    × (w.reads (meta_path cached) ≡ true)
    × (w.removes (meta_path cached) ≡ true)

module _ (w : Web) (nanos cached etag last_mod content : Bytes) where
  keep_body-validators :
      (d : Disk)
      → IsTag etag
      → IsTag last_mod
      → content ≢ []
      → Works w cached
      → validators_of w cached (keep_body w nanos cached etag last_mod (some content) d).0
        ≡ (etag, last_mod)
  unfolding keep_body
  keep_body-validators d tag date full (creates, renames, notes, reads, removes) =
      let filled =
        discard w (tmp_path nanos cached)
          (write (tmp_path nanos cached) content (write (tmp_path nanos cached) [] d)) in
      let there : is_empty content ≡ false = not_empty content full in
      rw (creates, there, renames)
        (validators_of-note w cached etag last_mod content (write cached content filled) tag date
          full notes reads removes (read-written cached content filled))
    where
      not_empty : (s : Bytes) → s ≢ [] → is_empty s ≡ false
      not_empty [] n = absurd (n refl)
      not_empty (c ∷ s) n = refl

  take_response-validators :
      (r : Response) (d : Disk)
      → IsTag etag
      → IsTag last_mod
      → content ≢ []
      → Works w cached
      → r ≡ responded 200 etag last_mod (some content)
      → validators_of w cached (take_response w nanos cached r d).0 ≡ (etag, last_mod)
  unfolding take_response
  take_response-validators r d tag date full works e =
      rw e (keep_body-validators d tag date full works)

-- After a call of downloadOrGetCached whose response has the status 200 and a body that is not empty,
-- where the calls on files succeed and each validator is empty or a text of one line without blanks
-- around it: the next request for the file carries exactly the validators of this response.
pub download_or_get_cached-validators :
    (w : Web) (nanos download_dir url stem etag last_mod content : Bytes) (d : Disk)
    → let cached = get_cached_filepath w download_dir url stem in
      IsTag etag
      → IsTag last_mod
      → content ≢ []
      → Works w cached
      → w.serve (request_for w url cached d) ≡ responded 200 etag last_mod (some content)
      → request_for w url cached (download_or_get_cached w nanos download_dir url stem d).0
        ≡ request_with url (etag, last_mod)
unfolding download_or_get_cached validators_of
download_or_get_cached-validators w nanos download_dir url stem etag last_mod content d tag date
      full works served =
    let cached = get_cached_filepath w download_dir url stem in
    let made = mkdir_all (w.dir cached) d in
    ap (request_with url) (
      take_response-validators w nanos cached etag last_mod content
        (w.serve (request_for w url cached made)) made tag date full works served)
