-- ===== src/Cache/Fetching.antt =====
-- What downloadOrGetCached of internal/parser/compiler.go leaves of its cached file and of all others.
use next_path.Base.{
  subst, ℕ, Bool, true, ◌&&◌, [], ◌∷◌, ◌++◌, Option, some, ◌==◌, ◌≡◌, ◌≢◌, ◌⊎◌, inl, inr, refl, sym,
  ◌∙◌, arith, Bool-cases, Option-cases, if_pos, if_neg,
}
use next_path.Cache.{
  Web, Response, unreachable, responded, meta_path, tmp_path, discard, note, keep_body,
  take_response, download_or_get_cached, get_cached_filepath, request_for, validators_of,
}
use next_path.Disk.{Disk, read, write, remove, mkdir_all, read-write, read-remove}
use next_path.Net.{Bytes, Bytes-discrete}
use next_path.Text.{is_empty}

pub longer : (s : Bytes) (c : ℕ) (t : Bytes) → s ++ c ∷ t ≢ s
longer [] c t e = absurd (cc)
longer (x ∷ s) c t e = longer s c t (cc)

-- Writing and removing one path leaves the others.
pub write-other : (q path x : Bytes) (d : Disk) → q ≢ path → read q (write path x d) ≡ read q d
write-other q path x d n = read-write q path x d ∙ if_neg (Bytes-discrete q path) n _ _

pub remove-other : (q path : Bytes) (d : Disk) → q ≢ path → read q (remove path d) ≡ read q d
remove-other q path d n = read-remove q path d ∙ if_neg (Bytes-discrete q path) n _ _

pub read-written : (path x : Bytes) (d : Disk) → read path (write path x d) ≡ some x
read-written path x d = read-write path path x d ∙ if_pos (Bytes-discrete path path) refl _ _

-- A removal that may fail.
pub discard-other :
    (w : Web) (q path : Bytes) (d : Disk) → q ≢ path → read q (discard w path d) ≡ read q d
unfolding discard
discard-other w q path d n = elim (Bool-cases (w.removes path)) [
  | inl ok ↦ rw ok (remove-other q path d n)
  | inr bad ↦ rw bad refl
]

-- Only this path may differ.
abbrev pub SameBut : Bytes → Disk → Disk → Type 0
SameBut path d after = (q : Bytes) → q ≢ path → read q after ≡ read q d

-- The cached file holds the body of the response, which is not empty.
abbrev pub Replaces : Bytes → Bytes → Response → Disk → Disk → Type 0
Replaces nanos cached response d after =
    ((q : Bytes)
      → q ≢ cached
      → q ≢ meta_path cached
      → q ≢ tmp_path nanos cached
      → read q after ≡ read q d)
    × ((etag : Bytes) × (last_mod : Bytes) × (content : Bytes) × (response
          ≡ responded 200 etag last_mod (some content))
        × (content ≢ [])
        × (read cached after ≡ some content))

-- Nothing but a temporary file, or without an error a new body.
abbrev pub Caches : Bytes → Bytes → Response → Disk → Disk × Bool → Type 0
Caches nanos cached response d (after, ok) =
    SameBut (tmp_path nanos cached) d after ⊎ ((ok ≡ true) × Replaces nanos cached response d after)

module _ (w : Web) where
  pub note-other :
      (cached etag last_mod q : Bytes) (d : Disk)
      → q ≢ meta_path cached
      → read q (note w cached etag last_mod d) ≡ read q d
  unfolding note
  note-other cached etag last_mod q d n = elim (Bool-cases (is_empty etag && is_empty last_mod)) [
    | inl bare ↦ rw bare (discard-other w q (meta_path cached) d n)
    | inr some_tag ↦ elim (Bool-cases (w.calls cached).notes) [
      | inl ok ↦ rw (some_tag, ok) (write-other q (meta_path cached) _ d n)
      | inr bad ↦ elim (Option-cases (w.calls cached).spoilt) [
        | inl gone ↦ rw (some_tag, bad, gone) (discard-other w q (meta_path cached) d n)
        | inr (left, e) ↦ rw (some_tag, bad, e) (write-other q (meta_path cached) left d n)
      ]
    ]
  ]

  filled-other :
      (nanos cached content q : Bytes) (d : Disk)
      → q ≢ tmp_path nanos cached
      → let tmp = tmp_path nanos cached in
        read q (discard w tmp (write tmp content (write tmp [] d))) ≡ read q d
  filled-other nanos cached content q d n =
      let tmp = tmp_path nanos cached in
      discard-other w q tmp (write tmp content (write tmp [] d)) n
      ∙ (write-other q tmp content (write tmp [] d) n ∙ write-other q tmp [] d n)

  replaced-Replaces :
      (nanos cached etag last_mod content : Bytes) (d filled : Disk)
      → content ≢ []
      → SameBut (tmp_path nanos cached) d filled
      → Replaces nanos cached
          (responded 200 etag last_mod (some content))
          d
          (note w cached etag last_mod (write cached content filled))
  replaced-Replaces nanos cached etag last_mod content d filled full clean =
      let put = write cached content filled in
      (
        λ q n m t.
            note-other cached etag last_mod q put m
            ∙ (write-other q cached content filled n ∙ clean q t),
        (
          etag,
          last_mod,
          content,
          refl,
          full,
          note-other cached etag last_mod cached put (λ e. longer cached _ _ (sym e))
              ∙ read-written cached content filled,
        ),
      )

  keep_body-Caches :
      (nanos cached etag last_mod : Bytes) (body : Option Bytes) (d : Disk)
      → Caches nanos cached
          (responded 200 etag last_mod body)
          d
          (keep_body w nanos cached etag last_mod body d)
  unfolding keep_body
  keep_body-Caches nanos cached etag last_mod body d = elim (Bool-cases (w.calls cached).creates) [
    | inr bad ↦ rw bad (inl (λ q n. refl))
    | inl made ↦ elim (Option-cases body) [
      | inl broken ↦
          rw (made, broken)
            (inl (λ q n.
              discard-other w q (tmp_path nanos cached) (write (tmp_path nanos cached) [] d) n
              ∙ write-other q (tmp_path nanos cached) [] d n))
      | inr (content, is) ↦ elim (Bool-cases (is_empty content)) [
        | inl empty ↦ rw (made, is, empty) (inl (λ q n. filled-other nanos cached content q d n))
        | inr full ↦ elim (Bool-cases (w.calls cached).renames) [
          | inr bad ↦
              rw (made, is, full, bad) (inl (λ q n. filled-other nanos cached content q d n))
          | inl moved ↦
              let new =
                replaced-Replaces nanos cached etag last_mod content d
                  (discard w (tmp_path nanos cached)
                    (write (tmp_path nanos cached) content (write (tmp_path nanos cached) [] d)))
                  (λ e. absurd (cc (rw e at full)))
                  (λ q n. filled-other nanos cached content q d n) in
              rw (made, is, full, moved) (inr (refl, new))
        ]
      ]
    ]
  ]

  take_response-Caches :
      (nanos cached : Bytes) (r : Response) (d : Disk)
      → Caches nanos cached r d (take_response w nanos cached r d)
  unfolding take_response
  take_response-Caches nanos cached unreachable d = inl (λ q n. refl)
  take_response-Caches nanos cached (responded status etag last_mod body) d =
      elim (Bool-cases (status == 304)) [
        | inl current ↦ rw current (inl (λ q n. refl))
        | inr changed ↦ elim (Bool-cases (status == 200)) [
          | inr failed ↦ rw (changed, failed) (inl (λ q n. refl))
          | inl ok ↦
              let is : status ≡ 200 = ground arith in
              rw (changed, ok)
                (subst
                  (λ n.
                    Caches nanos cached (responded n etag last_mod body) d
                      (keep_body w nanos cached etag last_mod body d))
                  (sym is) (keep_body-Caches nanos cached etag last_mod body d))
        ]
      ]

  -- One call of downloadOrGetCached, whatever the server answers and whichever calls fail. Either it
  -- changes no file but its temporary one; or there is no error, the response had the status 200 and a
  -- body that is not empty, the cached file holds this whole body, and no file but the cached one, its
  -- `.meta` and the temporary one changed.
  pub download_or_get_cached-Caches :
      (nanos download_dir url stem : Bytes) (d : Disk)
      → let cached = get_cached_filepath w download_dir url stem in
        Caches nanos cached
          (w.serve (request_for w url cached d))
          d
          (download_or_get_cached w nanos download_dir url stem d)
  unfolding download_or_get_cached validators_of
  download_or_get_cached-Caches nanos download_dir url stem d =
      let cached = get_cached_filepath w download_dir url stem in
      let made = mkdir_all (w.dir cached) d in
      take_response-Caches nanos cached (w.serve (request_for w url cached made)) made
