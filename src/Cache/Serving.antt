-- ===== src/Cache/Serving.antt =====
-- What the downloads of downloadSources in internal/parser/compiler.go leave, before the removal of
-- other files.
use mathlib.Core.List.{reverse-append}
use mathlib.Core.List.{Memᴰ}
use next_path.Base.{
  ℕ, Bool, true, false, List, [], ◌∷◌, ◌++◌, some, ◌≡◌, ◌≢◌, ◌⊎◌, inl, inr, refl, sym, ap, subst,
  ◌∙◌, reverse, if◌then◌else◌, ◌==◌,
}
use next_path.Cache.Fetching.{download_or_get_cached-Caches}
use next_path.Cache.{
  Web, responded, tmp_path, member_of, txt, cached_of, fetch_all, download_or_get_cached,
  get_cached_filepath, request_for,
}
use next_path.Disk.{Disk, read}
use next_path.Domains.{has_suffix}
use next_path.Net.{Bytes, Bytes-discrete}
use next_path.Text.{codes}
use next_path.Updater.{Request}
use next_path.Cache.Sweeping.{ends_other, meta-plain}

module _ (w : Web) where
  -- A file holds the whole body of a response to the request for one of the addresses, of which it is
  -- the cached file.
  abbrev pub Served : Bytes → List (Bytes × Bytes) → Bytes → Disk → Type 0
  Served download_dir jobs q after =
      (job : Bytes × Bytes) × Memᴰ job jobs
      × (q ≡ cached_of w download_dir job)
      × ((request : Request) × (etag : Bytes) × (last_mod : Bytes) × (content : Bytes)
          × (request.url ≡ job.0)
          × (w.serve request ≡ responded 200 etag last_mod (some content))
          × (content ≢ [])
          × (read q after ≡ some content))

  -- The name of a temporary file does not end in `.txt`.
  abbrev pub Counts : Bytes → Type 0
  Counts nanos = (c : ℕ) × (r : Bytes) × (reverse nanos ≡ c ∷ r) × ((c == 116) ≡ false)

  pub tmp-plain :
      (nanos p q : Bytes) → Counts nanos → has_suffix q txt ≡ true → q ≢ tmp_path nanos p
  tmp-plain nanos p q (c, r, ends, n) h e =
      let back : reverse (codes ".tmp." ++ nanos) ≡ c ∷ (r ++ reverse (codes ".tmp.")) =
        reverse-append (codes ".tmp.") nanos ∙ ap (λ s. s ++ reverse (codes ".tmp.")) ends in
      let other = ends_other p (codes ".tmp." ++ nanos) c _ back n in
      let moved : has_suffix (tmp_path nanos p) txt ≡ true =
        subst (λ x. has_suffix x txt ≡ true) e h in
      true_not_false (sym moved ∙ other)
    where
      true_not_false : true ≡ false → ⊥
      true_not_false h = absurd (cc)

  download-Served :
      (nanos download_dir url stem : Bytes) (jobs : List (Bytes × Bytes)) (q : Bytes) (d : Disk)
      → Counts nanos
      → has_suffix q txt ≡ true
      → let after = (download_or_get_cached w nanos download_dir url stem d).0 in
        (read q after ≡ read q d) ⊎ Served download_dir ((url, stem) ∷ jobs) q after
  download-Served nanos download_dir url stem jobs q d counts t =
      let cached = get_cached_filepath w download_dir url stem in
      let not_tmp = tmp-plain nanos cached q counts t in
      elim (download_or_get_cached-Caches w nanos download_dir url stem d) [
        | inl clean ↦ inl (clean q not_tmp)
        | inr (ok, (others, (etag, last_mod, content, response, full, at))) ↦
            elim (Bytes-discrete q cached) [
              | no n ↦ inl (others q n (meta-plain cached q t) not_tmp)
              | yes s ↦ inr (
                (url, stem),
                Memᴰ.head refl,
                s,
                (
                  request_for w url cached d,
                  etag,
                  last_mod,
                  content,
                  refl,
                  response,
                  full,
                  rw s at,
                ),
              )
            ]
      ]

  Served-later :
      (download_dir : Bytes) (jobs : List (Bytes × Bytes)) (q : Bytes) (next final : Disk)
      → read q final ≡ read q next
      → Served download_dir jobs q next
      → Served download_dir jobs q final
  Served-later download_dir jobs q next final e
        (job, m, at, (request, etag, last_mod, content, url, response, full, there)) =
      (job, m, at, (request, etag, last_mod, content, url, response, full, e ∙ there))

  pub found_later :
      (download_dir : Bytes) (jobs : List (Bytes × Bytes)) (q : Bytes) (d next final : Disk)
      → read q final ≡ read q next
      → (read q next ≡ read q d) ⊎ Served download_dir jobs q next
      → (read q final ≡ read q d) ⊎ Served download_dir jobs q final
  found_later download_dir jobs q d next final e (inl old) = inl (e ∙ old)
  found_later download_dir jobs q d next final e (inr new) =
      inr (Served-later download_dir jobs q next final e new)

  step-Served :
      (nanos download_dir url stem : Bytes) (jobs : List (Bytes × Bytes)) (q : Bytes) (d : Disk)
      (old : Bool)
      → Counts nanos
      → has_suffix q txt ≡ true
      → let next = if old then d else (download_or_get_cached w nanos download_dir url stem d).0 in
        (read q next ≡ read q d) ⊎ Served download_dir ((url, stem) ∷ jobs) q next
  step-Served nanos download_dir url stem jobs q d true counts t = inl refl
  step-Served nanos download_dir url stem jobs q d false counts t =
      download-Served nanos download_dir url stem jobs q d counts t

  pub fetch_all-Served :
      (nanos download_dir : Bytes) (jobs : List (Bytes × Bytes)) (seen : List Bytes) (q : Bytes)
      (d : Disk)
      → Counts nanos
      → has_suffix q txt ≡ true
      → let after = fetch_all w nanos download_dir jobs seen d in
        (read q after ≡ read q d) ⊎ Served download_dir jobs q after
  unfolding fetch_all
  fetch_all-Served nanos download_dir [] seen q d counts t = inl refl
  fetch_all-Served nanos download_dir ((url, stem) ∷ jobs) seen q d counts t =
      let cached = get_cached_filepath w download_dir url stem in
      let next =
        if member_of cached seen
        then d
        else (download_or_get_cached w nanos download_dir url stem d).0 in
      elim (fetch_all-Served nanos download_dir jobs (cached ∷ seen) q next counts t) [
        | inr (job, m, at, served) ↦ inr (job, Memᴰ.tail m, at, served)
        | inl kept ↦
            found_later download_dir ((url, stem) ∷ jobs) q d next
              (fetch_all w nanos download_dir jobs (cached ∷ seen) next) kept
              (step-Served nanos download_dir url stem jobs q d (member_of cached seen) counts t)
      ]
