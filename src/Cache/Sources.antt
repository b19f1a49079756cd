-- ===== src/Cache/Sources.antt =====
-- What downloadSources of internal/parser/compiler.go leaves of files whose names end in `.txt`.
use mathlib.Core.List.Memᴰ
use mathlib.Core.List.{Memᴰ}
use next_path.Base.{
  arith, Bool, true, false, List, [], ◌∷◌, ◌++◌, none, some, ◌≡◌, ◌≢◌, ◌⊎◌, inl, inr, refl, sym, ap,
  ◌∙◌, Bool-cases, Option-cases, map, if◌then◌else◌, ◌||◌, if_pos,
}
use next_path.Blocklist.Lines.{Library, read_urls}
use next_path.Cache.{
  Web, member_of, txt, texts_in, jobs_of, cached_of, fetch_all, sweep, download_sources, stem_of,
}
use next_path.Disk.{Disk, read, mkdir_all}
use next_path.Domains.{has_suffix}
use next_path.Net.{Bytes, Bytes-discrete}
use next_path.Updater.{same}
use next_path.Cache.Sweeping.{
  sweep-other, sweep-kept, sweep-none, sweep-gone, texts_in-inside, texts_in-member,
}
use next_path.Netlink.Deny.{split_lines}
use next_path.Cache.Serving.{Served, Counts, found_later, fetch_all-Served}

module _ (w : Web) where
  -- The cached file of an address in the sources is an active one.
  same_self : (q : Bytes) → same q q ≡ true
  unfolding same
  same_self q = if_pos (Bytes-discrete q q) refl true false

  cached_of-active :
      (download_dir : Bytes) (job : Bytes × Bytes) (jobs : List (Bytes × Bytes))
      → Memᴰ job jobs
      → member_of (cached_of w download_dir job) (map (cached_of w download_dir) jobs) ≡ true
  cached_of-active download_dir job [] m = absurd (Memᴰ.not-nil m)
  cached_of-active download_dir job (j ∷ jobs) m = elim (Memᴰ.cases_cons m) [
    | inl e ↦ rw (e, same_self (cached_of w download_dir j)) refl
    | inr later ↦
        either (same (cached_of w download_dir job) (cached_of w download_dir j)) _
          (cached_of-active download_dir job jobs later)
  ]
    where
      either : (a b : Bool) → b ≡ true → (a || b) ≡ true
      either a b h = ground arith

  -- The files under `.txt` names once the sources were downloaded.
  abbrev pub Leaves : Bytes → List (Bytes × Bytes) → Bytes → Disk → Disk → Type 0
  Leaves download_dir jobs q d after =
      let active = member_of q (map (cached_of w download_dir) jobs) in
      ((w.inside download_dir q ≡ true)
        × (active ≡ false)
        × ((read q after ≡ none) ⊎ ((w.removes q ≡ false) × (read q after ≡ read q d))))
      ⊎ (((active ≡ true) ⊎ (w.inside download_dir q ≡ false))
          × ((read q after ≡ read q d) ⊎ Served w download_dir jobs q after))

  swept :
      (download_dir : Bytes) (jobs : List (Bytes × Bytes)) (q : Bytes) (d fetched : Disk)
      → has_suffix q txt ≡ true
      → (read q fetched ≡ read q d) ⊎ Served w download_dir jobs q fetched
      → Leaves download_dir jobs q d (
          sweep w
            (map (cached_of w download_dir) jobs)
            (texts_in w download_dir fetched.contents)
            fetched)
  swept download_dir jobs q d fetched t found =
      let active = map (cached_of w download_dir) jobs in
      let paths = texts_in w download_dir fetched.contents in
      let stays = λ (apart : (p : Bytes) → Memᴰ p paths → member_of p active ≡ false → q ≢ p).
        sweep-other w active paths q fetched apart t in
      let later = λ (e : read q (sweep w active paths fetched) ≡ read q fetched).
        found_later w download_dir jobs q d fetched (sweep w active paths fetched) e found in
      elim (Bool-cases (w.inside download_dir q)) [
        | inr outside ↦ inr (
          inr outside,
          later (
              stays (λ p m a e.
                let p_inside = texts_in-inside w download_dir p fetched.contents m in
                absurd (cc (rw e at outside)))),
        )
        | inl inside ↦ elim (Bool-cases (member_of q active)) [
          | inl keep ↦ inr (inl keep, later (stays (λ p m a e. absurd (cc (rw e at keep)))))
          | inr stale ↦ inl (
            inside,
            stale,
            elim (Bool-cases (w.removes q)) [
              | inr bad ↦ inr (
                bad,
                elim found [
                  | inl old ↦ sweep-kept w active paths q fetched bad t ∙ old
                  | inr (job, m, at, served) ↦
                      let live : member_of q active ≡ true =
                        rw at (cached_of-active download_dir job jobs m) in
                      absurd (cc)
                ],
              )
              | inl ok ↦ inl (elim (Option-cases (read q fetched)) [
                | inl gone ↦ sweep-none w active paths q fetched gone
                | inr (x, there) ↦
                    sweep-gone w active paths q fetched ok
                      (texts_in-member w download_dir q x fetched.contents there inside t) stale
              ])
            ],
          )
        ]
      ]

  jobs_of-made :
      (l : Library) (files : List Bytes) (path : Bytes) (d : Disk)
      → jobs_of w l files (mkdir_all path d) ≡ jobs_of w l files d
  unfolding jobs_of
  jobs_of-made l [] path d = refl
  jobs_of-made l (file ∷ files) path d =
      ap
        (λ rest.
          let all : List (Bytes × Bytes) = elim (read file d) [
            | none ↦ rest
            | some content ↦
                map (λ url. (url, stem_of w file)) (read_urls l (split_lines content)) ++ rest
          ] in
          if w.reads file then all else rest)
        (jobs_of-made l files path d)

  -- A file whose name ends in `.txt`, after downloadSources, whatever the servers answer and whichever
  -- reads, writes and removals of files fail. Inside the download directory and not the cached file of
  -- an address in a source file that could be read, it is gone, or its removal fails and it is as it
  -- was. Otherwise it is as it was, or it is the cached file of such an address and holds the whole
  -- body, not empty, of a response of status 200 to a request for that address. The number in the names
  -- of temporary files does not end in the letter t.
  pub download_sources-Leaves :
      (l : Library) (nanos sources_dir download_dir q : Bytes) (d : Disk)
      → Counts w nanos
      → has_suffix q txt ≡ true
      → Leaves download_dir
          (jobs_of w l (texts_in w sources_dir d.contents) d)
          q
          d
          (download_sources w l nanos sources_dir download_dir d)
  unfolding download_sources
  download_sources-Leaves l nanos sources_dir download_dir q d counts t =
      let made = mkdir_all download_dir d in
      let jobs = jobs_of w l (texts_in w sources_dir made.contents) made in
      let same_jobs : jobs_of w l (texts_in w sources_dir d.contents) d ≡ jobs =
        sym (jobs_of-made l (texts_in w sources_dir d.contents) download_dir d) in
      rw same_jobs (
        swept download_dir jobs q d (fetch_all w nanos download_dir jobs [] made) t
          (fetch_all-Served w nanos download_dir jobs [] q made counts t))
