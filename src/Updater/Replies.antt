-- ===== src/Updater/Replies.antt =====
-- What downloadRemoteFiles of cmd/nextpath-engine/main.go leaves and answers.
use next_path.Base.{
  Bool, true, false, Option, none, some, ◌==◌, ◌≡◌, ◌⊎◌, inl, inr, refl, arith, if◌then◌else◌,
  Bool-cases, Option-cases,
}
use next_path.Net.{Bytes}
use next_path.Updater.Containing.{Contained, extract-Contained}
use next_path.Updater.{
  Archive, ended, broken, member, Entry, Kind, directory, regular, other, Host, write_file, extract,
  target_of, is_inside, Reply, unreachable, replied, take_reply, request_for, download_remote_files,
}
use next_path.Disk.{Disk, mkdir_all}

-- It was read without an error.
abbrev pub IsWhole : Archive → Type 0
IsWhole ended = Unit
IsWhole broken = ⊥
IsWhole (member e rest) = IsWhole rest

-- The reply has this archive.
abbrev pub Fetched : Reply → Archive → Type 0
Fetched unreachable a = ⊥
Fetched (replied status etag last_mod body) a = (status ≡ 200) × (body ≡ some a)

module _ (h : Host) where
  IsWhole-written :
      (target_dir : Bytes) (rest : Archive) (r : Disk × Bool)
      → ((next : Disk) → (extract h target_dir rest next).1 ≡ true → IsWhole rest)
      → let final : Disk × Bool = elim r.1 [
        | true ↦ extract h target_dir rest r.0
        | false ↦ (r.0, false)
      ] in
        final.1 ≡ true → IsWhole rest
  IsWhole-written target_dir rest (next, true) later ok = later next ok
  IsWhole-written target_dir rest (next, false) later ok = absurd (cc)

  IsWhole-entered :
      (target_dir : Bytes) (e : Entry) (rest : Archive) (d : Disk) (kind : Kind)
      → ((next : Disk) → (extract h target_dir rest next).1 ≡ true → IsWhole rest)
      → let written = write_file h (target_of h target_dir e) e d in
        let final : Disk × Bool = elim kind [
          | directory ↦ extract h target_dir rest (mkdir_all (target_of h target_dir e) d)
          | regular ↦ elim written.1 [
            | true ↦ extract h target_dir rest written.0
            | false ↦ (written.0, false)
          ]
          | other ↦ extract h target_dir rest d
        ] in
        final.1 ≡ true → IsWhole rest
  IsWhole-entered target_dir e rest d directory later ok = later _ ok
  IsWhole-entered target_dir e rest d regular later ok =
      IsWhole-written target_dir rest (write_file h (target_of h target_dir e) e d) later ok
  IsWhole-entered target_dir e rest d other later ok = later d ok

  -- An archive that is extracted was read to its end.
  extract-IsWhole :
      (target_dir : Bytes) (a : Archive) (d : Disk)
      → (extract h target_dir a d).1 ≡ true
      → IsWhole a
  unfolding extract
  extract-IsWhole target_dir ended d ok = tt
  extract-IsWhole target_dir broken d ok = absurd (cc)
  extract-IsWhole target_dir (member e rest) d ok =
      elim (Bool-cases (is_inside h target_dir (target_of h target_dir e))) [
        | inr outside ↦ extract-IsWhole target_dir rest d (rw outside at ok)
        | inl inside ↦
            IsWhole-entered target_dir e rest d e.kind
              (λ next fine. extract-IsWhole target_dir rest next fine) (rw inside at ok)
      ]

  -- What a call leaves and answers.
  abbrev pub Updates : Bytes → Bytes × Bytes → Reply → Disk → Disk × Option (Bytes × Bytes) → Type 0
  Updates target_dir last reply d (next, tags) =
      ((next ≡ d) × ((tags ≡ none) ⊎ (tags ≡ some last)))
      ⊎ ((a : Archive) × Fetched reply a
          × Contained h target_dir a d next
          × ((tags ≡ none) ⊎ IsWhole a))

  validators :
      (a : Archive) (ok : Bool) (tags : Bytes × Bytes)
      → (ok ≡ true → IsWhole a)
      → ((if ok then some tags else none) ≡ none) ⊎ IsWhole a
  validators a true tags whole = inr (whole refl)
  validators a false tags whole = inl refl

  take_reply-Updates :
      (nanos target_dir last_etag last_modified : Bytes) (r : Reply) (d : Disk)
      → Updates target_dir
          (last_etag, last_modified)
          r
          d
          (take_reply h nanos target_dir last_etag last_modified r d)
  unfolding take_reply
  take_reply-Updates nanos target_dir last_etag last_modified unreachable d = inl (refl, inl refl)
  take_reply-Updates nanos target_dir last_etag last_modified (replied status etag last_mod body)
        d =
      elim (Bool-cases (status == 304)) [
        | inl current ↦ rw current (inl (refl, inr refl))
        | inr changed ↦ elim (Bool-cases (status == 200)) [
          | inr failed ↦ rw (changed, failed) (inl (refl, inl refl))
          | inl ok ↦ elim (Option-cases body) [
            | inl refused ↦ rw (changed, ok, refused) (inl (refl, inl refl))
            | inr (a, is) ↦
                let made = mkdir_all target_dir d in
                rw (changed, ok, is)
                  (inr (
                    a,
                    (ground arith, refl),
                    extract-Contained h target_dir a made,
                    validators a (extract h target_dir a made).1 _
                        (extract-IsWhole target_dir a made),
                  ))
          ]
        ]
      ]

  -- downloadRemoteFiles, whatever the archive holds and whichever calls fail, but that the removal of a
  -- temporary file is taken to succeed. Either the disk is as it was, and the answer is a failure or the old validators; or the server answered 200 with an archive.
  -- Then each path is as it was, or it begins with the directory's name and a slash and holds the whole
  -- body of a regular member of which it is the target, or nothing; and the answer is a failure unless the archive was
  -- read to its end.
  pub download_remote_files-Updates :
      (nanos source target_dir last_etag last_modified : Bytes) (d : Disk)
      → Updates target_dir
          (last_etag, last_modified)
          (h.serve (request_for source last_etag last_modified))
          d
          (download_remote_files h nanos source target_dir last_etag last_modified d)
  unfolding download_remote_files
  download_remote_files-Updates nanos source target_dir last_etag last_modified d =
      take_reply-Updates nanos target_dir last_etag last_modified
        (h.serve (request_for source last_etag last_modified)) d
