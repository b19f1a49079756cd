-- ===== src/Updater/Writing.antt =====
-- The function of downloadRemoteFiles in cmd/nextpath-engine/main.go that writes one file.
use next_path.Base.{
  ◌&&◌, [], ite, Option, none, some, ◌≡◌, ◌⊎◌, inl, inr, refl, ◌∙◌, ltb, Bool-cases, Option-cases,
  if_pos, if_neg,
}
use next_path.Net.{Bytes, Bytes-discrete}
use next_path.Disk.{Disk, read, write, remove, mkdir_all, read-write, cleaned, cleaned_twice}
use next_path.Updater.{Entry, Host, max_size, tmp_path, write_file}

module _ (h : Host) where
  -- One path, after the function that writes a file.
  abbrev pub Left : Bytes → Option Bytes → Bytes → Disk → Disk → Type 0
  Left target body q d after =
      (read q after ≡ read q d)
      ⊎ (((q ≡ tmp_path target) × (read q after ≡ none))
          ⊎ ((q ≡ target) × ((x : Bytes) × (body ≡ some x) × (read q after ≡ some x))))

  Left-removed :
      (target : Bytes) (body : Option Bytes) (q : Bytes) (d after : Disk)
      → read q after ≡ ite (Bytes-discrete q (tmp_path target)) none (read q d)
      → Left target body q d after
  Left-removed target body q d after h' = elim (Bytes-discrete q (tmp_path target)) [
    | yes s ↦ inr (inl (s, rw (if_pos _ s) at h'))
    | no n ↦ inl (rw (if_neg _ n) at h')
  ]

  Left-written :
      (target : Bytes) (body : Option Bytes) (x q : Bytes) (d cleared : Disk)
      → body ≡ some x
      → read q cleared ≡ ite (Bytes-discrete q (tmp_path target)) none (read q d)
      → Left target body q d (write target x cleared)
  Left-written target body x q d cleared is h' =
      let w = read-write q target x cleared in
      elim (Bytes-discrete q target) [
        | yes s ↦ inr (inr (s, (x, is, rw (if_pos _ s) at w)))
        | no n ↦ Left-removed target body q d (write target x cleared) ((rw (if_neg _ n) at w) ∙ h')
      ]

  module _ (target : Bytes) (body : Option Bytes) (q : Bytes) (d : Disk) where
    made : Disk
    made = mkdir_all (h.dir target) d

    dropped : Disk
    unfolding made
    dropped = remove (tmp_path target) (write (tmp_path target) [] made)

    filled : Bytes → Disk
    unfolding made
    filled x =
        remove (tmp_path target) (write (tmp_path target) x (write (tmp_path target) [] made))

    dropped-Left : Left target body q d dropped
    unfolding dropped made
    dropped-Left = Left-removed target body q d dropped (cleaned q (tmp_path target) [] made)

    filled-Left : (x : Bytes) → Left target body q d (filled x)
    unfolding filled made
    filled-Left x =
        Left-removed target body q d (filled x) (cleaned_twice q (tmp_path target) x [] made)

    written-Left : (x : Bytes) → body ≡ some x → Left target body q d (write target x (filled x))
    unfolding filled made
    written-Left x is =
        Left-written target body x q d (filled x) is (cleaned_twice q (tmp_path target) x [] made)

  pub write_file-Left :
      (target : Bytes) (e : Entry) (q : Bytes) (d : Disk)
      → Left target e.body q d (write_file h target e d).0
  unfolding write_file dropped filled made
  write_file-Left target e q d =
      let c = h.calls target in
      elim (Bool-cases c.opens) [
        | inr refused ↦ rw refused (inl refl)
        | inl opened ↦ elim (Bool-cases (ltb max_size e.size)) [
          | inl large ↦ rw (opened, large) (dropped-Left target e.body q d)
          | inr small ↦ elim (Option-cases e.body) [
            | inl cut ↦ rw (opened, small, cut) (dropped-Left target none q d)
            | inr (x, body) ↦ elim (Bool-cases (c.syncs && c.closes && c.renames)) [
              | inr failed ↦ rw (opened, small, body, failed) (filled-Left target (some x) q d x)
              | inl fine ↦ rw (opened, small, body, fine) (written-Left target (some x) q d x refl)
            ]
          ]
        ]
      ]
