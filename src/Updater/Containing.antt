-- ===== src/Updater/Containing.antt =====
-- The paths that downloadRemoteFiles of cmd/nextpath-engine/main.go changes.
use next_path.Base.{
  Bool, true, false, ◌∷◌, [], ◌++◌, none, some, ◌≡◌, ◌⊎◌, inl, inr, refl, ◌∙◌, Bool-cases,
}
use next_path.Domains.Topmost.{has_prefix_longer}
use next_path.Net.{Bytes}
use next_path.Text.{codes}
use next_path.Updater.Writing.{write_file-Left}
use next_path.Updater.{
  Archive, ended, broken, member, Entry, Kind, directory, regular, other, Host, write_file, extract,
  target_of, is_inside,
}
use next_path.Disk.{Disk, read, mkdir_all}

-- The entry is a member of the archive.
abbrev pub Holds : Archive → Entry → Type 0
Holds ended e = ⊥
Holds broken e = ⊥
Holds (member f rest) e = (e ≡ f) ⊎ Holds rest e

module _ (h : Host) where
  -- The path holds the whole body of a member whose target it is.
  abbrev pub Extracted : Bytes → Archive → Bytes → Disk → Type 0
  Extracted target_dir a q d =
      (e : Entry) × Holds a e
      × (e.kind ≡ regular)
      × (q ≡ target_of h target_dir e)
      × ((x : Bytes) × (e.body ≡ some x) × (read q d ≡ some x))

  -- A path is as it was; or it is inside the directory, and holds a member or nothing.
  abbrev pub Contained : Bytes → Archive → Disk → Disk → Type 0
  Contained target_dir a before after =
      (q : Bytes)
      → (read q after ≡ read q before)
        ⊎ ((is_inside h target_dir q ≡ true)
            × ((read q after ≡ none) ⊎ Extracted target_dir a q after))

  -- A path under a path inside.
  inside_longer :
      (target_dir target suffix : Bytes)
      → is_inside h target_dir target ≡ true
      → is_inside h target_dir (target ++ suffix) ≡ true
  inside_longer target_dir target suffix =
      has_prefix_longer target suffix (h.clean target_dir ++ 47 ∷ [])

  -- Members come after each other.
  Contained-trans :
      (target_dir : Bytes) (a b c : Archive) (d e f : Disk)
      → ((x : Entry) → Holds a x → Holds c x)
      → ((x : Entry) → Holds b x → Holds c x)
      → Contained target_dir a d e
      → Contained target_dir b e f
      → Contained target_dir c d f
  Contained-trans target_dir a b c d e f sub_a sub_b first second q = elim (second q) [
    | inr (inside, inl gone) ↦ inr (inside, inl gone)
    | inr (inside, inr (x, held, kind, at, there)) ↦
        inr (inside, inr (x, sub_b x held, kind, at, there))
    | inl same ↦ elim (first q) [
      | inl old ↦ inl (same ∙ old)
      | inr (inside, inl gone) ↦ inr (inside, inl (same ∙ gone))
      | inr (inside, inr (x, held, kind, at, (body, is, there))) ↦
          inr (inside, inr (x, sub_a x held, kind, at, (body, is, same ∙ there)))
    ]
  ]

  write_file-Contained :
      (target_dir : Bytes) (e : Entry) (rest : Archive) (d : Disk)
      → e.kind ≡ regular
      → is_inside h target_dir (target_of h target_dir e) ≡ true
      → Contained target_dir (member e rest) d (write_file h (target_of h target_dir e) e d).0
  write_file-Contained target_dir e rest d kind inside q =
      let target = target_of h target_dir e in
      elim (write_file-Left h target e q d) [
        | inl old ↦ inl old
        | inr (inl (tmp, gone)) ↦
            inr (rw tmp (inside_longer target_dir target (codes ".tmp") inside), inl gone)
        | inr (inr (at, written)) ↦ inr (rw at inside, inr (e, inl refl, kind, at, written))
      ]

  after_member :
      (target_dir : Bytes) (e : Entry) (rest : Archive) (d next final : Disk)
      → Contained target_dir (member e rest) d next
      → Contained target_dir rest next final
      → Contained target_dir (member e rest) d final
  after_member target_dir e rest d next final =
      Contained-trans target_dir (member e rest) rest (member e rest) d next final (λ x held. held)
        (λ x held. inr held)

  extract_written :
      (target_dir : Bytes) (e : Entry) (rest : Archive) (d : Disk) (r : Disk × Bool)
      → Contained target_dir (member e rest) d r.0
      → ((next : Disk) → Contained target_dir rest next (extract h target_dir rest next).0)
      → let final : Disk × Bool = elim r.1 [
        | true ↦ extract h target_dir rest r.0
        | false ↦ (r.0, false)
      ] in
        Contained target_dir (member e rest) d final.0
  extract_written target_dir e rest d (next, true) first later =
      after_member target_dir e rest d next (extract h target_dir rest next).0 first (later next)
  extract_written target_dir e rest d (next, false) first later = first

  extract_entered :
      (target_dir : Bytes) (e : Entry) (rest : Archive) (d : Disk) (kind : Kind)
      → e.kind ≡ kind
      → is_inside h target_dir (target_of h target_dir e) ≡ true
      → ((next : Disk) → Contained target_dir rest next (extract h target_dir rest next).0)
      → let written = write_file h (target_of h target_dir e) e d in
        let final : Disk × Bool = elim kind [
          | directory ↦ extract h target_dir rest (mkdir_all (target_of h target_dir e) d)
          | regular ↦ elim written.1 [
            | true ↦ extract h target_dir rest written.0
            | false ↦ (written.0, false)
          ]
          | other ↦ extract h target_dir rest d
        ] in
        Contained target_dir (member e rest) d final.0
  extract_entered target_dir e rest d directory is inside later =
      let made = mkdir_all (target_of h target_dir e) d in
      after_member target_dir e rest d made (extract h target_dir rest made).0 (λ q. inl refl)
        (later made)
  extract_entered target_dir e rest d regular is inside later =
      extract_written target_dir e rest d (write_file h (target_of h target_dir e) e d)
        (write_file-Contained target_dir e rest d is inside) later
  extract_entered target_dir e rest d other is inside later =
      after_member target_dir e rest d d (extract h target_dir rest d).0 (λ q. inl refl) (later d)

  pub extract-Contained :
      (target_dir : Bytes) (a : Archive) (d : Disk)
      → Contained target_dir a d (extract h target_dir a d).0
  unfolding extract
  extract-Contained target_dir ended d = λ q. inl refl
  extract-Contained target_dir broken d = λ q. inl refl
  extract-Contained target_dir (member e rest) d =
      elim (Bool-cases (is_inside h target_dir (target_of h target_dir e))) [
        | inr outside ↦ rw outside (
            after_member target_dir e rest d d (extract h target_dir rest d).0 (λ q. inl refl)
              (extract-Contained target_dir rest d))
        | inl inside ↦ rw inside (
            extract_entered target_dir e rest d e.kind refl inside
              (λ next. extract-Contained target_dir rest next))
      ]
