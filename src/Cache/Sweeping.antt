-- ===== src/Cache/Sweeping.antt =====
-- The removal of cached files in downloadSources of internal/parser/compiler.go.
use mathlib.Core.List.{reverse-append}
use mathlib.Core.List.Memᴰ
use mathlib.Core.List.{Memᴰ}
use next_path.Base.{
  ℕ, Bool, true, false, ◌&&◌, ◌||◌, List, [], ◌∷◌, ◌++◌, none, some, ◌≡◌, ◌≢◌, inl, inr, refl, ap,
  subst, ◌∙◌, arith, Bool-cases, if_pos, if_neg, reverse, if◌then◌else◌, ◌==◌,
}
use next_path.Base.Map
use next_path.Base.Map.{Map}
use next_path.Cache.Fetching.{discard-other}
use next_path.Cache.{Web, meta_path, member_of, txt, texts_in, sweep, discard}
use next_path.Disk.{Disk, read, read-remove}
use next_path.Domains.{has_suffix, has_prefix}
use next_path.Net.{Bytes, Bytes-discrete}
use next_path.Text.{codes}
use next_path.Updater.{same}

-- Names that end in `.txt` are neither a `.meta` nor a temporary file.
pub ends_other :
    (p s : Bytes) (c : ℕ) (r : Bytes)
    → reverse s ≡ c ∷ r
    → (c == 116) ≡ false
    → has_suffix (p ++ s) txt ≡ false
unfolding has_prefix
ends_other p s c r e n = rw (reverse-append p s, e, n) refl

pub meta-plain : (p q : Bytes) → has_suffix q txt ≡ true → q ≢ meta_path p
meta-plain p q h e =
    let other = ends_other p (codes ".meta") 97 _ refl refl in absurd (cc (rw e at h))

member_of-same :
    (q p : Bytes) (ps : List Bytes) → member_of q (p ∷ ps) ≡ (same q p || member_of q ps)
member_of-same q p ps = refl

-- One path of the sweep.
sweep_at :
    (w : Web) (active paths : List Bytes) (p : Bytes) (d : Disk) (b : Bool)
    → member_of p active ≡ b
    → sweep w active (p ∷ paths) d
      ≡ sweep w active paths (if b then d else discard w (meta_path p) (discard w p d))
unfolding sweep
sweep_at w active paths p d b h =
    ap (λ x. sweep w active paths (if x then d else discard w (meta_path p) (discard w p d))) h

-- A file stays unless it is a path that is no active one.
pub sweep-other :
    (w : Web) (active paths : List Bytes) (q : Bytes) (d : Disk)
    → ((p : Bytes) → Memᴰ p paths → member_of p active ≡ false → q ≢ p)
    → has_suffix q txt ≡ true
    → read q (sweep w active paths d) ≡ read q d
unfolding sweep
sweep-other w active [] q d apart t = refl
sweep-other w active (p ∷ paths) q d apart t =
    let rest =
      λ (next : Disk). sweep-other w active paths q next (λ p m. apart p (Memᴰ.tail m)) t in
    elim (Bool-cases (member_of p active)) [
      | inl keep ↦ rw (sweep_at w active paths p d true keep) (rest d)
      | inr stale ↦ rw (sweep_at w active paths p d false stale) (
          rest (discard w (meta_path p) (discard w p d))
          ∙ (discard-other w q (meta_path p) (discard w p d) (meta-plain p q t)
              ∙ discard-other w q p d (apart p (Memᴰ.head refl) stale)))
    ]

-- What is gone stays gone, and a path that is no active one goes.
discard-none : (w : Web) (q p : Bytes) (d : Disk) → read q d ≡ none → read q (discard w p d) ≡ none
unfolding discard
discard-none w q p d h = elim (Bool-cases (w.removes p)) [
  | inl ok ↦ rw ok (ground (arith, read-remove q p d))
  | inr bad ↦ rw bad h
]

-- A file that cannot be removed stays.
pub sweep-kept :
    (w : Web) (active paths : List Bytes) (q : Bytes) (d : Disk)
    → w.removes q ≡ false
    → has_suffix q txt ≡ true
    → read q (sweep w active paths d) ≡ read q d
unfolding sweep discard
sweep-kept w active [] q d bad t = refl
sweep-kept w active (p ∷ paths) q d bad t =
    let rest = λ (next : Disk). sweep-kept w active paths q next bad t in
    elim (Bool-cases (member_of p active)) [
      | inl keep ↦ rw (sweep_at w active paths p d true keep) (rest d)
      | inr stale ↦ rw (sweep_at w active paths p d false stale) (
          rest (discard w (meta_path p) (discard w p d))
          ∙ (discard-other w q (meta_path p) (discard w p d) (meta-plain p q t)
              ∙ kept p (Bytes-discrete q p)))
    ]
  where
    kept : (p : Bytes) → Dec (q ≡ p) → read q (discard w p d) ≡ read q d
    kept p (no n) = discard-other w q p d n
    kept p (yes e) = rw (← e, discard, bad) refl

pub sweep-none :
    (w : Web) (active paths : List Bytes) (q : Bytes) (d : Disk)
    → read q d ≡ none
    → read q (sweep w active paths d) ≡ none
unfolding sweep
sweep-none w active [] q d h = h
sweep-none w active (p ∷ paths) q d h = elim (Bool-cases (member_of p active)) [
  | inl keep ↦ rw (sweep_at w active paths p d true keep) (sweep-none w active paths q d h)
  | inr stale ↦ rw (sweep_at w active paths p d false stale) (
      sweep-none w active paths q _
        (discard-none w q (meta_path p) (discard w p d) (discard-none w q p d h)))
]

pub sweep-gone :
    (w : Web) (active paths : List Bytes) (q : Bytes) (d : Disk)
    → w.removes q ≡ true
    → Memᴰ q paths
    → member_of q active ≡ false
    → read q (sweep w active paths d) ≡ none
unfolding sweep discard
sweep-gone w active [] q d ok m a = absurd (Memᴰ.not-nil m)
sweep-gone w active (p ∷ paths) q d ok m a = elim (Memᴰ.cases_cons m) [
  | inr later ↦ sweep-gone w active paths q _ ok later a
  | inl s ↦
      let removed : read q (discard w q d) ≡ none =
        rw (discard, ok) (read-remove q q d ∙ if_pos (Bytes-discrete q q) refl _ _) in
      let swept =
        sweep-none w active paths q _ (discard-none w q (meta_path q) (discard w q d) removed) in
      subst (λ x. read q (sweep w active (x ∷ paths) d) ≡ none) s
        (rw (sweep_at w active paths q d false a) swept)
]

module _ (w : Web) where
  -- The files of a tree.
  pub texts_in-inside :
      (dir p : Bytes) (files : Map Bytes Bytes)
      → Memᴰ p (texts_in w dir files)
      → w.inside dir p ≡ true
  unfolding texts_in
  texts_in-inside dir p [] m = absurd (Memᴰ.not-nil m)
  texts_in-inside dir p ((path, x) ∷ files) m =
      elim (Bool-cases (w.inside dir path && has_suffix path txt)) [
        | inr out ↦ texts_in-inside dir p files (rw out at m)
        | inl inside ↦ elim (Memᴰ.cases_cons (rw inside at m)) [
          | inl s ↦ let path_inside : w.inside dir path ≡ true = ground arith in rw s path_inside
          | inr later ↦ texts_in-inside dir p files later
        ]
      ]

  pub texts_in-member :
      (dir q x : Bytes) (files : Map Bytes Bytes)
      → Map.get Bytes-discrete q files ≡ some x
      → w.inside dir q ≡ true
      → has_suffix q txt ≡ true
      → Memᴰ q (texts_in w dir files)
  unfolding texts_in Map.get
  texts_in-member dir q x [] h inside t = absurd (cc)
  texts_in-member dir q x ((path, y) ∷ files) h inside t = elim (Bytes-discrete q path) [
    | yes s ↦
        let keep : (w.inside dir path && has_suffix path txt) ≡ true = rw (← s, inside, t) refl in
        rw keep (Memᴰ.head s)
    | no n ↦
        let later =
          texts_in-member dir q x files (rw (if_neg (Bytes-discrete q path) n) at h) inside t in
        elim (Bool-cases (w.inside dir path && has_suffix path txt)) [
          | inl keep ↦ rw keep (Memᴰ.tail later)
          | inr skip ↦ rw skip later
        ]
  ]
