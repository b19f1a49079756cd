-- ===== src/Sync/Pinning.antt =====
-- The certificates that tryConnect of internal/dnsengine/sync.go takes where it pins them.
use mathlib.Core.List.Memᴰ
use mathlib.Core.List.{Memᴰ}
use next_path.Base.{
  Bool, true, false, not, ◌&&◌, ◌||◌, List, [], ◌∷◌, Option, none, some, ◌≡◌, ◌⊎◌, ◌↔◌, inl, inr,
  refl, if_pos, if_neg, arith, ◌==◌, length, if◌then◌else◌, Bool-cases,
}
use mathlib.Core.Option.{some-injective}
use next_path.Net.{Bytes, Bytes-discrete}
use next_path.Sync.Dialing.{accepts_peer, verify_peer, matches, is_pinning, skips_verify}
use next_path.Sync.Peers.{equal}

equal→same : (a b : Bytes) → equal a b ≡ true → a ≡ b
equal→same a b h = elim (Bytes-discrete a b) [
  | yes e ↦ e
  | no n ↦ absurd (cc (rw (if_neg (Bytes-discrete a b) n true false) at h))
]

pub same→equal : (a b : Bytes) → a ≡ b → equal a b ≡ true
same→equal a b e = if_pos (Bytes-discrete a b) e true false

matches_iff : (hash : Bytes) (fps : List Bytes) → (matches hash fps ≡ true) ↔ Memᴰ hash fps
unfolding matches
matches_iff hash [] = (λ h. absurd (cc), λ m. absurd (Memᴰ.not-nil m))
matches_iff hash (fp ∷ fps) = elim (Bool-cases (equal hash fp)) [
  | inl e ↦ rw e (λ h. Memᴰ.head (equal→same hash fp e), λ m. refl)
  | inr n ↦ rw n (
    λ h. Memᴰ.tail ((matches_iff hash fps).0 h),
    λ m. elim (Memᴰ.cases_cons m) [
      | inl s ↦ absurd (cc (same→equal hash fp s))
      | inr later ↦ (matches_iff hash fps).1 later
    ],
  )
]

-- The first certificate of a peer is one of the fingerprints.
abbrev pub IsPinned : List Bytes → Option Bytes → Type 0
IsPinned fps hash = (h : Bytes) × (hash ≡ some h) × Memᴰ h fps

verify_peer_iff :
    (fps : List Bytes) (hash : Option Bytes) → (verify_peer fps hash ≡ true) ↔ IsPinned fps hash
unfolding verify_peer
verify_peer_iff fps none = (λ h. absurd (cc), λ (h, e, m). absurd (cc))
verify_peer_iff fps (some hash) = (
  λ h. (hash, refl, (matches_iff hash fps).0 h),
  λ (h, e, m). (matches_iff hash fps).1 (Memᴰ.cast (some-injective _ _ e) m),
)

-- The tests, where certificates are pinned; `empty` says that there is no fingerprint.
pinned_test :
    (skips pins trusted empty verified : Bool)
    → pins ≡ true
    → (if skips || pins
        then (if pins && not empty then verified else true)
        else trusted && (if pins && not empty then verified else true))
      ≡ (if empty then true else verified)
pinned_test true true trusted true verified h = refl
pinned_test true true trusted false verified h = refl
pinned_test false true trusted true verified h = refl
pinned_test false true trusted false verified h = refl
pinned_test skips false trusted empty verified h = absurd (cc)

accepts_peer-pinned :
    (val : Bytes) (fps : List Bytes) (trusted : Bool) (hash : Option Bytes)
    → is_pinning val ≡ true
    → accepts_peer val fps trusted hash ≡ (if length fps == 0 then true else verify_peer fps hash)
unfolding accepts_peer
accepts_peer-pinned val fps trusted hash pins =
    pinned_test (skips_verify val) (is_pinning val) trusted (length fps == 0) (verify_peer fps hash)
      pins

-- With certificates pinned, a dial takes a peer exactly if the digest of its first certificate is one
-- of the fingerprints, or if there is no fingerprint at all: then it takes any peer, whatever the tls
-- package says of it.
pub accepts_peer_iff :
    (val : Bytes) (fps : List Bytes) (trusted : Bool) (hash : Option Bytes)
    → is_pinning val ≡ true
    → (accepts_peer val fps trusted hash ≡ true) ↔ ((fps ≡ []) ⊎ IsPinned fps hash)
accepts_peer_iff val [] trusted hash pins =
    rw (accepts_peer-pinned val [] trusted hash pins) (λ h. inl refl, λ h. refl)
accepts_peer_iff val (fp ∷ fps) trusted hash pins =
    let (to, from) = verify_peer_iff (fp ∷ fps) hash in
    rw (accepts_peer-pinned val (fp ∷ fps) trusted hash pins, counted fps)
      (
        λ h. inr (to h),
        λ h. elim h [ inl empty ↦ absurd (nonempty empty) | inr pinned ↦ from pinned ],
      )
  where
    counted : (fps : List Bytes) → (length (fp ∷ fps) == 0) ≡ false
    counted fps = ground arith

    nonempty : fp ∷ fps ≡ [] → ⊥
    nonempty e = absurd (cc)
