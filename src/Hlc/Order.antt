-- ===== src/Hlc/Order.antt =====
-- Versions of the hybrid logical clock (GetNextVersion and ObserveVersion in
-- internal/dnsengine/ippool.go) rise, as long as no uint64 overflows.
use next_path.Base.{ℕ, ◌+◌, ◌-◌, ◌≤◌, ◌<◌, List, [], ◌∷◌, ◌≡◌, arith, length, All}
use next_path.Hlc.{u64_mod, get_next_version, observe_version, Tick, issue, observe, issued}

-- The readings and the versions that a call brings in are at most `b`.
abbrev pub Within : ℕ → Tick → Type 0
Within b (issue now) = now ≤ b
Within b (observe v now) = (v ≤ b) × (now ≤ b)

-- Every entry is greater than the one before it, and the first than `lo`.
abbrev pub Rising : ℕ → List ℕ → Type 0
Rising lo [] = Unit
Rising lo (v ∷ vs) = (lo < v) × Rising v vs

Within-mono : (b : ℕ) (ts : List Tick) → All (Within b) ts → All (Within (b + 1)) ts
Within-mono b [] h = tt
Within-mono b (issue now ∷ ts) (h, hs) = (omega arith, Within-mono b ts hs)
Within-mono b (observe v now ∷ ts) (h, hs) = (omega arith, Within-mono b ts hs)

Rising-weaken : (a b : ℕ) (vs : List ℕ) → a ≤ b → Rising b vs → Rising a vs
Rising-weaken a b [] le h = tt
Rising-weaken a b (v ∷ vs) le (h, hs) = (omega arith, hs)

pub get_next_version-bounds :
    (now hlc b : ℕ)
    → hlc ≤ b
    → now ≤ b
    → b + 1 < u64_mod
    → (hlc < get_next_version now hlc) × (get_next_version now hlc ≤ b + 1)
unfolding get_next_version
get_next_version-bounds now hlc b h₁ h₂ h₃ = ground arith

pub observe_version-bounds :
    (v now hlc b : ℕ)
    → hlc ≤ b
    → now ≤ b
    → v ≤ b
    → (hlc ≤ observe_version v now hlc)
      × (v ≤ observe_version v now hlc)
      × (observe_version v now hlc ≤ b)
unfolding observe_version
observe_version-bounds v now hlc b h₁ h₂ h₃ = ground arith

-- In any run of calls whose readings, observed versions and starting clock are at most `b`, where `b` and the
-- number of calls stay below 2^64 together, the versions issued rise strictly, above the clock
-- that the run starts from.
pub issued-Rising :
    (b hlc : ℕ) (ts : List Tick)
    → hlc ≤ b
    → All (Within b) ts
    → b + length ts < u64_mod
    → Rising hlc (issued hlc ts)
unfolding issued
issued-Rising b hlc [] h w f = tt
issued-Rising b hlc (issue now ∷ ts) h (w, ws) f =
    let (lt, le) = get_next_version-bounds now hlc b h w (omega arith) in
    (lt, issued-Rising (b + 1) (get_next_version now hlc) ts le (Within-mono b ts ws) (omega arith))
issued-Rising b hlc (observe v now ∷ ts) h ((w, w'), ws) f =
    let (le, _, hi) = observe_version-bounds v now hlc b h w' w in
    Rising-weaken hlc (observe_version v now hlc) _ le
      (issued-Rising b (observe_version v now hlc) ts hi ws (omega arith))

-- A version issued after one was observed is greater than it, if that version, the two readings of
-- the wall clock and the clock are all below the last uint64.
observe-issue :
    (v now later hlc : ℕ)
    → v + 1 < u64_mod
    → now + 1 < u64_mod
    → later + 1 < u64_mod
    → hlc + 1 < u64_mod
    → v < get_next_version later (observe_version v now hlc)
unfolding get_next_version observe_version
observe-issue v now later hlc h₁ h₂ h₃ h₄ = ground arith

-- Once the last uint64 has been observed, the next version issued is 0, whatever the clocks say:
-- it is smaller than every version issued before.
pub observe_last-wraps :
    (now later hlc : ℕ)
    → now < u64_mod
    → later < u64_mod
    → hlc < u64_mod
    → get_next_version later (observe_version (u64_mod - 1) now hlc) ≡ 0
unfolding get_next_version observe_version
observe_last-wraps now later hlc h₁ h₂ h₃ = ground arith
