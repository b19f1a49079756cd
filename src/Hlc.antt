-- ===== src/Hlc.antt =====
-- The hybrid logical clock of internal/dnsengine/ippool.go: GetNextVersion and ObserveVersion.
-- The wall clock is an argument. Both functions run under a lock, so a run of the clock is a list
-- of calls.
pub mod Order
use next_path.Base.{ℕ, ◌+◌, ◌%◌, ◌^◌, ltb, if◌then◌else◌, List, [], ◌∷◌, ◌++◌, ◌≡◌, refl}

-- `p.hlc` is a uint64.
abbrev pub u64_mod : ℕ
u64_mod = 2 ^ 64

-- `GetNextVersion`: the new clock, which is also the result.
unfoldable pub get_next_version : ℕ → ℕ → ℕ
get_next_version now hlc = if ltb hlc now then now else (hlc + 1) % u64_mod

-- `ObserveVersion`: the new clock.
unfoldable pub observe_version : ℕ → ℕ → ℕ → ℕ
observe_version v now hlc =
    let hlc' = if ltb hlc now then now else hlc in if ltb hlc' v then v else hlc'

-- One call by any goroutine, at wall-clock time `now`.
pub data Tick : Type 0 where
  issue : ℕ → Tick
  observe : ℕ → ℕ → Tick

unfoldable pub tick : Tick → ℕ → ℕ
tick (issue now) hlc = get_next_version now hlc
tick (observe v now) hlc = observe_version v now hlc

-- The versions issued by a run, first to last.
unfoldable pub issued : ℕ → List Tick → List ℕ
unfolding tick
issued hlc [] = []
issued hlc (issue now ∷ ts) = get_next_version now hlc ∷ issued (get_next_version now hlc) ts
issued hlc (observe v now ∷ ts) = issued (observe_version v now hlc) ts
