-- ===== src/Base/Map.antt =====
-- A Go map as an association list. Every entry under a key goes when the key is deleted or
-- assigned, so the laws of `get` need no condition. The order of the list stands for the order
-- of one iteration, which Go leaves open.

use mathlib.Core.List.{List, [], ◌∷◌}
use mathlib.Core.Logic.{◌≢◌, ite}
use mathlib.Core.Option.{Option, none, some}
use mathlib.Core.Path.{◌≡◌}
use native.Mathlib.Omega.{arith}

abbrev pub Map {ℓ} : Type ℓ → Type ℓ → Type ℓ
Map K V = List (K × V)

module _ {ℓ} {K V : Type ℓ} (dec : Discrete K) where
  unfoldable pub get : K → Map K V → Option V
  get k [] = none
  get k ((j, v) ∷ m) = ite (dec k j) (some v) (get k m)

  unfoldable pub delete : K → Map K V → Map K V
  delete k [] = []
  delete k ((j, v) ∷ m) = ite (dec k j) (delete k m) ((j, v) ∷ delete k m)

  unfoldable pub put : K → V → Map K V → Map K V
  put k v m = (k, v) ∷ delete k m

  pub get-delete : (j k : K) (m : Map K V) → get j (delete k m) ≡ ite (dec j k) none (get j m)
  unfolding get delete
  get-delete j k [] = ground arith
  get-delete j k ((i, v) ∷ m) = ground (arith, get-delete j k m)

  pub get-put :
      (j k : K) (v : V) (m : Map K V) → get j (put k v m) ≡ ite (dec j k) (some v) (get j m)
  unfolding get put
  get-put j k v m = ground (arith, get-delete j k m)

  -- No key stands twice.
  abbrev pub Absent : K → Map K V → Type ℓ
  Absent k [] = Unit
  Absent k ((j, v) ∷ m) = (k ≢ j) × Absent k m

  abbrev pub Distinct : Map K V → Type ℓ
  Distinct [] = Unit
  Distinct ((k, v) ∷ m) = Absent k m × Distinct m
