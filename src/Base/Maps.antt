-- ===== src/Base/Maps.antt =====
-- `std::map` with numbers as keys, as a list by ascending keys.
use Prim.Native.Nat.{ℕ}
use mathlib.Core.Path.{◌≡◌, refl}
use mathlib.Core.Option.{Option, none, some}
use mathlib.Core.List.{List, [], ◌∷◌}
use native.Mathlib.Omega.{arith}
use twincam.Base.Tests.{ltb, ◌==◌, if◌then◌else◌}

module _ {ℓ} {V : Type ℓ} where
  -- `m[k] = v`
  unfoldable pub map_insert : ℕ → V → List (ℕ × V) → List (ℕ × V)
  map_insert k v [] = (k, v) ∷ []
  map_insert k v ((j, w) ∷ m) =
      if k == j
      then (k, v) ∷ m
      else if ltb k j
      then (k, v) ∷ (j, w) ∷ m
      else (j, w) ∷ map_insert k v m

  -- `m.find(k)`
  unfoldable pub map_find : ℕ → List (ℕ × V) → Option V
  map_find k [] = none
  map_find k ((j, w) ∷ m) = if k == j then some w else map_find k m

  pub map_find-map_insert :
      (k j : ℕ) (v : V) (m : List (ℕ × V))
      → map_find j (map_insert k v m) ≡ (if j == k then some v else map_find j m)
  unfolding map_insert map_find
  map_find-map_insert k j v [] = refl
  map_find-map_insert k j v ((i, w) ∷ m) = ground (arith, map_find-map_insert k j v m)
