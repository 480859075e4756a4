-- ===== src/Base/Table.antt =====
-- A JavaScript `Map` as an association list in its insertion order.
use mathlib.Core.Path.{◌≡◌, refl}
use mathlib.Core.Option.{Option, none, some}
use mathlib.Core.List.{List, [], ◌∷◌}
use native.Mathlib.Omega.{arith}

module _ {ℓ κ} {K : Type ℓ} {V : Type κ} (dec : Discrete K) where
  -- `map.get(k)`
  unfoldable pub get : K → List (K × V) → Option V
  get k [] = none
  get k ((j, v) ∷ m) = elim (dec k j) [ yes _ ↦ some v | no _ ↦ get k m ]

  -- `map.set(k, v)`: in place for an old key, at the end for a new one
  unfoldable pub put : K → V → List (K × V) → List (K × V)
  put k v [] = (k, v) ∷ []
  put k v ((j, w) ∷ m) = elim (dec k j) [ yes _ ↦ (j, v) ∷ m | no _ ↦ (j, w) ∷ put k v m ]

  -- `map.delete(k)`
  unfoldable pub drop_key : K → List (K × V) → List (K × V)
  drop_key k [] = []
  drop_key k ((j, w) ∷ m) = elim (dec k j) [ yes _ ↦ drop_key k m | no _ ↦ (j, w) ∷ drop_key k m ]

  pub get-put :
      (k q : K) (v : V) (m : List (K × V))
      → get q (put k v m) ≡ (elim (dec q k) [ yes _ ↦ some v | no _ ↦ get q m ])
  unfolding get put
  get-put k q v [] = refl
  get-put k q v ((j, w) ∷ m) = ground (arith, get-put k q v m)

  pub get-drop_key :
      (k q : K) (m : List (K × V))
      → get q (drop_key k m) ≡ (elim (dec q k) [ yes _ ↦ none | no _ ↦ get q m ])
  unfolding get drop_key
  get-drop_key k q [] = ground arith
  get-drop_key k q ((j, w) ∷ m) = ground (arith, get-drop_key k q m)
