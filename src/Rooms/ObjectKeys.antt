-- ===== src/Rooms/ObjectKeys.antt =====
-- The keys of the objects that toRoomStoreRecord of roomManager.js makes of Maps.
use relay_chatapp.Base.{
  ◌≡◌, ◌≢◌, refl, sym, none, some, List, [], ◌∷◌, map, Text, text_dec, trim, get, arith, if_cases,
  dec_cases,
}
use relay_chatapp.Rooms.Objects.{array_index, precedes, proto, place, to_object}

abbrev pub keys {ℓ} : {V : Type ℓ} → List (Text × V) → List Text
keys = map (λ e. e.0)

abbrev pub AllTrimmed : List Text → Type 0
AllTrimmed [] = Unit
AllTrimmed (u ∷ us) = (trim u ≡ u) × AllTrimmed us

-- `u` is not in the list
abbrev pub IsNew : Text → List Text → Type 0
IsNew u [] = Unit
IsNew u (v ∷ us) = (u ≢ v) × IsNew u us

abbrev pub IsDistinct : List Text → Type 0
IsDistinct [] = Unit
IsDistinct (u ∷ us) = IsNew u us × IsDistinct us

module _ {V : Type 0} where
  IsNew-place :
      (u : Text) (e : Text × V) (object : List (Text × V))
      → u ≢ e.0
      → IsNew u (keys object)
      → IsNew u (keys (place e object))
  unfolding place
  IsNew-place u e [] apart new = (apart, tt)
  IsNew-place u e (f ∷ object) apart new =
      if_cases (λ (m : List (Text × V)). IsNew u (keys m))
        (precedes (array_index e.0) (array_index f.0)) (λ _. (apart, new))
        (λ _. (new.0, IsNew-place u e object apart new.1))

  IsDistinct-place :
      (e : Text × V) (object : List (Text × V))
      → IsNew e.0 (keys object)
      → IsDistinct (keys object)
      → IsDistinct (keys (place e object))
  unfolding place
  IsDistinct-place e [] new d = (tt, tt)
  IsDistinct-place e (f ∷ object) new d =
      if_cases (λ (m : List (Text × V)). IsDistinct (keys m))
        (precedes (array_index e.0) (array_index f.0)) (λ _. (new, d))
        (λ _. (
          IsNew-place f.0 e object (λ same. new.0 (sym same)) d.0,
          IsDistinct-place e object new.1 d.1,
        ))

  AllTrimmed-place :
      (e : Text × V) (object : List (Text × V))
      → trim e.0 ≡ e.0
      → AllTrimmed (keys object)
      → AllTrimmed (keys (place e object))
  unfolding place
  AllTrimmed-place e [] h t = (h, tt)
  AllTrimmed-place e (f ∷ object) h t =
      if_cases (λ (m : List (Text × V)). AllTrimmed (keys m))
        (precedes (array_index e.0) (array_index f.0)) (λ _. (h, t))
        (λ _. (t.0, AllTrimmed-place e object h t.1))

  get-place :
      (q : Text) (e : Text × V) (object : List (Text × V))
      → IsNew e.0 (keys object)
      → get text_dec q (place e object)
        ≡ (elim (text_dec q e.0) [ yes _ ↦ some e.1 | no _ ↦ get text_dec q object ])
  unfolding place get
  get-place q e [] new = refl
  get-place q e (f ∷ object) new = ground (arith, new.0, get-place q e object new.1)

  IsNew-to_object :
      (u : Text) (m : List (Text × V)) → IsNew u (keys m) → IsNew u (keys (to_object m))
  unfolding to_object
  IsNew-to_object u [] new = tt
  IsNew-to_object u ((key, v) ∷ m) new =
      dec_cases (λ (l : List (Text × V)). IsNew u (keys l)) (text_dec key proto)
        (λ _. IsNew-to_object u m new.1)
        (λ _. IsNew-place u (key, v) (to_object m) new.0 (IsNew-to_object u m new.1))

  pub IsDistinct-to_object :
      (m : List (Text × V)) → IsDistinct (keys m) → IsDistinct (keys (to_object m))
  unfolding to_object
  IsDistinct-to_object [] d = tt
  IsDistinct-to_object ((key, v) ∷ m) d =
      dec_cases (λ (l : List (Text × V)). IsDistinct (keys l)) (text_dec key proto)
        (λ _. IsDistinct-to_object m d.1)
        (λ _.
          IsDistinct-place (key, v) (to_object m) (IsNew-to_object key m d.0)
            (IsDistinct-to_object m d.1))

  pub AllTrimmed-to_object :
      (m : List (Text × V)) → AllTrimmed (keys m) → AllTrimmed (keys (to_object m))
  unfolding to_object
  AllTrimmed-to_object [] t = tt
  AllTrimmed-to_object ((key, v) ∷ m) t =
      dec_cases (λ (l : List (Text × V)). AllTrimmed (keys l)) (text_dec key proto)
        (λ _. AllTrimmed-to_object m t.1)
        (λ _. AllTrimmed-place (key, v) (to_object m) t.0 (AllTrimmed-to_object m t.1))

  -- The object has what the map has under each key but `__proto__`.
  pub get-to_object :
      (q : Text) (m : List (Text × V))
      → IsDistinct (keys m)
      → get text_dec q (to_object m)
        ≡ (elim (text_dec q proto) [ yes _ ↦ none | no _ ↦ get text_dec q m ])
  unfolding to_object get
  get-to_object q [] d = ground arith
  get-to_object q ((key, v) ∷ m) d =
      ground (
        arith,
        get-to_object q m d.1,
        get-place q (key, v) (to_object m) (IsNew-to_object key m d.0),
      )
