-- ===== src/Base/Lists.antt =====
-- Lists measured by native numbers, and membership and removal by a decision on the elements:
-- a JavaScript `Set` in its insertion order.
use Prim.Native.Nat.{ℕ, suc, ◌+◌, ◌≤◌}
use mathlib.Core.Path.{◌≡◌, refl}
use mathlib.Core.Bool.{Bool, true, false, ◌&&◌, not}
use mathlib.Core.Logic.{◌⊎◌, inl, inr}
use mathlib.Core.List.{List, [], ◌∷◌, ◌++◌}
use native.Mathlib.Omega.{arith}
use relay_chatapp.Base.Tests.{if◌then◌else◌, Bool-cases}

module _ {ℓ} {A : Type ℓ} where
  abbrev pub length : List A → ℕ
  length [] = 0
  length (x ∷ xs) = suc (length xs)

  pub length-append : (xs ys : List A) → length (xs ++ ys) ≡ length xs + length ys
  length-append [] ys = omega arith
  length-append (x ∷ xs) ys = omega (arith, length-append xs ys)

  -- `xs.filter(p)`
  unfoldable pub keep : (A → Bool) → List A → List A
  keep p [] = []
  keep p (x ∷ xs) = let rest = keep p xs in if p x then x ∷ rest else rest

  pub keep-append : (p : A → Bool) (xs ys : List A) → keep p (xs ++ ys) ≡ keep p xs ++ keep p ys
  unfolding keep
  keep-append p [] ys = refl
  keep-append p (x ∷ xs) ys = ground (arith, keep-append p xs ys)

  abbrev pub All {κ} : (A → Type κ) → List A → Type κ
  All P [] = Unit
  All P (x ∷ xs) = P x × All P xs

module _ {ℓ} {A : Type ℓ} (dec : Discrete A) where
  -- `set.has(a)`
  unfoldable pub contains : A → List A → Bool
  contains a [] = false
  contains a (x ∷ xs) = elim (dec a x) [ yes _ ↦ true | no _ ↦ contains a xs ]

  -- `set.add(a)`: a new element goes to the end
  unfoldable pub add : A → List A → List A
  add a [] = a ∷ []
  add a (x ∷ xs) = elim (dec a x) [ yes _ ↦ x ∷ xs | no _ ↦ x ∷ add a xs ]

  -- `set.delete(a)`
  unfoldable pub remove : A → List A → List A
  remove a [] = []
  remove a (x ∷ xs) = elim (dec a x) [ yes _ ↦ remove a xs | no _ ↦ x ∷ remove a xs ]

  pub contains-add :
      (a b : A) (xs : List A)
      → contains b (add a xs) ≡ (elim (dec b a) [ yes _ ↦ true | no _ ↦ contains b xs ])
  unfolding contains add
  contains-add a b [] = refl
  contains-add a b (x ∷ xs) = ground (arith, contains-add a b xs)

  pub contains-remove :
      (a b : A) (xs : List A)
      → contains b (remove a xs) ≡ (elim (dec b a) [ yes _ ↦ false | no _ ↦ contains b xs ])
  unfolding contains remove
  contains-remove a b [] = ground arith
  contains-remove a b (x ∷ xs) = ground (arith, contains-remove a b xs)

  pub length-remove-le : (a : A) (xs : List A) → length (remove a xs) ≤ length xs
  unfolding remove
  length-remove-le a [] = omega arith
  length-remove-le a (x ∷ xs) = ground (arith, length-remove-le a xs)

  -- no element stands twice
  unfoldable pub distinct : List A → Bool
  unfolding contains
  distinct [] = true
  distinct (x ∷ xs) = let rest = distinct xs in not (contains x xs) && rest

-- `a` stands in the list
module _ {A : Type 0} where
  abbrev pub In : A → List A → Type 0
  In a [] = ⊥
  In a (x ∷ xs) = (a ≡ x) ⊎ In a xs

  pub In-keep : (p : A → Bool) (a : A) (xs : List A) → In a (keep p xs) → In a xs × (p a ≡ true)
  unfolding keep
  In-keep p a [] h = elim h [ ]
  In-keep p a (x ∷ xs) h = ground (arith, In-keep p a xs)

  pub All-keep :
      (P : A → Type 0) (p : A → Bool) (xs : List A)
      → All P (keep p xs)
      → All (λ a. p a ≡ true → P a) xs
  unfolding keep
  All-keep P p [] h = tt
  All-keep P p (x ∷ xs) h = elim (Bool-cases (p x)) [
    | inl e ↦ let k = rw e at h in ((λ _. k.0), All-keep P p xs k.1)
    | inr e ↦ let k = rw e at h in ((λ t. absurd (ground arith)), All-keep P p xs k)
  ]
