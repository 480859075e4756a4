-- ===== src/Base/Strings.antt =====
-- JavaScript strings as lists of code units, with `trim()` and `slice(0, n)`.
use Prim.Native.Char.{code}
use Prim.Native.String.{String}
use Prim.Native.Nat.{ℕ, zero, suc}
use mathlib.Core.Path.{◌≡◌, refl}
use mathlib.Core.Bool.{Bool, false, ◌&&◌, ◌||◌}
use mathlib.Core.List.{List, [], ◌∷◌}
use native.Mathlib.Omega.{arith}
use native.Mathlib.Decide.{ℕ_discrete}
use relay_chatapp.Base.Tests.{◌==◌, leb, if◌then◌else◌, Bool-cases}
use mathlib.Core.Logic.{inl, inr}

abbrev pub Text : Type 0
Text = List ℕ

abbrev pub codes : String → Text
codes String.[] = []
codes (String.◌∷◌ c s) = code c ∷ codes s

unfoldable pub text_dec : Discrete Text
text_dec = hlevel ℕ_discrete

-- The white space and line terminators that `trim` strips.
unfoldable pub is_space : ℕ → Bool
is_space c =
    (leb 9 c && leb c 13)
    || c == 32
    || c == 0xa0
    || c == 0x1680
    || (leb 0x2000 c && leb c 0x200a)
    || c == 0x2028
    || c == 0x2029
    || c == 0x202f
    || c == 0x205f
    || c == 0x3000
    || c == 0xfeff

trim_start : Text → Text
trim_start [] = []
trim_start (c ∷ s) = let rest = trim_start s in if is_space c then rest else c ∷ s

-- A character stays unless it and all that follows are white space.
trim_end : Text → Text
trim_end [] = []
trim_end (c ∷ s) = elim (trim_end s) [ [] ↦ if is_space c then [] else c ∷ [] | d ∷ t ↦ c ∷ d ∷ t ]

unfoldable pub trim : Text → Text
unfolding trim_start trim_end is_space
trim s = trim_end (trim_start s)

-- `s.slice(0, n)`
unfoldable pub slice_to : ℕ → Text → Text
slice_to zero s = []
slice_to (suc n) [] = []
slice_to (suc n) (c ∷ s) = c ∷ slice_to n s

trim_end_idem : (s : Text) → trim_end (trim_end s) ≡ trim_end s
unfolding trim_end
trim_end_idem [] = refl
trim_end_idem (c ∷ s) = ground (arith, trim_end_idem s)

-- the first character of a text trimmed at its start is no white space
abbrev StartsSolid : Text → Type 0
StartsSolid [] = Unit
StartsSolid (c ∷ s) = is_space c ≡ false

trim_start-solid : (s : Text) → StartsSolid (trim_start s)
unfolding trim_start
trim_start-solid [] = tt
trim_start-solid (c ∷ s) = elim (Bool-cases (is_space c)) [
  | inl e ↦ rw e (trim_start-solid s)
  | inr e ↦ rw e e
]

trim_end-solid : (s : Text) → StartsSolid s → StartsSolid (trim_end s)
unfolding trim_end
trim_end-solid [] h = tt
trim_end-solid (c ∷ s) h = go (trim_end s)
  where
    go :
        (t : Text)
        → StartsSolid (elim t [ [] ↦ if is_space c then [] else c ∷ [] | d ∷ u ↦ c ∷ d ∷ u ])
    go [] = rw h h
    go (d ∷ u) = h

trim_start_of_solid : (s : Text) → StartsSolid s → trim_start s ≡ s
unfolding trim_start
trim_start_of_solid [] h = refl
trim_start_of_solid (c ∷ s) h = rw h

pub trim_idem : (s : Text) → trim (trim s) ≡ trim s
unfolding trim
trim_idem s =
    rw (trim_start_of_solid _ (trim_end-solid _ (trim_start-solid s)))
      (trim_end_idem (trim_start s))
