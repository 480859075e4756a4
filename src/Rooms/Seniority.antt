-- ===== src/Rooms/Seniority.antt =====
-- The order of seniority by which roomManager.js chooses an heir.
use relay_chatapp.Base.{
  ℕ, ◌≤◌, ◌≡◌, inl, inr, List, [], ◌∷◌, Text, All, In, Bool-cases, ◌⊎◌, leb, arith,
}
use relay_chatapp.Rooms.Leave.{insert_by_time, sort_by_time}

abbrev pub Later : Text × ℕ → List (Text × ℕ) → Type 0
Later e = All (λ f. e.1 ≤ f.1)

Later-insert :
    (e f : Text × ℕ) (l : List (Text × ℕ)) → e.1 ≤ f.1 → Later e l → Later e (insert_by_time f l)
unfolding insert_by_time
Later-insert e f [] h k = (h, tt)
Later-insert e f (g ∷ l) h k = ground (arith, Later-insert e f l)

Later-trans : (e f : Text × ℕ) (l : List (Text × ℕ)) → e.1 ≤ f.1 → Later f l → Later e l
Later-trans e f [] h k = tt
Later-trans e f (g ∷ l) h k = (omega arith, Later-trans e f l h k.1)

-- The head of a list is not later than the rest.
abbrev pub IsLeastFirst : List (Text × ℕ) → Type 0
IsLeastFirst [] = Unit
IsLeastFirst (e ∷ l) = Later e l

insert-IsLeastFirst :
    (e : Text × ℕ) (l : List (Text × ℕ)) → IsLeastFirst l → IsLeastFirst (insert_by_time e l)
unfolding insert_by_time
insert-IsLeastFirst e [] h = tt
insert-IsLeastFirst e (f ∷ l) h = ground (arith, Later-trans e f l, Later-insert f e l)

pub sort-IsLeastFirst : (l : List (Text × ℕ)) → IsLeastFirst (sort_by_time l)
unfolding sort_by_time
sort-IsLeastFirst [] = tt
sort-IsLeastFirst (e ∷ l) = insert-IsLeastFirst e (sort_by_time l) (sort-IsLeastFirst l)

In-insert : (x e : Text × ℕ) (l : List (Text × ℕ)) → In x (insert_by_time e l) → (x ≡ e) ⊎ In x l
unfolding insert_by_time
In-insert x e [] h = ground arith
In-insert x e (f ∷ l) h = ground (arith, In-insert x e l)

pub In-sort : (x : Text × ℕ) (l : List (Text × ℕ)) → In x (sort_by_time l) → In x l
unfolding sort_by_time
In-sort x [] h = h
In-sort x (e ∷ l) h = elim (In-insert x e (sort_by_time l) h) [
  | inl q ↦ inl q
  | inr r ↦ inr (In-sort x l r)
]

All-insert :
    (P : Text × ℕ → Type 0) (e : Text × ℕ) (l : List (Text × ℕ))
    → All P (insert_by_time e l)
    → P e × All P l
unfolding insert_by_time
All-insert P e [] h = h
All-insert P e (f ∷ l) h = elim (Bool-cases (leb e.1 f.1)) [
  | inl t ↦ let k = rw t at h in (k.0, k.1)
  | inr t ↦ let k = rw t at h in let (p, q) = All-insert P e l k.1 in (p, (k.0, q))
]

pub All-sort : (P : Text × ℕ → Type 0) (l : List (Text × ℕ)) → All P (sort_by_time l) → All P l
unfolding sort_by_time
All-sort P [] h = h
All-sort P (e ∷ l) h = let (p, q) = All-insert P e (sort_by_time l) h in (p, All-sort P l q)
