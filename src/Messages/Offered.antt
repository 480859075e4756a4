-- ===== src/Messages/Offered.antt =====
-- What getUndeliveredMessagesSync of backend/storage/message.store.js gives: a waiting row is in
-- it, if the limit leaves room for all.
use relay_chatapp.Base.{
  ◌≡◌, ◌⊎◌, refl, ap, ◌∙◌, ℕ, zero, suc, ◌≤◌, Bool, true, Option, some, List, [], ◌∷◌, Text,
  text_dec, get, keep, map, length, In, In-keep, inl, inr, Bool-cases, arith,
}
use relay_chatapp.Messages.Rows.{Db, Row, get_message}
use relay_chatapp.Messages.Queries.{
  rows_of, insert_row, sort_rows, first_rows, by_id, is_undelivered, get_undelivered_messages,
}

In-insert_row :
    (before : Row → Row → Bool) (a r : Row) (l : List Row)
    → (a ≡ r) ⊎ In a l
    → In a (insert_row before r l)
unfolding insert_row
In-insert_row before a r [] h = h
In-insert_row before a r (q ∷ l) h = elim (Bool-cases (before r q)) [
  | inl e ↦ rw e h
  | inr e ↦ rw e (elim h [
    | inl same ↦ inr (In-insert_row before a r l (inl same))
    | inr (inl same) ↦ inl same
    | inr (inr deep) ↦ inr (In-insert_row before a r l (inr deep))
  ])
]

In-sort_rows :
    (before : Row → Row → Bool) (a : Row) (l : List Row) → In a l → In a (sort_rows before l)
unfolding sort_rows
In-sort_rows before a [] h = h
In-sort_rows before a (r ∷ l) (inl e) = In-insert_row before a r (sort_rows before l) (inl e)
In-sort_rows before a (r ∷ l) (inr h) =
    In-insert_row before a r (sort_rows before l) (inr (In-sort_rows before a l h))

length-insert_row :
    (before : Row → Row → Bool) (r : Row) (l : List Row)
    → length (insert_row before r l) ≡ suc (length l)
unfolding insert_row
length-insert_row before r [] = refl
length-insert_row before r (q ∷ l) = ground (arith, length-insert_row before r l)

pub length-sort_rows :
    (before : Row → Row → Bool) (l : List Row) → length (sort_rows before l) ≡ length l
unfolding sort_rows
length-sort_rows before [] = refl
length-sort_rows before (r ∷ l) =
    length-insert_row before r (sort_rows before l) ∙ ap suc (length-sort_rows before l)

pub first_rows_all : (n : ℕ) (l : List Row) → length l ≤ n → first_rows n l ≡ l
unfolding first_rows
first_rows_all zero [] h = refl
first_rows_all zero (r ∷ l) h = absurd (omega arith)
first_rows_all (suc n) [] h = refl
first_rows_all (suc n) (r ∷ l) h = ap (λ t. r ∷ t) (first_rows_all n l (omega arith))

keep-In : (p : Row → Bool) (a : Row) (l : List Row) → In a l → p a ≡ true → In a (keep p l)
unfolding keep
keep-In p a [] h t = elim h [ ]
keep-In p a (r ∷ l) (inl e) t = rw (← e, t) (inl refl)
keep-In p a (r ∷ l) (inr h) t = elim (Bool-cases (p r)) [
  | inl e ↦ rw e (inr (keep-In p a l h t))
  | inr e ↦ rw e (keep-In p a l h t)
]

pub length-keep-le : (p : Row → Bool) (l : List Row) → length (keep p l) ≤ length l
unfolding keep
length-keep-le p [] = omega arith
length-keep-le p (r ∷ l) = ground (arith, length-keep-le p l)

In-rows :
    (id : Text) (r : Row) (m : List (Text × Row))
    → get text_dec id m ≡ some r
    → In r (map (λ e. e.1) m)
unfolding get
In-rows id r [] h = absurd (cc h)
In-rows id r ((j, q) ∷ m) h =
    elim (text_dec id j)
        as (λ x.
          elim x [ yes _ ↦ some q | no _ ↦ get text_dec id m ] ≡ some r
          → (r ≡ q) ⊎ In r (map (λ (e : Text × Row). e.1) m)) [
            | yes _ ↦ λ k. inl (cc k)
            | no _ ↦ λ k. inr (In-rows id r m k)
          ]
      h

-- A waiting row is among those that the store gives, if the limit leaves room for all.
pub In-get_undelivered_messages :
    (first : Text → Text → Bool) (user : Text) (after : Option Text) (limit : ℕ) (id : Text)
    (r : Row) (db : Db)
    → get_message id db ≡ some r
    → is_undelivered user after db r ≡ true
    → length (rows_of db) ≤ limit
    → In r (get_undelivered_messages first user after limit db)
unfolding get_undelivered_messages get_message
In-get_undelivered_messages first user after limit id r db at waits room =
    let found =
      keep-In (is_undelivered user after db) r (rows_of db) (In-rows id r db.message_by_id at)
        waits in
    rw
      (first_rows_all limit
        (sort_rows (by_id first) (keep (is_undelivered user after db) (rows_of db)))
        (omega (
          arith,
          length-sort_rows (by_id first) (keep (is_undelivered user after db) (rows_of db)),
          length-keep-le (is_undelivered user after db) (rows_of db),
        )))
      (In-sort_rows (by_id first) r (keep (is_undelivered user after db) (rows_of db)) found)

of-insert_row :
    (before : Row → Row → Bool) (a r : Row) (l : List Row)
    → In a (insert_row before r l)
    → (a ≡ r) ⊎ In a l
unfolding insert_row
of-insert_row before a r [] h = h
of-insert_row before a r (q ∷ l) h = elim (Bool-cases (before r q)) [
  | inl e ↦ rw e at h
  | inr e ↦ elim (rw e at h) [
    | inl same ↦ inr (inl same)
    | inr deep ↦ elim (of-insert_row before a r l deep) [ inl k ↦ inl k | inr k ↦ inr (inr k) ]
  ]
]

of-sort_rows :
    (before : Row → Row → Bool) (a : Row) (l : List Row) → In a (sort_rows before l) → In a l
unfolding sort_rows
of-sort_rows before a [] h = h
of-sort_rows before a (r ∷ l) h = elim (of-insert_row before a r (sort_rows before l) h) [
  | inl e ↦ inl e
  | inr k ↦ inr (of-sort_rows before a l k)
]

of-first_rows : (n : ℕ) (a : Row) (l : List Row) → In a (first_rows n l) → In a l
unfolding first_rows
of-first_rows zero a l h = elim h [ ]
of-first_rows (suc n) a [] h = h
of-first_rows (suc n) a (r ∷ l) (inl e) = inl e
of-first_rows (suc n) a (r ∷ l) (inr h) = inr (of-first_rows n a l h)

-- What the store gives is waiting.
pub given-is_undelivered :
    (first : Text → Text → Bool) (user : Text) (after : Option Text) (limit : ℕ) (r : Row) (db : Db)
    → In r (get_undelivered_messages first user after limit db)
    → is_undelivered user after db r ≡ true
unfolding get_undelivered_messages
given-is_undelivered first user after limit r db h =
    (In-keep (is_undelivered user after db) r (rows_of db)
      (of-sort_rows (by_id first) r _ (of-first_rows limit r _ h))).1
