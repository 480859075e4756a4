-- ===== src/Messages/Reading.antt =====
-- A client that follows the pages of a history reads all of it (getHistoryPaginatedSync of
-- backend/storage/message.store.js).
use relay_chatapp.Base.{
  ◌≡◌, refl, sym, ap, ◌∙◌, ℕ, zero, suc, ◌<◌, ◌≤◌, Bool, true, false, Option, none, some, List, [],
  ◌∷◌, ◌++◌, Text, text_dec, length, contains, distinct, keep, ltb, inl, inr, All, Bool-cases,
  if_cases, arith,
}
use relay_chatapp.Messages.Rows.{Row, Db}
use relay_chatapp.Messages.Queries.{
  rows_of, is_text, page_limit, insert_row, sort_rows, first_rows, rows_after, rows_from, last_id,
  page_of, newest_first, history, get_history_paginated,
}
use relay_chatapp.Messages.Offered.{first_rows_all, length-sort_rows, length-keep-le}
use relay_chatapp.Messages.Pages.{
  read_pages, ids, later_rows, IsPlain, split_rows, length-later_rows, last_id-found,
  rows_from-plain, rows_after-append, distinct-append, last_id-IsPlain, All-append,
}

append_assoc : (a b c : List Row) → (a ++ b) ++ c ≡ a ++ (b ++ c)
append_assoc [] b c = refl
append_assoc (r ∷ a) b c = ap (λ t. r ∷ t) (append_assoc a b c)

-- the next page starts after this one
next_rows :
    (k : ℕ) (l done rest : List Row) (id : Text)
    → l ≡ done ++ rest
    → distinct text_dec (ids l) ≡ true
    → All IsPlain l
    → suc k < length rest
    → last_id (first_rows (suc k) rest) ≡ some id
    → rows_from (some id) l ≡ later_rows (suc k) rest
next_rows k l done rest id e d plain more last =
    let d' : distinct text_dec (ids (done ++ rest)) ≡ true = rw (← e) d in
    let plain' : All IsPlain (done ++ rest) = rw (← e) plain in
    let (found, at, after) = last_id-found k rest (omega arith) (distinct-append done rest d') in
    let same : found ≡ id = cc in
    let (trimmed, solid) =
      last_id-IsPlain (suc k) rest id (All-append IsPlain done rest plain') last in
    let there : rows_after id rest ≡ some (later_rows (suc k) rest) = rw (← same) after in
    rw e (
      rows_from-plain id (done ++ rest) (later_rows (suc k) rest) trimmed solid
        (rows_after-append id done rest (later_rows (suc k) rest) d' there))

read_rest :
    (fuel k : ℕ) (l done rest : List Row) (cursor : Option Text)
    → l ≡ done ++ rest
    → distinct text_dec (ids l) ≡ true
    → All IsPlain l
    → rows_from cursor l ≡ rest
    → 1 ≤ fuel
    → length rest ≤ fuel
    → read_pages fuel (λ c. page_of (suc k) (rows_from c l)) cursor ≡ some rest
unfolding read_pages page_of
read_rest zero k l done rest cursor e d plain from one room = absurd (omega arith)
read_rest (suc fuel) k l done rest cursor e d plain from one room =
    elim (Bool-cases (ltb (suc k) (length rest))) [
      | inr end ↦ rw (from, end) (ap some (first_rows_all (suc k) rest (ground arith)))
      | inl more ↦
          let longer : suc k < length rest = ground arith in
          let d' : distinct text_dec (ids (done ++ rest)) ≡ true = rw (← e) d in
          let (id, last, _) = last_id-found k rest (omega arith) (distinct-append done rest d') in
          let next =
            read_rest fuel k l (done ++ first_rows (suc k) rest) (later_rows (suc k) rest) (some id)
              (e
                ∙ sym (
                    append_assoc done (first_rows (suc k) rest) (later_rows (suc k) rest)
                    ∙ ap (λ t. done ++ t) (split_rows (suc k) rest)))
              d plain (next_rows k l done rest id e d plain longer last)
              (omega (arith, length-later_rows (suc k) rest longer))
              (omega (arith, length-later_rows (suc k) rest longer)) in
          rw (from, more, last, next) (ap some (split_rows (suc k) rest))
    ]

contains-insert_row :
    (b : Row → Row → Bool) (id : Text) (r : Row) (l : List Row)
    → contains text_dec id (ids (insert_row b r l)) ≡ contains text_dec id (ids (r ∷ l))
unfolding insert_row contains
contains-insert_row b id r [] = refl
contains-insert_row b id r (q ∷ l) = elim (Bool-cases (b r q)) [
  | inl e ↦ rw e refl
  | inr e ↦ rw e (ground (arith, contains-insert_row b id r l))
]

distinct-insert_row :
    (b : Row → Row → Bool) (r : Row) (l : List Row)
    → distinct text_dec (ids (r ∷ l)) ≡ true
    → distinct text_dec (ids (insert_row b r l)) ≡ true
unfolding insert_row distinct contains
distinct-insert_row b r [] h = refl
distinct-insert_row b r (q ∷ l) h = elim (Bool-cases (b r q)) [
  | inl e ↦ rw e h
  | inr e ↦
      rw e (ground (arith, contains-insert_row b q.draft.message_id r l, distinct-insert_row b r l))
]

contains-sort_rows :
    (b : Row → Row → Bool) (id : Text) (l : List Row)
    → contains text_dec id (ids (sort_rows b l)) ≡ contains text_dec id (ids l)
unfolding sort_rows contains
contains-sort_rows b id [] = refl
contains-sort_rows b id (r ∷ l) =
    contains-insert_row b id r (sort_rows b l) ∙ ground (arith, contains-sort_rows b id l)

distinct-sort_rows :
    (b : Row → Row → Bool) (l : List Row)
    → distinct text_dec (ids l) ≡ true
    → distinct text_dec (ids (sort_rows b l)) ≡ true
unfolding sort_rows distinct
distinct-sort_rows b [] h = h
distinct-sort_rows b (r ∷ l) h =
    distinct-insert_row b r (sort_rows b l)
      (ground (arith, contains-sort_rows b r.draft.message_id l, distinct-sort_rows b l))

contains-keep :
    (p : Row → Bool) (id : Text) (l : List Row)
    → contains text_dec id (ids l) ≡ false
    → contains text_dec id (ids (keep p l)) ≡ false
unfolding keep contains
contains-keep p id [] h = h
contains-keep p id (r ∷ l) h = elim (Bool-cases (p r)) [
  | inl e ↦ rw e (ground (arith, contains-keep p id l))
  | inr e ↦ rw e (contains-keep p id l (ground arith))
]

distinct-keep :
    (p : Row → Bool) (l : List Row)
    → distinct text_dec (ids l) ≡ true
    → distinct text_dec (ids (keep p l)) ≡ true
unfolding keep distinct
distinct-keep p [] h = h
distinct-keep p (r ∷ l) h = elim (Bool-cases (p r)) [
  | inl e ↦ rw e (ground (arith, contains-keep p r.draft.message_id l, distinct-keep p l))
  | inr e ↦ rw e (distinct-keep p l (ground arith))
]

All-insert_row :
    (P : Row → Type 0) (b : Row → Row → Bool) (r : Row) (l : List Row)
    → P r
    → All P l
    → All P (insert_row b r l)
unfolding insert_row
All-insert_row P b r [] h a = (h, a)
All-insert_row P b r (q ∷ l) h a =
    if_cases (All P) (b r q) (λ _. (h, a)) (λ _. (a.0, All-insert_row P b r l h a.1))

All-sort_rows :
    (P : Row → Type 0) (b : Row → Row → Bool) (l : List Row) → All P l → All P (sort_rows b l)
unfolding sort_rows
All-sort_rows P b [] a = a
All-sort_rows P b (r ∷ l) a = All-insert_row P b r (sort_rows b l) a.0 (All-sort_rows P b l a.1)

kept-All : (P : Row → Type 0) (p : Row → Bool) (l : List Row) → All P l → All P (keep p l)
unfolding keep
kept-All P p [] a = a
kept-All P p (r ∷ l) a =
    if_cases (All P) (p r) (λ _. (a.0, kept-All P p l a.1)) (λ _. kept-All P p l a.1)

page_limit_pos : (n : ℕ) → (k : ℕ) × (page_limit n ≡ suc k)
unfolding page_limit
page_limit_pos zero = (49, refl)
page_limit_pos (suc n) = elim (Bool-cases (ltb 100 (suc n))) [
  | inl e ↦ (99, rw e refl)
  | inr e ↦ (n, rw e refl)
]

-- A client that asks for the history page by page, and follows the cursor, reads the whole history
-- once, in its order, whatever the size of a page and the order of ids, and comes to the page that
-- is the last after at most as many pages as there are stored messages, and at most one where there
-- are none. The ids of the stored messages differ, and are
-- neither empty nor have white space at their ends.
pub read_pages-history :
    (first : Text → Text → Bool) (user : Text) (limit fuel : ℕ) (db : Db)
    → distinct text_dec (ids (rows_of db)) ≡ true
    → All IsPlain (rows_of db)
    → 1 ≤ fuel
    → length (rows_of db) ≤ fuel
    → read_pages fuel (λ cursor. get_history_paginated first user limit cursor db) none
      ≡ some (history first user db)
unfolding get_history_paginated history rows_from
read_pages-history first user limit fuel db d plain one room =
    let mine : Row → Bool = λ r. is_text r.draft.recipient_id user in
    let l = keep mine (rows_of db) in
    let (k, e) = page_limit_pos limit in
    rw e (
      read_rest fuel k (sort_rows (newest_first first) l) [] (sort_rows (newest_first first) l) none
        refl (distinct-sort_rows (newest_first first) l (distinct-keep mine (rows_of db) d))
        (All-sort_rows IsPlain (newest_first first) l (kept-All IsPlain mine (rows_of db) plain))
        refl one
        (omega (arith, length-sort_rows (newest_first first) l, length-keep-le mine (rows_of db))))
