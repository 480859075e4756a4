-- ===== src/Messages/Pages.antt =====
-- Reading a history page by page (getHistoryPaginatedSync of backend/storage/message.store.js).
use relay_chatapp.Base.{
  ◌≡◌, refl, subst, ap, ℕ, zero, suc, ◌+◌, ◌<◌, true, false, Option, none, some, List, [], ◌∷◌,
  ◌++◌, Text, text_dec, trim, map, length, contains, distinct, inl, inr, All, Option-cases,
  dec_cases, arith, if◌then◌else◌,
}
use relay_chatapp.Messages.Life.{missing}
use relay_chatapp.Messages.Rows.{Row}
use relay_chatapp.Messages.Queries.{Page, first_rows, rows_after, rows_from, last_id}

-- `a` before what was read, if all was
abbrev pub before_rest : List Row → Option (List Row) → Option (List Row)
before_rest l none = none
before_rest l (some rest) = some (l ++ rest)

-- A client that asks for pages by `serve`, and follows `nextCursor` until there are no more; the
-- fuel is the number of pages that it may read, and `none` says that there were more.
unfoldable pub read_pages : ℕ → (Option Text → Page) → Option Text → Option (List Row)
read_pages zero serve cursor = none
read_pages (suc fuel) serve cursor =
    let page = serve cursor in
    let rest = read_pages fuel serve page.next_cursor in
    if page.has_more then before_rest page.messages rest else some page.messages

abbrev pub ids : List Row → List Text
ids l = map (λ r. r.draft.message_id) l

-- the rows after the first `n`
unfoldable pub later_rows : ℕ → List Row → List Row
later_rows zero l = l
later_rows (suc n) [] = []
later_rows (suc n) (r ∷ l) = later_rows n l

-- an id that a cursor can carry
abbrev pub IsPlain : Row → Type 0
IsPlain r = (trim r.draft.message_id ≡ r.draft.message_id) × (missing r.draft.message_id ≡ false)

pub split_rows : (n : ℕ) (l : List Row) → first_rows n l ++ later_rows n l ≡ l
unfolding first_rows later_rows
split_rows zero l = refl
split_rows (suc n) [] = refl
split_rows (suc n) (r ∷ l) = ap (λ t. r ∷ t) (split_rows n l)

pub length-later_rows :
    (n : ℕ) (l : List Row) → n < length l → length (later_rows n l) + n ≡ length l
unfolding later_rows
length-later_rows zero l h = omega arith
length-later_rows (suc n) [] h = absurd (omega arith)
length-later_rows (suc n) (r ∷ l) h = omega (arith, length-later_rows n l (omega arith))

rows_after-contains :
    (id : Text) (l rest : List Row)
    → rows_after id l ≡ some rest
    → contains text_dec id (ids l) ≡ true
unfolding rows_after contains
rows_after-contains id [] rest h = absurd (cc h)
rows_after-contains id (r ∷ l) rest h = ground (arith, rows_after-contains id l rest)

pub last_id-found :
    (n : ℕ) (l : List Row)
    → n < length l
    → distinct text_dec (ids l) ≡ true
    → (id : Text) × (last_id (first_rows (suc n) l) ≡ some id)
      × (rows_after id l ≡ some (later_rows (suc n) l))
unfolding last_id first_rows rows_after later_rows distinct
last_id-found n [] h d = absurd (omega arith)
last_id-found zero (r ∷ l) h d = (r.draft.message_id, refl, ground arith)
last_id-found (suc n) (r ∷ l) h d =
    let (id, e, f) = last_id-found n l (omega arith) (ground arith) in
    (
      id,
      rw e refl,
      dec_cases (λ (x : Option (List Row)). x ≡ some (later_rows (suc n) l))
          (text_dec r.draft.message_id id)
          (λ same.
            let there = rows_after-contains id l (later_rows (suc n) l) f in
            absurd (ground (arith, same)))
          (λ _. f),
    )

-- a cursor with the id of a row stands for the rows after it
pub rows_from-plain :
    (id : Text) (l rest : List Row)
    → trim id ≡ id
    → missing id ≡ false
    → rows_after id l ≡ some rest
    → rows_from (some id) l ≡ rest
unfolding rows_from
rows_from-plain id l rest plain solid h = ground (arith, plain, solid, h)

pub rows_after-append :
    (id : Text) (before l rest : List Row)
    → distinct text_dec (ids (before ++ l)) ≡ true
    → rows_after id l ≡ some rest
    → rows_after id (before ++ l) ≡ some rest
unfolding rows_after distinct
rows_after-append id [] l rest d h = h
rows_after-append id (r ∷ before) l rest d h =
    let deep = rows_after-append id before l rest (ground arith) h in
    dec_cases (λ (x : Option (List Row)). x ≡ some rest) (text_dec r.draft.message_id id)
      (λ same.
        let there = rows_after-contains id (before ++ l) rest deep in absurd (ground (arith, same)))
      (λ _. deep)

pub distinct-append :
    (before l : List Row)
    → distinct text_dec (ids (before ++ l)) ≡ true
    → distinct text_dec (ids l) ≡ true
unfolding distinct
distinct-append [] l d = d
distinct-append (r ∷ before) l d = distinct-append before l (ground arith)

pub last_id-IsPlain :
    (n : ℕ) (l : List Row) (id : Text)
    → All IsPlain l
    → last_id (first_rows n l) ≡ some id
    → (trim id ≡ id) × (missing id ≡ false)
unfolding last_id first_rows
last_id-IsPlain zero l id a h = absurd (cc h)
last_id-IsPlain (suc n) [] id a h = absurd (cc h)
last_id-IsPlain (suc n) (r ∷ l) id a h = elim (Option-cases (last_id (first_rows n l))) [
  | inl e ↦
      let same : r.draft.message_id ≡ id = ground arith in
      subst (λ t. (trim t ≡ t) × (missing t ≡ false)) same a.0
  | inr (j, e) ↦ last_id-IsPlain n l id a.1 (ground arith)
]

pub All-append {ℓ} : (P : Row → Type ℓ) (before l : List Row) → All P (before ++ l) → All P l
All-append P [] l a = a
All-append P (r ∷ before) l a = All-append P before l a.1
