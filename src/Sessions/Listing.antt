-- ===== src/Sessions/Listing.antt =====
-- What the maps of sessionStore.js hold after an update.
use relay_chatapp.Base.{
  ◌≡◌, refl, ◌⊎◌, inl, inr, ◌≢◌, true, some, List, [], ◌∷◌, Text, text_dec, contains, add, remove,
  contains-add, contains-remove, get, put, drop_key, get-put, get-drop_key, arith, Option-cases,
}
use relay_chatapp.Sessions.Session.{Session}
use relay_chatapp.Sessions.Store.{ids_or_none, unlist}

-- what a map holds at a key that was set
pub got :
    (id q : Text) (t r : Session) (sessions : List (Text × Session))
    → get text_dec q (put text_dec id t sessions) ≡ some r
    → ((q ≡ id) × (t ≡ r)) ⊎ ((q ≢ id) × (get text_dec q sessions ≡ some r))
got id q t r sessions f = elim (text_dec q id) [
  | yes p ↦ inl (p, ground (arith, f, p, get-put text_dec id q t sessions))
  | no p ↦ inr (p, ground (arith, f, p, get-put text_dec id q t sessions))
]

-- the index after `createSession`
unfoldable pub enlisted : Text → Text → List (Text × List Text) → List (Text × List Text)
enlisted user id index =
    put text_dec user (add text_dec id (ids_or_none (get text_dec user index))) index

pub enlist_new :
    (user id : Text) (index : List (Text × List Text))
    → contains text_dec id (ids_or_none (get text_dec user (enlisted user id index))) ≡ true
unfolding enlisted
enlist_new user id index =
    let ids = ids_or_none (get text_dec user index) in
    ground (
      arith,
      get-put text_dec user user (add text_dec id ids) index,
      contains-add text_dec id id ids,
    )

pub enlist_old :
    (user id v q : Text) (index : List (Text × List Text))
    → contains text_dec q (ids_or_none (get text_dec v index)) ≡ true
    → contains text_dec q (ids_or_none (get text_dec v (enlisted user id index))) ≡ true
unfolding enlisted
enlist_old user id v q index h =
    let ids = ids_or_none (get text_dec user index) in
    ground (
      arith,
      h,
      get-put text_dec user v (add text_dec id ids) index,
      contains-add text_dec id q ids,
    )

-- the index once what is left of the ids of `user` is `ids`
abbrev relisted : Text → List Text → List (Text × List Text) → List (Text × List Text)
relisted user [] index = drop_key text_dec user index
relisted user (x ∷ xs) index = put text_dec user (x ∷ xs) index

relisted-get :
    (user v : Text) (ids : List Text) (index : List (Text × List Text))
    → ids_or_none (get text_dec v (relisted user ids index))
      ≡ (elim (text_dec v user) [ yes _ ↦ ids | no _ ↦ ids_or_none (get text_dec v index) ])
relisted-get user v [] index = ground (arith, get-drop_key text_dec user v index)
relisted-get user v (x ∷ xs) index = ground (arith, get-put text_dec user v (x ∷ xs) index)

unlist-relisted :
    (id user : Text) (ids : List Text) (index : List (Text × List Text))
    → get text_dec user index ≡ some ids
    → unlist id user index ≡ relisted user (remove text_dec id ids) index
unlist-relisted id user ids index e = rw (e, unlist) (by_rest (remove text_dec id ids))
  where
    by_rest :
        (rest : List Text)
        → (elim rest as (λ _. List (Text × List Text)) [
          | [] ↦ drop_key text_dec user index
          | x ∷ xs ↦ put text_dec user (x ∷ xs) index
        ])
          ≡ relisted user rest index
    by_rest [] = refl
    by_rest (x ∷ xs) = refl

pub unlist_old :
    (user id v q : Text) (index : List (Text × List Text))
    → q ≢ id
    → contains text_dec q (ids_or_none (get text_dec v index)) ≡ true
    → contains text_dec q (ids_or_none (get text_dec v (unlist id user index))) ≡ true
unlist_old user id v q index other h = elim (Option-cases (get text_dec user index)) [
  | inl e ↦ rw (e, unlist) h
  | inr (ids, e) ↦
      rw (unlist-relisted id user ids index e, relisted-get user v (remove text_dec id ids) index)
        (elim (text_dec v user)
          as (λ d.
            contains text_dec q (elim d [
              | yes _ ↦ remove text_dec id ids
              | no _ ↦ ids_or_none (get text_dec v index)
            ])
            ≡ true) [
              | yes p ↦
                  let listed : contains text_dec q ids ≡ true = (rw (p, e) at h) in
                  ground (arith, other, listed, contains-remove text_dec id q ids)
              | no _ ↦ h
            ])
]

pub not_dropped :
    (id q : Text) (r : Session) (sessions : List (Text × Session))
    → get text_dec q (drop_key text_dec id sessions) ≡ some r
    → (q ≢ id) × (get text_dec q sessions ≡ some r)
not_dropped id q r sessions f = elim (text_dec q id) [
  | yes p ↦ absurd (ground (arith, f, p, get-drop_key text_dec id q sessions))
  | no p ↦ (p, ground (arith, f, p, get-drop_key text_dec id q sessions))
]
