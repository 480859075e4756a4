-- ===== src/Sessions/Choice.antt =====
-- Which sockets sessionStore.js chooses as the newest and the oldest.
use relay_chatapp.Base.{
  ℕ, ◌≡◌, refl, ◌⊎◌, inl, inr, ◌≢◌, Bool, true, false, Option, none, some, List, [], ◌∷◌,
  ℕ_discrete, contains, get, ltb, leb, arith, Option-cases, Bool-cases,
}
use relay_chatapp.Sessions.Session.{time_or_zero, newest_of, oldest_of, is_alone}

abbrev pub has_socket : ℕ → List ℕ → Bool
has_socket ws sockets = contains ℕ_discrete ws sockets

-- A session has a primary socket if and only if it has any, and the primary is one of them.
abbrev pub IsPrimaryOf : Option ℕ → List ℕ → Type 0
IsPrimaryOf none sockets = sockets ≡ []
IsPrimaryOf (some p) sockets = has_socket p sockets ≡ true

-- every socket has its time
abbrev pub AreTimed : List (ℕ × ℕ) → List ℕ → Type 0
AreTimed created sockets =
    (ws : ℕ) → has_socket ws sockets ≡ true → get ℕ_discrete ws created ≢ none

pub newest_of-some :
    (created : List (ℕ × ℕ)) (sockets : List ℕ) (best best_at : ℕ)
    → (q : ℕ) × (newest_of created sockets (some best) best_at ≡ some q)
      × ((q ≡ best) ⊎ (has_socket q sockets ≡ true))
unfolding newest_of contains
newest_of-some created [] best best_at = (best, refl, inl refl)
newest_of-some created (ws ∷ sockets) best best_at =
    let at = time_or_zero (get ℕ_discrete ws created) in
    elim (Bool-cases (leb best_at at)) [
      | inl e ↦
          let (q, found, place) = newest_of-some created sockets ws at in
          (q, rw (e, newest_of) found, ground (arith, place))
      | inr e ↦
          let (q, found, place) = newest_of-some created sockets best best_at in
          (q, rw (e, newest_of) found, ground (arith, place))
    ]

pub leb-zero : (at : ℕ) → leb 0 at ≡ true
leb-zero at = ground arith

pub newest_of-IsPrimaryOf :
    (created : List (ℕ × ℕ)) (sockets : List ℕ)
    → IsPrimaryOf (newest_of created sockets none 0) sockets
unfolding newest_of contains
newest_of-IsPrimaryOf created [] = refl
newest_of-IsPrimaryOf created (ws ∷ sockets) =
    let at = time_or_zero (get ℕ_discrete ws created) in
    let (q, found, place) = newest_of-some created sockets ws at in
    rw (leb-zero at, found) (ground (arith, place))

pub oldest_of-some :
    (created : List (ℕ × ℕ)) (sockets : List ℕ) (best : ℕ × ℕ)
    → (c : ℕ × ℕ) × (oldest_of created sockets (some best) ≡ some c)
      × ((c.0 ≡ best.0) ⊎ (has_socket c.0 sockets ≡ true))
unfolding oldest_of contains
oldest_of-some created [] best = (best, refl, inl refl)
oldest_of-some created (ws ∷ sockets) best =
    let (c, found, place) = oldest_of-some created sockets best in
    elim (Option-cases (get ℕ_discrete ws created)) [
      | inl e ↦ (c, rw (e, oldest_of) found, ground (arith, place))
      | inr (at, e) ↦ elim (Bool-cases (ltb at best.1)) [
        | inl older ↦
            let (d, found', place') = oldest_of-some created sockets (ws, at) in
            (d, rw (e, oldest_of) (rw older found'), ground (arith, place'))
        | inr newer ↦ (c, rw (e, oldest_of) (rw newer found), ground (arith, place))
      ]
    ]

-- Where all sockets have a time, the oldest is found, and is one of them.
pub oldest_of-found :
    (created : List (ℕ × ℕ)) (sockets : List ℕ)
    → is_alone sockets ≡ false
    → AreTimed created sockets
    → (c : ℕ × ℕ) × (oldest_of created sockets none ≡ some c) × (has_socket c.0 sockets ≡ true)
unfolding oldest_of contains
oldest_of-found created [] h timed = absurd (cc)
oldest_of-found created (ws ∷ sockets) h timed = elim (Option-cases (get ℕ_discrete ws created)) [
  | inl e ↦ absurd (timed ws (ground arith) e)
  | inr (at, e) ↦
      let (c, found, place) = oldest_of-some created sockets (ws, at) in
      (c, rw (e, oldest_of) found, ground (arith, place))
]
