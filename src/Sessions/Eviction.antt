-- ===== src/Sessions/Eviction.antt =====
-- Which socket attachSocket of sessionStore.js evicts.
use relay_chatapp.Base.{
  ℕ, suc, ◌≤◌, ◌<◌, ◌≡◌, refl, sym, ap, ◌⊎◌, inl, inr, true, false, Option, none, some,
  if◌then◌else◌, if_cases, contains-remove, List, [], ◌∷◌, ℕ_discrete, length, contains, get, ltb,
  arith, Option-cases, Bool-cases,
}
use relay_chatapp.Sessions.Session.{Session, oldest_of, is_older, evict, drop_socket, is_alone}
use relay_chatapp.Sessions.Choice.{has_socket, AreTimed}
use relay_chatapp.Sessions.Whole.{IsWhole, not_alone_of_lt}

-- `c` is a socket with its time, which is no later than the time of any of `sockets`
abbrev IsOldest : List (ℕ × ℕ) → List ℕ → ℕ × ℕ → Type 0
IsOldest created sockets c =
    (get ℕ_discrete c.0 created ≡ some c.1)
    × ((x t : ℕ) → has_socket x sockets ≡ true → get ℕ_discrete x created ≡ some t → c.1 ≤ t)

oldest_of-least :
    (created : List (ℕ × ℕ)) (sockets : List ℕ) (best : ℕ × ℕ)
    → get ℕ_discrete best.0 created ≡ some best.1
    → (c : ℕ × ℕ) × (oldest_of created sockets (some best) ≡ some c)
      × (c.1 ≤ best.1)
      × IsOldest created sockets c
unfolding oldest_of contains
oldest_of-least created [] best h = (best, refl, omega arith, (h, λ x t k e. absurd (cc)))
oldest_of-least created (ws ∷ sockets) best h = elim (Option-cases (get ℕ_discrete ws created)) [
  | inl e ↦
      let (c, found, le, (timed, least)) = oldest_of-least created sockets best h in
      (c, rw (e, oldest_of) found, le, (timed, λ x t k f. ground (arith, e, f, k, least x t)))
  | inr (at, e) ↦ elim (Bool-cases (ltb at best.1)) [
    | inl older ↦
        let (c, found, le, (timed, least)) = oldest_of-least created sockets (ws, at) e in
        (
          c,
          rw (e, oldest_of) (rw older found),
          ground (arith, older, le),
          (timed, λ x t k f. ground (arith, e, f, k, le, least x t)),
        )
    | inr newer ↦
        let (c, found, le, (timed, least)) = oldest_of-least created sockets best h in
        (
          c,
          rw (e, oldest_of) (rw newer found),
          le,
          (timed, λ x t k f. ground (arith, e, f, k, le, newer, least x t)),
        )
  ]
]

oldest_of-IsOldest :
    (created : List (ℕ × ℕ)) (sockets : List ℕ)
    → is_alone sockets ≡ false
    → AreTimed created sockets
    → (c : ℕ × ℕ) × (oldest_of created sockets none ≡ some c) × IsOldest created sockets c
unfolding oldest_of contains
oldest_of-IsOldest created [] h timed = absurd (cc)
oldest_of-IsOldest created (ws ∷ sockets) h timed =
    elim (Option-cases (get ℕ_discrete ws created)) [
      | inl e ↦ absurd (timed ws (ground arith) e)
      | inr (at, e) ↦
          let (c, found, le, (known, least)) = oldest_of-least created sockets (ws, at) e in
          (c, rw (e, oldest_of) found, (known, λ x t k f. ground (arith, e, f, k, le, least x t)))
    ]

pick-held :
    (at : Option ℕ) (ws : ℕ) (best : Option (ℕ × ℕ)) (c : ℕ × ℕ)
    → (elim at [ none ↦ best | some t ↦ if is_older t best then some (ws, t) else best ]) ≡ some c
    → (best ≡ some c) ⊎ (c.0 ≡ ws)
pick-held none ws best c e = inl e
pick-held (some t) ws best c e =
    if_cases (λ (b : Option (ℕ × ℕ)). b ≡ some c → (best ≡ some c) ⊎ (c.0 ≡ ws)) (is_older t best)
      (λ _ k. let same : (ws, t) ≡ c = cc in inr (sym (ap (λ b. b.0) same))) (λ _ k. inl k) e

-- the socket that is found is one of those looked at
oldest_of-held :
    (created : List (ℕ × ℕ)) (sockets : List ℕ) (best : Option (ℕ × ℕ)) (c : ℕ × ℕ)
    → oldest_of created sockets best ≡ some c
    → (best ≡ some c) ⊎ (has_socket c.0 sockets ≡ true)
unfolding oldest_of contains
oldest_of-held created [] best c h = inl h
oldest_of-held created (ws ∷ sockets) best c h = elim (oldest_of-held created sockets _ c h) [
  | inl e ↦ elim (pick-held (get ℕ_discrete ws created) ws best c e) [
    | inl k ↦ inl k
    | inr k ↦ inr (ground (arith, k))
  ]
  | inr k ↦ inr (ground (arith, k))
]

sockets-drop_socket :
    (ws x : ℕ) (s : Session)
    → has_socket x (drop_socket ws s).sockets
      ≡ (elim (ℕ_discrete x ws) [ yes _ ↦ false | no _ ↦ has_socket x s.sockets ])
unfolding drop_socket
sockets-drop_socket ws x s = contains-remove ℕ_discrete ws x s.sockets

-- A session with more sockets than the maximum `n` loses exactly one, the one that is reported: it
-- was in the session and is no more, every other socket stays, and none of them has an earlier time.
pub evict_oldest :
    (n : ℕ) (s : Session)
    → IsWhole (suc n) s
    → n < length s.sockets
    → (ws : ℕ) × (at : ℕ) × ((evict n s).1 ≡ some ws)
      × (get ℕ_discrete ws s.created_at ≡ some at)
      × ((x t : ℕ)
          → has_socket x s.sockets ≡ true
          → get ℕ_discrete x s.created_at ≡ some t
          → at ≤ t)
      × (has_socket ws s.sockets ≡ true)
      × ((x : ℕ)
          → has_socket x (evict n s).0.sockets
            ≡ (elim (ℕ_discrete x ws) [ yes _ ↦ false | no _ ↦ has_socket x s.sockets ]))
unfolding evict
evict_oldest n s w more =
    let (c, found, (known, least)) =
      oldest_of-IsOldest s.created_at s.sockets (not_alone_of_lt n s.sockets more) w.timed in
    let big : ltb n (length s.sockets) ≡ true = ground (arith, more) in
    (
      c.0,
      c.1,
      rw (big, found) refl,
      known,
      least,
      elim (oldest_of-held s.created_at s.sockets none c found) [
        | inl e ↦ absurd (cc e)
        | inr k ↦ k
      ],
      λ x. rw (big, found) (sockets-drop_socket c.0 x s),
    )
