-- ===== src/Sockets/Escalation.antt =====
-- The limiter of all other messages: what checkRateLimit of socketSafety.js records, when it
-- warns, and when it closes.
use relay_chatapp.Base.{
  ℕ, ◌*◌, ◌/◌, ◌≤◌, ◌<◌, ◌≡◌, refl, sym, subst, ◌⊎◌, inl, inr, Bool, true, false, Option, List, [],
  ◌∷◌, ◌++◌, length, keep, ltb, leb, arith, if◌then◌else◌, if_cases,
}
use mathlib.Core.List.{append-nil, append_assoc}
use relay_chatapp.Sockets.State.{RateLimit, RateState, fresh_limits}
use relay_chatapp.Sockets.Limits.{
  prune, is_nil, Verdict, allow, deny, roll, violate, enforce, may_warn, judge, check_rate_limit,
}
use relay_chatapp.Sockets.Sliding.{in_window, Tracks, Tracks-prune, Tracks-push, Tracks-later}

abbrev pub is_recorded : Verdict → Bool
is_recorded (allow false _ _) = true
is_recorded _ = false

is_nil-eq : (l : List ℕ) → is_nil l ≡ true → l ≡ []
is_nil-eq [] h = refl
is_nil-eq (x ∷ l) h = cc

roll-messages :
    (cfg : RateLimit) (now : ℕ) (s : RateState)
    → (roll cfg now s).messages ≡ prune cfg.window_ms now s.messages
unfolding roll
roll-messages cfg now s = ground (arith, is_nil-eq (prune cfg.window_ms now s.messages))

-- How a call changes the recorded messages: it adds its time where it is let through with no
-- warning and there is room, and else only moves the window on.
abbrev Recorded : RateLimit → ℕ → List ℕ → RateState × Verdict → Type 0
Recorded cfg now recent o =
    ((is_recorded o.1 ≡ true)
      × (o.0.messages ≡ recent ++ now ∷ [])
      × (length recent < cfg.max_messages))
    ⊎ ((is_recorded o.1 ≡ false) × (o.0.messages ≡ recent))

violate-Recorded :
    (cfg : RateLimit) (now : ℕ) (s : RateState) → Recorded cfg now s.messages (violate cfg now s)
unfolding violate
violate-Recorded cfg now s = ground arith

enforce-Recorded :
    (cfg : RateLimit) (now : ℕ) (s : RateState) → Recorded cfg now s.messages (enforce cfg now s)
unfolding enforce
enforce-Recorded cfg now s =
    if_cases (Recorded cfg now s.messages) (leb cfg.max_messages (length s.messages))
      (λ _. violate-Recorded cfg now _) (λ e. inl (refl, refl, ground arith))

check_rate_limit-Recorded :
    (cfg : RateLimit) (now later : ℕ) (s : RateState)
    → Recorded cfg now (prune cfg.window_ms now s.messages) (check_rate_limit cfg now later s)
unfolding check_rate_limit
check_rate_limit-Recorded cfg now later s =
    subst (λ (l : List ℕ). Recorded cfg now l (check_rate_limit cfg now later s))
      (roll-messages cfg now s)
      (if_cases (Recorded cfg now t.messages) (ltb later t.throttled_until) (λ _. inr (refl, refl))
        λ _.
          if_cases (Recorded cfg now t.messages) (may_warn cfg now t) (λ _. inr (refl, refl))
            λ _. enforce-Recorded cfg now t)
  where
    t : RateState
    t = roll cfg now s

-- the times of the calls that are let through with no warning; each call reads the clock twice
unfoldable pub recorded : RateLimit → List (ℕ × ℕ) → RateState → List ℕ
unfolding check_rate_limit
recorded cfg [] s = []
recorded cfg ((now, later) ∷ calls) s =
    let o = check_rate_limit cfg now later s in
    let rest = recorded cfg calls o.0 in if is_recorded o.1 then now ∷ rest else rest

abbrev pub Advances : ℕ → List (ℕ × ℕ) → Type 0
Advances now [] = Unit
Advances now ((n, later) ∷ calls) = (now ≤ n) × Advances n calls

recorded-Tracks :
    (cfg : RateLimit) (now : ℕ) (calls : List (ℕ × ℕ)) (s : RateState) (history : List ℕ)
    → Advances now calls
    → Tracks cfg.max_messages cfg.window_ms now s.messages history
    → (t : ℕ)
    → length (in_window cfg.window_ms t (history ++ recorded cfg calls s)) ≤ cfg.max_messages
unfolding recorded
recorded-Tracks cfg now [] s history a tr t =
    subst (λ (l : List ℕ). length (in_window cfg.window_ms t l) ≤ cfg.max_messages)
      (sym (append-nil history)) (tr.bounded t)
recorded-Tracks cfg now ((n, later) ∷ calls) s history a tr t =
    let o = check_rate_limit cfg n later s in
    elim (check_rate_limit-Recorded cfg n later s) [
      | inl (yes_recorded, grown, room) ↦ rw yes_recorded (
          subst (λ (l : List ℕ). length (in_window cfg.window_ms t l) ≤ cfg.max_messages)
            (append_assoc history (n ∷ []) (recorded cfg calls o.0))
            (recorded-Tracks cfg n calls o.0 (history ++ n ∷ []) a.1
              (subst (λ (l : List ℕ). Tracks cfg.max_messages cfg.window_ms n l (history ++ n ∷ []))
                (sym grown)
                (Tracks-push cfg.max_messages cfg.window_ms n n s.messages history (omega arith)
                  room
                  (Tracks-later cfg.max_messages cfg.window_ms now n s.messages history a.0 tr)))
              t))
      | inr (not_recorded, same) ↦ rw not_recorded (
          recorded-Tracks cfg n calls o.0 history a.1
            (subst (λ (l : List ℕ). Tracks cfg.max_messages cfg.window_ms n l history) (sym same)
              (Tracks-prune cfg.max_messages cfg.window_ms now n s.messages history a.0 tr))
            t)
    ]

-- From a fresh state, the limiter of all other messages lets through, with no warning, at most `maxMessages` calls in
-- any stretch of time as long as its window, while the clock does not go back.
pub recorded-bounded :
    (cfg : RateLimit) (calls : List (ℕ × ℕ)) (t : ℕ)
    → Advances 0 calls
    → length (in_window cfg.window_ms t (recorded cfg calls fresh_limits)) ≤ cfg.max_messages
unfolding in_window keep
recorded-bounded cfg calls t a =
    recorded-Tracks cfg 0 calls fresh_limits [] a
      (record { holds = λ n k. refl; bounded = λ u. omega arith }) t

part_of_max : (m p : ℕ) → p ≤ 100 → m * p / 100 ≤ m
part_of_max m p h = let k : m * p ≤ m * 100 = grind arith in omega arith

judge-close :
    (cfg : RateLimit) (now later : ℕ) (s : RateState) (left : Option ℕ) (until : ℕ)
    → (judge cfg now later s).1 ≡ deny true left until
    → (cfg.violations_before_close ≤ (judge cfg now later s).0.violations)
      × (cfg.max_messages ≤ length (judge cfg now later s).0.messages)
unfolding judge enforce violate
judge-close cfg now later s left until h = ground arith

-- The limiter asks for the socket to be closed only at the limit, and only after
-- `violationsBeforeClose` violations.
pub close_needs_violations :
    (cfg : RateLimit) (now later : ℕ) (s : RateState) (left : Option ℕ) (until : ℕ)
    → (check_rate_limit cfg now later s).1 ≡ deny true left until
    → (cfg.violations_before_close ≤ (check_rate_limit cfg now later s).0.violations)
      × (cfg.max_messages ≤ length (check_rate_limit cfg now later s).0.messages)
unfolding check_rate_limit
close_needs_violations cfg now later s left until h =
    judge-close cfg now later (roll cfg now s) left until h
