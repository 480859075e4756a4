-- ===== src/Sockets/UserWindows.antt =====
-- What one call of allowUserMessage in socketSafety.js does to the times of its user.
use relay_chatapp.Base.{
  ℕ, ◌≡◌, refl, Bool, true, false, not, ◌&&◌, ◌||◌, List, length, ltb, leb, arith, if_cases,
}
use relay_chatapp.Sockets.State.{RateLimit}
use relay_chatapp.Sockets.Limits.{prune}
use relay_chatapp.Sockets.Users.{
  UserState, Permit, roll_user, user_violation, record_message, allow_in_window,
}
use relay_chatapp.Sockets.Rows.{Counted}

-- The two windows of a user: that of the sensitive actions, and that of all messages.
abbrev pub limit_of : Bool → RateLimit → ℕ
limit_of true cfg = cfg.max_sensitive
limit_of false cfg = cfg.max_messages

abbrev pub recorded_of : Bool → UserState → List ℕ
recorded_of true s = s.sensitive
recorded_of false s = s.messages

-- whether an allowed message counts
abbrev pub counts : Bool → Bool → Bool
counts sensitive_only is_sensitive = not sensitive_only || is_sensitive

abbrev pub IsCounted : Bool → Bool → RateLimit → ℕ → UserState → UserState × Permit → Type 0
IsCounted only is_sensitive cfg now r o =
    Counted (limit_of only cfg) now (recorded_of only r) (counts only is_sensitive && o.1.allowed)
      (recorded_of only o.0)

pub rolled-IsCounted :
    (only is_sensitive : Bool) (cfg : RateLimit) (now : ℕ) (s : UserState)
    → IsCounted only is_sensitive cfg now
        (roll_user cfg now s)
        (allow_in_window cfg now is_sensitive s)
unfolding allow_in_window user_violation record_message
rolled-IsCounted true true cfg now s =
    if_cases P (ltb now r.throttled_until) (λ _. refl)
      λ _.
        if_cases P (leb cfg.max_messages (length r.messages)) (λ _. refl)
          λ _.
            if_cases P (leb cfg.max_sensitive (length r.sensitive)) (λ _. refl)
              (λ e. (refl, ground arith))
  where
    r : UserState
    r = roll_user cfg now s

    P : UserState × Permit → Type 0
    P = IsCounted true true cfg now r
rolled-IsCounted true false cfg now s =
    if_cases P (ltb now r.throttled_until) (λ _. refl)
      λ _. if_cases P (leb cfg.max_messages (length r.messages)) (λ _. refl) (λ _. refl)
  where
    r : UserState
    r = roll_user cfg now s

    P : UserState × Permit → Type 0
    P = IsCounted true false cfg now r
rolled-IsCounted false true cfg now s =
    if_cases P (ltb now r.throttled_until) (λ _. refl)
      λ _.
        if_cases P (leb cfg.max_messages (length r.messages)) (λ _. refl)
          λ e.
            if_cases P (leb cfg.max_sensitive (length r.sensitive)) (λ _. refl)
              (λ _. (refl, ground arith))
  where
    r : UserState
    r = roll_user cfg now s

    P : UserState × Permit → Type 0
    P = IsCounted false true cfg now r
rolled-IsCounted false false cfg now s =
    if_cases P (ltb now r.throttled_until) (λ _. refl)
      λ _.
        if_cases P (leb cfg.max_messages (length r.messages)) (λ _. refl)
          (λ e. (refl, ground arith))
  where
    r : UserState
    r = roll_user cfg now s

    P : UserState × Permit → Type 0
    P = IsCounted false false cfg now r

pub roll_user-recorded :
    (only : Bool) (cfg : RateLimit) (now : ℕ) (s : UserState)
    → recorded_of only (roll_user cfg now s) ≡ prune cfg.window_ms now (recorded_of only s)
unfolding roll_user
roll_user-recorded true cfg now s = refl
roll_user-recorded false cfg now s = refl
