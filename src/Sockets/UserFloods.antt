-- ===== src/Sockets/UserFloods.antt =====
-- allowUserMessage of socketSafety.js at work: how many messages and how many sensitive actions of
-- one user it lets through.
use relay_chatapp.Base.{
  ℕ, ◌≤◌, ◌≡◌, refl, sym, ap, subst, Bool, true, false, ◌&&◌, Option, some, List, [], ◌∷◌, length,
  arith, if◌then◌else◌, Text, text_dec, get, put, get-put,
}
use relay_chatapp.Sockets.State.{RateLimit}
use relay_chatapp.Sockets.Limits.{prune}
use relay_chatapp.Sockets.Users.{
  UserState, fresh_user, Permit, roll_user, allow_in_window, Users, user_or_fresh,
  allow_user_message,
}
use relay_chatapp.Sockets.Sliding.{in_window}
use relay_chatapp.Sockets.Rows.{Row, over, Counted, Row-bounded, Row-later, Row-step}
use relay_chatapp.Sockets.UserWindows.{
  limit_of, recorded_of, counts, rolled-IsCounted, roll_user-recorded,
}

-- A call of any user: its time, the user, and whether it is a sensitive action.
pub record Call : Type 0 where
  pub time : ℕ
  pub user : Text
  pub is_sensitive : Bool

abbrev pub is_user : Text → Text → Bool
is_user u v = elim (text_dec u v) [ yes _ ↦ true | no _ ↦ false ]

-- The times of the allowed calls of the user `u`, or of its sensitive ones only, in a row of calls
-- of all users.
unfoldable pub allowed_times : Bool → RateLimit → Text → List Call → Users → List ℕ
unfolding allow_user_message text_dec
allowed_times only cfg u [] users = []
allowed_times only cfg u (call ∷ calls) users =
    let o = allow_user_message cfg call.time call.user call.is_sensitive users in
    let rest = allowed_times only cfg u calls o.0 in
    if is_user u call.user && (counts only call.is_sensitive && o.1.allowed)
    then call.time ∷ rest
    else rest

abbrev pub InTime : ℕ → List Call → Type 0
InTime now [] = Unit
InTime now (call ∷ calls) = (now ≤ call.time) × InTime call.time calls

abbrev state_of : Text → Users → UserState
state_of u users = user_or_fresh (get text_dec u users)

get-put_same :
    (u : Text) (s : UserState) (users : Users) → get text_dec u (put text_dec u s users) ≡ some s
get-put_same u s users = ground (arith, get-put text_dec u u s users)

own_call :
    (only : Bool) (cfg : RateLimit) (now c : ℕ) (w : Text) (k : Bool) (users : Users)
    → let o = allow_user_message cfg now (c ∷ w) k users in
      Counted
        (limit_of only cfg)
        now
        (prune cfg.window_ms now (recorded_of only (state_of (c ∷ w) users)))
        (counts only k && o.1.allowed)
        (recorded_of only (state_of (c ∷ w) o.0))
unfolding allow_user_message
own_call only cfg now c w k users =
    subst
      (λ (recent : List ℕ).
        Counted (limit_of only cfg) now recent (counts only k && o.1.allowed)
          (recorded_of only (state_of (c ∷ w) (put text_dec (c ∷ w) o.0 users))))
      (roll_user-recorded only cfg now s)
      (subst
        (λ (found : Option UserState).
          Counted (limit_of only cfg) now (recorded_of only (roll_user cfg now s))
            (counts only k && o.1.allowed) (recorded_of only (user_or_fresh found)))
        (sym (get-put_same (c ∷ w) o.0 users)) (rolled-IsCounted only k cfg now s))
  where
    s : UserState
    s = state_of (c ∷ w) users

    o : UserState × Permit
    o = allow_in_window cfg now k s

other_call :
    (cfg : RateLimit) (now : ℕ) (u v : Text) (k : Bool) (users : Users)
    → ¬ (u ≡ v)
    → state_of u (allow_user_message cfg now v k users).0 ≡ state_of u users
unfolding allow_user_message
other_call cfg now u [] k users h = refl
other_call cfg now u (c ∷ w) k users h =
    let s = (allow_in_window cfg now k (user_or_fresh (get text_dec (c ∷ w) users))).0 in
    let same : get text_dec u (put text_dec (c ∷ w) s users) ≡ get text_dec u users =
      ground (arith, h, get-put text_dec (c ∷ w) u s users) in
    ap user_or_fresh same

is_user-yes : (u v : Text) → u ≡ v → is_user u v ≡ true
is_user-yes u v h = ground (arith, h)

is_user-no : (u v : Text) → ¬ (u ≡ v) → is_user u v ≡ false
is_user-no u v h = ground (arith, h)

call-Row :
    (only : Bool) (cfg : RateLimit) (c : ℕ) (w : Text) (now : ℕ) (call : Call) (users : Users)
    (rest : List ℕ)
    → now ≤ call.time
    → let o = allow_user_message cfg call.time call.user call.is_sensitive users in
      Row (limit_of only cfg) cfg.window_ms call.time (recorded_of only (state_of (c ∷ w) o.0)) rest
      → Row (limit_of only cfg) cfg.window_ms now (recorded_of only (state_of (c ∷ w) users)) (
          if is_user (c ∷ w) call.user && (counts only call.is_sensitive && o.1.allowed)
          then call.time ∷ rest
          else rest)
call-Row only cfg c w now call users rest h later = elim (text_dec (c ∷ w) call.user) [
  | yes p ↦ rw (is_user-yes (c ∷ w) call.user p) (
      Row-step (limit_of only cfg) cfg.window_ms now call.time
        (recorded_of only (state_of (c ∷ w) users)) (recorded_of only (state_of (c ∷ w) after)) rest
        _ h
        (subst
          (λ (v : Text).
            let o = allow_user_message cfg call.time v call.is_sensitive users in
            Counted (limit_of only cfg) call.time
              (prune cfg.window_ms call.time (recorded_of only (state_of (c ∷ w) users)))
              (counts only call.is_sensitive && o.1.allowed)
              (recorded_of only (state_of (c ∷ w) o.0)))
          p (own_call only cfg call.time c w call.is_sensitive users))
        later)
  | no p ↦ rw (is_user-no (c ∷ w) call.user p) (
      Row-later (limit_of only cfg) cfg.window_ms now call.time _ rest h (
        subst
          (λ (s : UserState).
            Row (limit_of only cfg) cfg.window_ms call.time (recorded_of only s) rest)
          (other_call cfg call.time (c ∷ w) call.user call.is_sensitive users p) later))
]
  where
    after : Users
    after = (allow_user_message cfg call.time call.user call.is_sensitive users).0

allowed_times-Row :
    (only : Bool) (cfg : RateLimit) (c : ℕ) (w : Text) (now : ℕ) (calls : List Call) (users : Users)
    → InTime now calls
    → Row
        (limit_of only cfg)
        cfg.window_ms
        now
        (recorded_of only (state_of (c ∷ w) users))
        (allowed_times only cfg (c ∷ w) calls users)
unfolding allowed_times
allowed_times-Row only cfg c w now [] users h = over
allowed_times-Row only cfg c w now (call ∷ calls) users h =
    let after = (allow_user_message cfg call.time call.user call.is_sensitive users).0 in
    call-Row only cfg c w now call users (allowed_times only cfg (c ∷ w) calls after) h.0
      (allowed_times-Row only cfg c w call.time calls after h.1)

-- From a start with no user known, over any row of calls of all users and at a clock that does not
-- go back, allowUserMessage allows each user with an id that is not empty at most `maxMessages` messages in any stretch of time as long as the window, and at
-- most `maxSensitiveRoomActionsPerWindow` sensitive actions.
pub allowed_times-bounded :
    (only : Bool) (cfg : RateLimit) (c : ℕ) (w : Text) (calls : List Call) (t : ℕ)
    → InTime 0 calls
    → length (in_window cfg.window_ms t (allowed_times only cfg (c ∷ w) calls []))
      ≤ limit_of only cfg
unfolding get
allowed_times-bounded only cfg c w calls t h = Row-bounded (limit_of only cfg) cfg.window_ms _ t (
    subst
      (λ (times : List ℕ).
        Row (limit_of only cfg) cfg.window_ms 0 times (allowed_times only cfg (c ∷ w) calls []))
      (none_yet only) (allowed_times-Row only cfg c w 0 calls [] h))
  where
    none_yet : (only : Bool) → recorded_of only fresh_user ≡ []
    none_yet true = refl
    none_yet false = refl
