-- ===== src/Sockets/Users.antt =====
-- The limiters per user: allowUserMessage of socketSafety.js over rateLimitStore.js, and
-- typingRateLimit.js over typingStore.js.
use relay_chatapp.Base.{
  ℕ, ◌+◌, ◌-◌, Bool, true, false, not, ◌&&◌, Option, none, some, List, [], ◌∷◌, ◌++◌, Text,
  text_dec, length, get, put, drop_key, ltb, leb, if◌then◌else◌,
}
use relay_chatapp.Sockets.State.{RateLimit}
use relay_chatapp.Sockets.Limits.{prune, is_nil, throttle_end}

pub record UserState : Type 0 where
  pub messages : List ℕ
  pub sensitive : List ℕ
  pub violations : ℕ
  pub throttled_until : ℕ

abbrev pub fresh_user : UserState
fresh_user = record { messages = []; sensitive = []; violations = 0; throttled_until = 0 }

pub record Permit : Type 0 where
  pub allowed : Bool
  pub remaining : Option ℕ
  pub reset_at : Option ℕ

-- the start of `allowUserMessage`: both windows move on, and an expired one resets the state
unfoldable pub roll_user : RateLimit → ℕ → UserState → UserState
unfolding prune
roll_user cfg now s =
    let recent = prune cfg.window_ms now s.messages in
    let expired = is_nil recent && not (is_nil s.messages) in
    record {
      messages = recent;
      sensitive = prune cfg.window_ms now s.sensitive;
      violations = if expired then 0 else s.violations;
      throttled_until = if expired then 0 else s.throttled_until;
    }

unfoldable pub user_violation : RateLimit → ℕ → UserState → UserState × Permit
unfolding throttle_end
user_violation cfg now s =
    let n = s.violations + 1 in
    let until =
      if leb cfg.violations_before_throttle n
      then throttle_end cfg.window_ms now s.messages
      else s.throttled_until in
    (
      record s { violations = n; throttled_until = until },
      record { allowed = false; remaining = some 0; reset_at = some until },
    )

-- `sensitiveRoomActions[0] || now`
abbrev first_or : List ℕ → ℕ → ℕ
first_or [] now = now
first_or (t ∷ _) now = t

-- the last part of `allowUserMessage`: the message counts
unfoldable pub record_message : RateLimit → ℕ → UserState → UserState × Permit
record_message cfg now s =
    let t = record s { messages = s.messages ++ now ∷ [] } in
    (
      t,
      record {
        allowed = true;
        remaining = some (cfg.max_messages - length t.messages);
        reset_at = some (now + cfg.window_ms);
      },
    )

-- `allowUserMessage` for a known user; `is_sensitive` says that the type is a sensitive action.
unfoldable pub allow_in_window : RateLimit → ℕ → Bool → UserState → UserState × Permit
unfolding roll_user user_violation record_message
allow_in_window cfg now is_sensitive s₀ =
    let s = roll_user cfg now s₀ in
    if ltb now s.throttled_until
    then (
      record s { violations = s.violations + 1 },
      record { allowed = false; remaining = none; reset_at = some s.throttled_until },
    )
    else if leb cfg.max_messages (length s.messages)
    then user_violation cfg now s
    else if is_sensitive
    then if leb cfg.max_sensitive (length s.sensitive)
      then (
        s,
        record {
          allowed = false;
          remaining = some 0;
          reset_at = some (first_or s.sensitive now + cfg.window_ms);
        },
      )
      else record_message cfg now (record s { sensitive = s.sensitive ++ now ∷ [] })
    else record_message cfg now s

abbrev pub Users : Type 0
Users = List (Text × UserState)

abbrev pub user_or_fresh : Option UserState → UserState
user_or_fresh none = fresh_user
user_or_fresh (some s) = s

-- A user without an id is refused. The stored object is changed in place.
unfoldable pub allow_user_message : RateLimit → ℕ → Text → Bool → Users → Users × Permit
unfolding get put text_dec allow_in_window
allow_user_message cfg now [] is_sensitive users =
    (users, record { allowed = false; remaining = none; reset_at = none })
allow_user_message cfg now (c ∷ w) is_sensitive users =
    let (s, permit) =
      allow_in_window cfg now is_sensitive (user_or_fresh (get text_dec (c ∷ w) users)) in
    (put text_dec (c ∷ w) s users, permit)

abbrev pub typing_window : ℕ
typing_window = 2000

abbrev pub max_typing : ℕ
max_typing = 4

abbrev pub Buckets : Type 0
Buckets = List (Text × List ℕ)

-- `prune`: an emptied bucket is deleted
unfoldable pub prune_bucket : ℕ → Text → Buckets → Buckets
unfolding get put drop_key text_dec prune
prune_bucket now key buckets = elim (get text_dec key buckets) [
  | none ↦ buckets
  | some times ↦
      let recent = prune typing_window now times in
      if is_nil times
      then buckets
      else if is_nil recent
      then drop_key text_dec key buckets
      else put text_dec key recent buckets
]

abbrev pub times_of : Option (List ℕ) → List ℕ
times_of none = []
times_of (some times) = times

-- `${userId}\x01${roomId}`
abbrev pub bucket_key : Text → Text → Text
bucket_key user room = user ++ 1 ∷ room

-- `check`: the clock is read for the pruning and again for the stamp
unfoldable pub check_typing : ℕ → ℕ → Text → Text → Buckets → Buckets × Bool
unfolding get put text_dec prune_bucket
check_typing now stamp [] room buckets = (buckets, false)
check_typing now stamp (c ∷ w) room buckets =
    let key = bucket_key (c ∷ w) room in
    let buckets' = prune_bucket now key buckets in
    let times = times_of (get text_dec key buckets') in
    if leb max_typing (length times)
    then (buckets', false)
    else (put text_dec key (times ++ stamp ∷ []) buckets', true)
