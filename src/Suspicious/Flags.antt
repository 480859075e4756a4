-- ===== src/Suspicious/Flags.antt =====
-- The state of the detector (backend/suspicious/suspicious.detector.js) and what its calls do to a
-- bucket of times and to the flags of a user.
use relay_chatapp.Base.{
  ℕ, suc, ◌+◌, Bool, false, Option, none, some, List, [], ◌∷◌, ◌++◌, Text, codes, text_dec, get,
  put, drop_key, keep, length, ltb, if◌then◌else◌,
}
use relay_chatapp.Messages.Life.{missing}

pub record Flag : Type 0 where
  pub user_id : Text
  pub reason : Text
  pub count : ℕ
  pub last_detected_at : ℕ
  pub last_detail : Option Text

-- The module's maps, and the details of the events that the activity buffer was given.
pub record Detector : Type 0 where
  pub message_timestamps : List (Text × List ℕ)
  pub reconnect_timestamps : List (Text × List ℕ)
  pub flags_store : List (Text × List Flag)
  pub last_recorded_by_key : List (Text × ℕ)
  pub events : List Text

abbrev pub no_flags : Detector
no_flags = record {
  message_timestamps = [];
  reconnect_timestamps = [];
  flags_store = [];
  last_recorded_by_key = [];
  events = [];
}

abbrev pub message_burst_threshold : ℕ
message_burst_threshold = 25

abbrev pub message_burst_window : ℕ
message_burst_window = 10000

abbrev pub reconnect_burst_threshold : ℕ
reconnect_burst_threshold = 8

abbrev pub reconnect_burst_window : ℕ
reconnect_burst_window = 120000

abbrev pub flag_cooldown : ℕ
flag_cooldown = 8000

abbrev pub message_burst : Text
message_burst = codes "MESSAGE_BURST"

abbrev pub reconnect_burst : Text
reconnect_burst = codes "RECONNECT_BURST"

-- `ts > now - window`, the subtraction moved to the other side
unfoldable pub trim_timestamps : ℕ → ℕ → List ℕ → List ℕ
unfolding keep
trim_timestamps window now times = keep (λ t. ltb now (t + window)) times

-- `table[userId] || []`
unfoldable pub times_at : Text → List (Text × List ℕ) → List ℕ
unfolding get text_dec
times_at user table = elim (get text_dec user table) [ none ↦ [] | some times ↦ times ]

unfoldable pub flags_at : Text → List (Text × List Flag) → List Flag
unfolding get text_dec
flags_at user table = elim (get text_dec user table) [ none ↦ [] | some flags ↦ flags ]

-- The bucket of a user goes when all its times are old.
unfoldable pub drop_idle : ℕ → ℕ → Text → List (Text × List ℕ) → List (Text × List ℕ)
unfolding get drop_key text_dec trim_timestamps
drop_idle window now user table = elim (get text_dec user table) [
  | none ↦ table
  | some times ↦ elim (trim_timestamps window now times) [
    | [] ↦ drop_key text_dec user table
    | _ ∷ _ ↦ table
  ]
]

unfoldable pub ensure_flags_array : Text → List (Text × List Flag) → List (Text × List Flag)
unfolding get put text_dec
ensure_flags_array user table = elim (get text_dec user table) [
  | none ↦ put text_dec user [] table
  | some _ ↦ table
]

abbrev pub new_flag : ℕ → Text → Text → Option Text → Flag
new_flag now user reason detail = record {
  user_id = user;
  reason = reason;
  count = 1;
  last_detected_at = now;
  last_detail = detail;
}

-- `flags.find(f => f.reason === reason)`
unfoldable pub find_flag : Text → List Flag → Option Flag
unfolding text_dec
find_flag reason [] = none
find_flag reason (f ∷ flags) = elim (text_dec f.reason reason) [
  | yes _ ↦ some f
  | no _ ↦ find_flag reason flags
]

-- A change of the flag that `find` gives.
unfoldable pub change_flag : Text → (Flag → Flag) → List Flag → List Flag
unfolding text_dec
change_flag reason change [] = []
change_flag reason change (f ∷ flags) = elim (text_dec f.reason reason) [
  | yes _ ↦ change f ∷ flags
  | no _ ↦ f ∷ change_flag reason change flags
]

abbrev pub detect_again : ℕ → Flag → Flag
detect_again now f = record f { count = suc f.count; last_detected_at = now }

abbrev pub add_event : Text → Detector → Detector
add_event detail d = record d { events = d.events ++ detail ∷ [] }

-- a burst: one more detection, or a new flag with an event
unfoldable pub flag_burst : ℕ → Text → Text → Detector → Detector
unfolding flags_at find_flag change_flag put text_dec
flag_burst now user reason d =
    let flags = flags_at user d.flags_store in
    elim (find_flag reason flags) [
      | some _ ↦ record d {
        flags_store = put text_dec user (change_flag reason (detect_again now) flags) d.flags_store;
      }
      | none ↦ add_event (codes "userId: " ++ user ++ codes " (" ++ reason ++ codes ")") (record d {
        flags_store = put text_dec user (flags ++ new_flag now user reason none ∷ []) d.flags_store;
      })
    ]

-- `now - lastRecorded < FLAG_COOLDOWN_MS`
unfoldable pub is_cooling : ℕ → Text → List (Text × ℕ) → Bool
unfolding get text_dec
is_cooling now key table = elim (get text_dec key table) [
  | none ↦ false
  | some last ↦ ltb now (last + flag_cooldown)
]

abbrev pub cooldown_key : Text → Text → Text
cooldown_key user reason = user ++ codes ":" ++ reason

-- `metaDetail || undefined`
abbrev pub detail_or : Option Text → Text → Option Text
detail_or before detail = if missing detail then before else some detail

abbrev pub flag_event : Text → Text → Text → Text
flag_event user reason detail =
    codes "userId: "
    ++ user
    ++ codes " reason: "
    ++ reason
    ++ (if missing detail then [] else codes " " ++ detail)

unfoldable pub put_flag : ℕ → Text → Text → Text → List Flag → List Flag
unfolding find_flag change_flag
put_flag now user reason detail flags = elim (find_flag reason flags) [
  | some _ ↦
      change_flag reason
        (λ f. record (detect_again now f) { last_detail = detail_or f.last_detail detail }) flags
  | none ↦ flags ++ new_flag now user reason (detail_or none detail) ∷ []
]

-- one more time in a user's bucket, the old ones gone
unfoldable pub record_time : ℕ → ℕ → Text → List (Text × List ℕ) → List (Text × List ℕ)
unfolding times_at put text_dec trim_timestamps
record_time window now user table =
    put text_dec user (trim_timestamps window now (times_at user table ++ now ∷ [])) table

unfoldable pub check_messages : ℕ → Text → Detector → Detector
unfolding flag_burst times_at
check_messages now user d =
    if ltb message_burst_threshold (length (times_at user d.message_timestamps))
    then flag_burst now user message_burst d
    else d

unfoldable pub check_reconnects : ℕ → Text → Detector → Detector
unfolding flag_burst times_at
check_reconnects now user d =
    if ltb reconnect_burst_threshold (length (times_at user d.reconnect_timestamps))
    then flag_burst now user reconnect_burst d
    else d

unfoldable pub count_flags : List (Text × List Flag) → ℕ
count_flags [] = 0
count_flags ((user, flags) ∷ table) = length flags + count_flags table
