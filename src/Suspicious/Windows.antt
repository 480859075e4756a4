-- ===== src/Suspicious/Windows.antt =====
-- The windows of the detector (backend/suspicious/suspicious.detector.js): its buckets keep what
-- the history of the calls still has in the window.
use relay_chatapp.Base.{
  ◌≡◌, refl, sym, ap, ◌∙◌, ℕ, ◌≤◌, List, [], ◌∷◌, ◌++◌, Text, text_dec, get-put, get-drop_key, keep,
  keep-append, arith, if_cases,
}
use relay_chatapp.Messages.Life.{missing}
use relay_chatapp.Suspicious.Flags.{
  Detector, trim_timestamps, times_at, drop_idle, record_time, flag_burst, check_messages,
  check_reconnects, message_burst_window, reconnect_burst_window,
}
use relay_chatapp.Suspicious.Detector.{prune_user_flags, prune_users, ready_flags, evaluate_user}
use relay_chatapp.Suspicious.Calls.{Activity, messages, reconnects, burst_window, timestamps}

pub trim-trim :
    (window now later : ℕ) (times : List ℕ)
    → now ≤ later
    → trim_timestamps window later (trim_timestamps window now times)
      ≡ trim_timestamps window later times
unfolding trim_timestamps keep
trim-trim window now later [] h = refl
trim-trim window now later (x ∷ times) h = ground (arith, trim-trim window now later times)

pub trim-append :
    (window now : ℕ) (xs ys : List ℕ)
    → trim_timestamps window now (xs ++ ys)
      ≡ trim_timestamps window now xs ++ trim_timestamps window now ys
unfolding trim_timestamps
trim-append window now xs ys = keep-append _ xs ys

pub trim-empty :
    (window now later : ℕ) (times : List ℕ)
    → now ≤ later
    → trim_timestamps window now times ≡ []
    → trim_timestamps window later times ≡ []
unfolding trim_timestamps keep
trim-empty window now later times h e =
    sym (trim-trim window now later times h) ∙ ap (trim_timestamps window later) e

-- A bucket that is dropped has nothing in the window.
pub trim-drop_idle :
    (window now later : ℕ) (user who : Text) (table : List (Text × List ℕ))
    → now ≤ later
    → trim_timestamps window later (times_at who (drop_idle window now user table))
      ≡ trim_timestamps window later (times_at who table)
unfolding drop_idle times_at
trim-drop_idle window now later user who table h =
    ground (
      arith,
      get-drop_key text_dec user who table,
      trim-empty window now later (times_at user table),
    )

pub trim-record_time :
    (window now later : ℕ) (user who : Text) (table : List (Text × List ℕ))
    → now ≤ later
    → trim_timestamps window later (times_at who (record_time window now user table))
      ≡ trim_timestamps window later (elim (text_dec who user) [
        | yes _ ↦ times_at who table ++ now ∷ []
        | no _ ↦ times_at who table
      ])
unfolding record_time times_at
trim-record_time window now later user who table h = ground (
  arith,
  get-put text_dec user who (trim_timestamps window now (times_at user table ++ now ∷ [])) table,
  trim-trim window now later (times_at user table ++ now ∷ []),
)

-- Flags that age change no bucket in its window.
pub trim-prune_user_flags :
    (kind : Activity) (retention now later : ℕ) (user who : Text) (d : Detector)
    → now ≤ later
    → trim_timestamps
        (burst_window kind)
        later
        (times_at who (timestamps kind (prune_user_flags retention now user d)))
      ≡ trim_timestamps (burst_window kind) later (times_at who (timestamps kind d))
unfolding prune_user_flags
trim-prune_user_flags messages retention now later user who d h =
    ground (arith, trim-drop_idle message_burst_window now later user who d.message_timestamps)
trim-prune_user_flags reconnects retention now later user who d h =
    ground (arith, trim-drop_idle reconnect_burst_window now later user who d.reconnect_timestamps)

pub trim-prune_users :
    (kind : Activity) (retention now later : ℕ) (users : List Text) (who : Text) (d : Detector)
    → now ≤ later
    → trim_timestamps
        (burst_window kind)
        later
        (times_at who (timestamps kind (prune_users retention now users d)))
      ≡ trim_timestamps (burst_window kind) later (times_at who (timestamps kind d))
unfolding prune_users
trim-prune_users kind retention now later [] who d h = refl
trim-prune_users kind retention now later (user ∷ users) who d h =
    trim-prune_users kind retention now later users who (prune_user_flags retention now user d) h
    ∙ trim-prune_user_flags kind retention now later user who d h

pub timestamps-check_messages :
    (kind : Activity) (now : ℕ) (user : Text) (d : Detector)
    → timestamps kind (check_messages now user d) ≡ timestamps kind d
unfolding check_messages flag_burst
timestamps-check_messages messages now user d = ground arith
timestamps-check_messages reconnects now user d = ground arith

pub timestamps-check_reconnects :
    (kind : Activity) (now : ℕ) (user : Text) (d : Detector)
    → timestamps kind (check_reconnects now user d) ≡ timestamps kind d
unfolding check_reconnects flag_burst
timestamps-check_reconnects messages now user d = ground arith
timestamps-check_reconnects reconnects now user d = ground arith

pub timestamps-ready_flags :
    (kind : Activity) (retention now : ℕ) (user : Text) (d : Detector)
    → timestamps kind (ready_flags retention now user d)
      ≡ timestamps kind (prune_user_flags retention now user d)
unfolding ready_flags
timestamps-ready_flags messages retention now user d = refl
timestamps-ready_flags reconnects retention now user d = refl

pub trim-evaluate_user :
    (kind : Activity) (retention now later : ℕ) (user who : Text) (d : Detector)
    → now ≤ later
    → trim_timestamps
        (burst_window kind)
        later
        (times_at who (timestamps kind (evaluate_user retention now user d)))
      ≡ trim_timestamps (burst_window kind) later (times_at who (timestamps kind d))
unfolding evaluate_user
trim-evaluate_user kind retention now later user who d h =
    let left_after : Detector → List ℕ =
      λ e. trim_timestamps (burst_window kind) later (times_at who (timestamps kind e)) in
    if_cases (λ e. left_after e ≡ left_after d) (missing user) (λ _. refl)
      (λ _.
        ap (λ table. trim_timestamps (burst_window kind) later (times_at who table))
          (timestamps-check_reconnects kind now user
              (check_messages now user (ready_flags retention now user d))
            ∙ timestamps-check_messages kind now user (ready_flags retention now user d)
            ∙ timestamps-ready_flags kind retention now user d)
        ∙ trim-prune_user_flags kind retention now later user who d h)
