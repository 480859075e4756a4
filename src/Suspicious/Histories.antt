-- ===== src/Suspicious/Histories.antt =====
-- The buckets of the detector (backend/suspicious/suspicious.detector.js) after calls in any
-- sequence, and the history of these calls.
use relay_chatapp.Base.{
  ◌≡◌, sym, ℕ, ◌≤◌, List, [], ◌∷◌, ◌++◌, Text, text_dec, arith, if◌then◌else◌, All, map,
}
use mathlib.Core.List.{append-nil, append_assoc}
use relay_chatapp.Messages.Life.{missing}
use relay_chatapp.Suspicious.Flags.{
  Detector, trim_timestamps, times_at, record_time, message_burst_window, reconnect_burst_window,
}
use relay_chatapp.Suspicious.Detector.{
  prune_user_flags, prune_all_flags, record_message, record_reconnect, record_flag, get_user_flags,
  get_total_flags_count,
}
use relay_chatapp.Suspicious.Calls.{
  Call, message, reconnect, flag, evaluate, user_flags, total_flags, step, run, Activity, messages,
  reconnects, burst_window, timestamps, is_activity, times_of, record_activity,
}
use relay_chatapp.Suspicious.Windows.{
  trim-append, trim-record_time, trim-prune_user_flags, trim-prune_users, trim-evaluate_user,
}

trim-record_activity :
    (kind : Activity) (retention now later : ℕ) (user who : Text) (d : Detector)
    → now ≤ later
    → trim_timestamps
        (burst_window kind)
        later
        (times_at who (timestamps kind (record_activity kind retention now user d)))
      ≡ trim_timestamps (burst_window kind) later (
          if missing user then times_at who (timestamps kind d) else (elim (text_dec who user) [
            | yes _ ↦ times_at who (timestamps kind d) ++ now ∷ []
            | no _ ↦ times_at who (timestamps kind d)
          ]))
unfolding record_activity record_message record_reconnect
trim-record_activity messages retention now later user who d h =
    let pruned = prune_user_flags retention now user d in
    ground (
      arith,
      trim-evaluate_user messages retention now later user who (record pruned {
        message_timestamps = record_time message_burst_window now user pruned.message_timestamps;
      }),
      trim-record_time message_burst_window now later user who pruned.message_timestamps,
      trim-prune_user_flags messages retention now later user who d,
      trim-append message_burst_window later (times_at who d.message_timestamps) (now ∷ []),
      trim-append message_burst_window later (times_at who pruned.message_timestamps) (now ∷ []),
    )
trim-record_activity reconnects retention now later user who d h =
    let pruned = prune_user_flags retention now user d in
    ground (
      arith,
      trim-evaluate_user reconnects retention now later user who (record pruned {
        reconnect_timestamps =
            record_time reconnect_burst_window now user pruned.reconnect_timestamps;
      }),
      trim-record_time reconnect_burst_window now later user who pruned.reconnect_timestamps,
      trim-prune_user_flags reconnects retention now later user who d,
      trim-append reconnect_burst_window later (times_at who d.reconnect_timestamps) (now ∷ []),
      trim-append reconnect_burst_window later (times_at who pruned.reconnect_timestamps)
          (now ∷ []),
    )

trim-record_flag :
    (kind : Activity) (retention now later : ℕ) (user reason detail who : Text) (d : Detector)
    → now ≤ later
    → trim_timestamps
        (burst_window kind)
        later
        (times_at who (timestamps kind (record_flag retention now user reason detail d)))
      ≡ trim_timestamps (burst_window kind) later (times_at who (timestamps kind d))
unfolding record_flag
trim-record_flag messages retention now later user reason detail who d h =
    ground (arith, trim-prune_user_flags messages retention now later user who d)
trim-record_flag reconnects retention now later user reason detail who d h =
    ground (arith, trim-prune_user_flags reconnects retention now later user who d)

-- the other activity's call
trim-other :
    (retention now later : ℕ) (user who : Text) (d : Detector)
    → now ≤ later
    → (trim_timestamps message_burst_window later
          (times_at who (record_reconnect retention now user d).message_timestamps)
        ≡ trim_timestamps message_burst_window later (times_at who d.message_timestamps))
      × (trim_timestamps reconnect_burst_window later
            (times_at who (record_message retention now user d).reconnect_timestamps)
          ≡ trim_timestamps reconnect_burst_window later (times_at who d.reconnect_timestamps))
unfolding record_message record_reconnect
trim-other retention now later user who d h =
    let pruned = prune_user_flags retention now user d in
    (
      ground (
        arith,
        trim-evaluate_user messages retention now later user who (record pruned {
          reconnect_timestamps =
              record_time reconnect_burst_window now user pruned.reconnect_timestamps;
        }),
        trim-prune_user_flags messages retention now later user who d,
      ),
      ground (
        arith,
        trim-evaluate_user reconnects retention now later user who (record pruned {
          message_timestamps = record_time message_burst_window now user pruned.message_timestamps;
        }),
        trim-prune_user_flags reconnects retention now later user who d,
      ),
    )

-- one call: what the user did in it is in the bucket
trim-step :
    (kind : Activity) (retention now later : ℕ) (call : Call) (who : Text) (d : Detector)
    → now ≤ later
    → trim_timestamps
        (burst_window kind)
        later
        (times_at who (timestamps kind (step retention now call d)))
      ≡ trim_timestamps (burst_window kind) later (
          let past = times_at who (timestamps kind d) in
          if is_activity kind who call then past ++ now ∷ [] else past)
unfolding step is_activity record_activity get_user_flags get_total_flags_count prune_all_flags
trim-step messages retention now later (message user) who d h =
    ground (arith, trim-record_activity messages retention now later user who d)
trim-step reconnects retention now later (reconnect user) who d h =
    ground (arith, trim-record_activity reconnects retention now later user who d)
trim-step messages retention now later (reconnect user) who d h =
    (trim-other retention now later user who d h).0
trim-step reconnects retention now later (message user) who d h =
    (trim-other retention now later user who d h).1
trim-step messages retention now later (flag user reason detail) who d h =
    trim-record_flag messages retention now later user reason detail who d h
trim-step messages retention now later (evaluate user) who d h =
    trim-evaluate_user messages retention now later user who d h
trim-step messages retention now later (user_flags user) who d h =
    ground (arith, trim-prune_user_flags messages retention now later user who d)
trim-step messages retention now later total_flags who d h =
    trim-prune_users messages retention now later (map (λ entry. entry.0) d.flags_store) who d h
trim-step reconnects retention now later (flag user reason detail) who d h =
    trim-record_flag reconnects retention now later user reason detail who d h
trim-step reconnects retention now later (evaluate user) who d h =
    trim-evaluate_user reconnects retention now later user who d h
trim-step reconnects retention now later (user_flags user) who d h =
    ground (arith, trim-prune_user_flags reconnects retention now later user who d)
trim-step reconnects retention now later total_flags who d h =
    trim-prune_users reconnects retention now later (map (λ entry. entry.0) d.flags_store) who d h

pub trim-run :
    (kind : Activity) (retention later : ℕ) (calls : List (ℕ × Call)) (who : Text) (d : Detector)
    → All (λ call. call.0 ≤ later) calls
    → trim_timestamps
        (burst_window kind)
        later
        (times_at who (timestamps kind (run retention calls d)))
      ≡ trim_timestamps (burst_window kind) later (times_at who (timestamps kind d))
        ++ trim_timestamps (burst_window kind) later (times_of kind who calls)
unfolding run times_of
trim-run kind retention later [] who d h = sym (append-nil _)
trim-run kind retention later ((now, call) ∷ calls) who d (h, hs) =
    let window = burst_window kind in
    let past = times_at who (timestamps kind d) in
    ground (
      arith,
      trim-run kind retention later calls who (step retention now call d) hs,
      trim-step kind retention now later call who d h,
      trim-append window later past (now ∷ []),
      trim-append window later (now ∷ []) (times_of kind who calls),
      append_assoc (trim_timestamps window later past) (trim_timestamps window later (now ∷ []))
          (trim_timestamps window later (times_of kind who calls)),
    )
