-- ===== src/Suspicious/Bursts.antt =====
-- The flags for bursts (backend/suspicious/suspicious.detector.js): when a message or a reconnect
-- counts as one.
use relay_chatapp.Base.{
  ◌≡◌, refl, sym, ap, ◌∙◌, ℕ, ◌+◌, ◌≤◌, false, List, [], ◌∷◌, ◌++◌, Text, text_dec, get, put,
  get-put, get-drop_key, keep, length, ltb, arith, if◌then◌else◌, All,
}
use relay_chatapp.Messages.Life.{missing}
use relay_chatapp.Suspicious.Flags.{
  Detector, trim_timestamps, times_at, flags_at, record_time, no_flags, drop_idle,
  message_burst_window, reconnect_burst_window,
}
use relay_chatapp.Suspicious.Detector.{
  is_retained, prune_user_flags, ready_flags, evaluate_user, record_message, record_reconnect,
  get_user_flags,
}
use relay_chatapp.Suspicious.Calls.{
  Call, run, Activity, messages, reconnects, burst_window, burst_threshold, burst_reason,
  timestamps, times_of, record_activity,
}
use relay_chatapp.Suspicious.Windows.{trim-append, trim-trim, trim-prune_user_flags}
use relay_chatapp.Suspicious.Histories.{trim-run}
use relay_chatapp.Suspicious.Counts.{
  count_of, count_of-evaluate_user, flags-prune_user_flags, keep_idem, burst_bit,
}

-- a bucket keeps what was just recorded through the checks that follow
times-recorded :
    (window now : ℕ) (user : Text) (table : List (Text × List ℕ))
    → times_at user (drop_idle window now user (record_time window now user table))
      ≡ trim_timestamps window now (times_at user table ++ now ∷ [])
unfolding drop_idle record_time times_at
times-recorded window now user table =
    let times = trim_timestamps window now (times_at user table ++ now ∷ []) in
    ground (
      arith,
      get-put text_dec user user times table,
      get-drop_key text_dec user user (put text_dec user times table),
      trim-trim window now now (times_at user table ++ now ∷ []),
    )

times_at-record_time :
    (window now : ℕ) (user : Text) (table : List (Text × List ℕ))
    → times_at user (record_time window now user table)
      ≡ trim_timestamps window now (times_at user table ++ now ∷ [])
unfolding record_time times_at
times_at-record_time window now user table = ground (
  arith,
  get-put text_dec user user (trim_timestamps window now (times_at user table ++ now ∷ [])) table,
)

abbrev recorded : Activity → ℕ → Text → Detector → Detector
recorded messages now user d = record d {
  message_timestamps = record_time message_burst_window now user d.message_timestamps;
}
recorded reconnects now user d = record d {
  reconnect_timestamps = record_time reconnect_burst_window now user d.reconnect_timestamps;
}

times-ready_flags :
    (kind : Activity) (retention now : ℕ) (user : Text) (d : Detector)
    → times_at user (timestamps kind (ready_flags retention now user (recorded kind now user d)))
      ≡ trim_timestamps (burst_window kind) now (times_at user (timestamps kind d) ++ now ∷ [])
unfolding ready_flags prune_user_flags
times-ready_flags messages retention now user d = ground (
  arith,
  times-recorded message_burst_window now user d.message_timestamps,
  times_at-record_time message_burst_window now user d.message_timestamps,
)
times-ready_flags reconnects retention now user d = ground (
  arith,
  times-recorded reconnect_burst_window now user d.reconnect_timestamps,
  times_at-record_time reconnect_burst_window now user d.reconnect_timestamps,
)

record_activity-named :
    (kind : Activity) (retention now : ℕ) (user : Text) (d : Detector)
    → missing user ≡ false
    → record_activity kind retention now user d
      ≡ evaluate_user retention now user
          (recorded kind now user (prune_user_flags retention now user d))
unfolding record_activity record_message record_reconnect
record_activity-named messages retention now user d named = rw (named) refl
record_activity-named reconnects retention now user d named = rw (named) refl

flags-recorded :
    (kind : Activity) (now : ℕ) (user : Text) (d : Detector)
    → (recorded kind now user d).flags_store ≡ d.flags_store
flags-recorded messages now user d = refl
flags-recorded reconnects now user d = refl

count_of-record_activity :
    (kind : Activity) (retention now : ℕ) (user : Text) (d : Detector)
    → missing user ≡ false
    → count_of
        (burst_reason kind)
        (flags_at user (record_activity kind retention now user d).flags_store)
      ≡ count_of
          (burst_reason kind)
          (keep (is_retained retention now) (flags_at user d.flags_store))
        + burst_bit kind (
            trim_timestamps
              (burst_window kind)
              now
              (times_at user (timestamps kind (prune_user_flags retention now user d)) ++ now ∷ []))
count_of-record_activity kind retention now user d named =
    let pruned = prune_user_flags retention now user d in
    rw
      (
        record_activity-named kind retention now user d named,
        count_of-evaluate_user kind retention now user (recorded kind now user pruned) named,
        times-ready_flags kind retention now user pruned,
        flags-recorded kind now user pruned,
        flags-prune_user_flags retention now user d,
        keep_idem retention now (flags_at user d.flags_store),
      )
      refl

times-no_flags :
    (kind : Activity) (now : ℕ) (user : Text)
    → trim_timestamps (burst_window kind) now (times_at user (timestamps kind no_flags)) ≡ []
unfolding times_at trim_timestamps get keep
times-no_flags messages now user = refl
times-no_flags reconnects now user = refl

flags-get_user_flags :
    (retention now : ℕ) (user : Text) (d : Detector)
    → missing user ≡ false
    → (get_user_flags retention now user d).1
      ≡ keep (is_retained retention now) (flags_at user d.flags_store)
unfolding get_user_flags
flags-get_user_flags retention now user d named =
    rw (named) (flags-prune_user_flags retention now user d)

times-history :
    (kind : Activity) (retention now : ℕ) (calls : List (ℕ × Call)) (user : Text)
    → All (λ call. call.0 ≤ now) calls
    → trim_timestamps (burst_window kind) now (
        times_at user
          (timestamps kind (prune_user_flags retention now user (run retention calls no_flags)))
        ++ now ∷ [])
      ≡ trim_timestamps (burst_window kind) now (times_of kind user calls ++ now ∷ [])
times-history kind retention now calls user early =
    let window = burst_window kind in
    let after = run retention calls no_flags in
    trim-append window now
      (times_at user (timestamps kind (prune_user_flags retention now user after))) (now ∷ [])
    ∙ ap (λ times. times ++ trim_timestamps window now (now ∷ []))
        (trim-prune_user_flags kind retention now now user user after (omega arith)
          ∙ trim-run kind retention now calls user no_flags early
          ∙ ap (λ times. times ++ trim_timestamps window now (times_of kind user calls))
              (times-no_flags kind now user))
    ∙ sym (trim-append window now (times_of kind user calls) (now ∷ []))

-- A user with a name does something that is counted for bursts, after calls in any sequence with
-- no later time. The flag for bursts of this then counts one detection more than the user's flags
-- that are still kept, if the user's whole history with this has more than the threshold in the
-- window, and exactly the same if not.
pub burst_counted :
    (kind : Activity) (retention now : ℕ) (calls : List (ℕ × Call)) (user : Text)
    → missing user ≡ false
    → All (λ call. call.0 ≤ now) calls
    → count_of (burst_reason kind) (
        flags_at user
          (record_activity kind retention now user (run retention calls no_flags)).flags_store)
      ≡ count_of
          (burst_reason kind)
          (get_user_flags retention now user (run retention calls no_flags)).1
        + (if ltb (burst_threshold kind) (
              length
                (trim_timestamps (burst_window kind) now (times_of kind user calls ++ now ∷ [])))
            then 1
            else 0)
burst_counted kind retention now calls user named early =
    count_of-record_activity kind retention now user (run retention calls no_flags) named
    ∙ ap
        (λ times.
          count_of (burst_reason kind) (
            keep (is_retained retention now)
              (flags_at user (run retention calls no_flags).flags_store))
          + burst_bit kind times)
        (times-history kind retention now calls user early)
    ∙ ap
        (λ flags.
          count_of (burst_reason kind) flags
          + burst_bit kind
              (trim_timestamps (burst_window kind) now (times_of kind user calls ++ now ∷ [])))
        (sym (flags-get_user_flags retention now user (run retention calls no_flags) named))
