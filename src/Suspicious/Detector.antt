-- ===== src/Suspicious/Detector.antt =====
-- The calls of the detector (backend/suspicious/suspicious.detector.js).
use relay_chatapp.Base.{
  ℕ, ◌+◌, Bool, ◌||◌, none, some, List, [], ◌∷◌, map, Text, text_dec, get, put, drop_key, keep, leb,
  if◌then◌else◌,
}
use relay_chatapp.Messages.Life.{missing}
use relay_chatapp.Suspicious.Flags.{
  Flag, Detector, message_burst_window, reconnect_burst_window, flags_at, drop_idle,
  ensure_flags_array, add_event, is_cooling, cooldown_key, flag_event, put_flag, record_time,
  check_messages, check_reconnects, count_flags,
}

-- `retention` is FLAG_RETENTION_MS, which the environment sets
module _ (retention : ℕ) where
  abbrev pub is_retained : ℕ → Flag → Bool
  is_retained now f = leb now (f.last_detected_at + retention)

  unfoldable pub prune_user_flags : ℕ → Text → Detector → Detector
  unfolding get put drop_key drop_idle text_dec keep
  prune_user_flags now user d = elim (get text_dec user d.flags_store) [
    | none ↦ d
    | some flags ↦ elim (keep (is_retained now) flags) [
      | [] ↦ record d {
        flags_store = drop_key text_dec user d.flags_store;
        message_timestamps = drop_idle message_burst_window now user d.message_timestamps;
        reconnect_timestamps = drop_idle reconnect_burst_window now user d.reconnect_timestamps;
      }
      | f ∷ kept ↦ record d { flags_store = put text_dec user (f ∷ kept) d.flags_store }
    ]
  ]

  unfoldable pub prune_users : ℕ → List Text → Detector → Detector
  unfolding prune_user_flags
  prune_users now [] d = d
  prune_users now (user ∷ users) d = prune_users now users (prune_user_flags now user d)

  unfoldable pub prune_all_flags : ℕ → Detector → Detector
  unfolding prune_users
  prune_all_flags now d = prune_users now (map (λ entry. entry.0) d.flags_store) d

  unfoldable pub ready_flags : ℕ → Text → Detector → Detector
  unfolding prune_user_flags ensure_flags_array
  ready_flags now user d =
      let pruned = prune_user_flags now user d in
      record pruned { flags_store = ensure_flags_array user pruned.flags_store }

  unfoldable pub evaluate_user : ℕ → Text → Detector → Detector
  unfolding check_messages check_reconnects ready_flags
  evaluate_user now user d =
      if missing user
      then d
      else check_reconnects now user (check_messages now user (ready_flags now user d))

  unfoldable pub record_message : ℕ → Text → Detector → Detector
  unfolding prune_user_flags record_time evaluate_user
  record_message now user d =
      if missing user
      then d
      else let pruned = prune_user_flags now user d in
        evaluate_user now user (record pruned {
          message_timestamps = record_time message_burst_window now user pruned.message_timestamps;
        })

  unfoldable pub record_reconnect : ℕ → Text → Detector → Detector
  unfolding prune_user_flags record_time evaluate_user
  record_reconnect now user d =
      if missing user
      then d
      else let pruned = prune_user_flags now user d in
        evaluate_user now user (record pruned {
          reconnect_timestamps =
              record_time reconnect_burst_window now user pruned.reconnect_timestamps;
        })

  -- `detail` is `meta.lastDetail`, empty when it is no string
  unfoldable pub record_flag : ℕ → Text → Text → Text → Detector → Detector
  unfolding prune_user_flags is_cooling flags_at put put_flag text_dec
  record_flag now user reason detail d =
      if missing user || missing reason
      then d
      else let pruned = prune_user_flags now user d in
        if is_cooling now (cooldown_key user reason) pruned.last_recorded_by_key
        then pruned
        else add_event (flag_event user reason detail) (record pruned {
          flags_store =
              put text_dec user (put_flag now user reason detail (flags_at user pruned.flags_store))
                pruned.flags_store;
          last_recorded_by_key =
              put text_dec (cooldown_key user reason) now pruned.last_recorded_by_key;
        })

  unfoldable pub get_user_flags : ℕ → Text → Detector → Detector × List Flag
  unfolding prune_user_flags flags_at
  get_user_flags now user d =
      if missing user
      then (d, [])
      else let pruned = prune_user_flags now user d in (pruned, flags_at user pruned.flags_store)

  unfoldable pub get_total_flags_count : ℕ → Detector → Detector × ℕ
  unfolding prune_all_flags count_flags
  get_total_flags_count now d =
      let pruned = prune_all_flags now d in (pruned, count_flags pruned.flags_store)
