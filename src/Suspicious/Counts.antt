-- ===== src/Suspicious/Counts.antt =====
-- The flags that the detector counts (backend/suspicious/suspicious.detector.js): what a check for
-- bursts adds to a count.
use relay_chatapp.Base.{
  ◌≡◌, refl, ap, ℕ, suc, ◌+◌, false, none, some, List, [], ◌∷◌, ◌++◌, Text, text_dec, ℕ_discrete,
  get-put, get-drop_key, keep, length, ltb, arith, if◌then◌else◌,
}
use relay_chatapp.Messages.Life.{missing}
use relay_chatapp.Suspicious.Flags.{
  Flag, Detector, times_at, flags_at, find_flag, change_flag, detect_again, new_flag, flag_burst,
  check_messages, check_reconnects, message_burst, reconnect_burst, ensure_flags_array,
}
use relay_chatapp.Suspicious.Detector.{is_retained, prune_user_flags, ready_flags, evaluate_user}
use relay_chatapp.Suspicious.Calls.{
  Activity, messages, reconnects, burst_threshold, burst_reason, timestamps,
}
use relay_chatapp.Suspicious.Windows.{timestamps-check_messages}

-- how often a user was found to do what the flag says
unfoldable pub count_of : Text → List Flag → ℕ
unfolding find_flag
count_of reason flags = elim (find_flag reason flags) [ none ↦ 0 | some f ↦ f.count ]

count_of-change_flag :
    (now : ℕ) (reason wanted : Text) (flags : List Flag)
    → count_of wanted (change_flag reason (detect_again now) flags)
      ≡ (elim (find_flag wanted flags) [
        | none ↦ 0
        | some f ↦ elim (text_dec reason wanted) [ yes _ ↦ suc f.count | no _ ↦ f.count ]
      ])
unfolding count_of change_flag find_flag
count_of-change_flag now reason wanted [] = refl
count_of-change_flag now reason wanted (f ∷ flags) =
    ground (arith, count_of-change_flag now reason wanted flags)

find_flag-append :
    (wanted : Text) (flags : List Flag) (f : Flag)
    → find_flag wanted (flags ++ f ∷ []) ≡ (elim (find_flag wanted flags) [
      | some g ↦ some g
      | none ↦ elim (text_dec f.reason wanted) [ yes _ ↦ some f | no _ ↦ none ]
    ])
unfolding find_flag
find_flag-append wanted [] f = refl
find_flag-append wanted (g ∷ flags) f = ground (arith, find_flag-append wanted flags f)

count_of-flag_burst :
    (now : ℕ) (user reason wanted : Text) (d : Detector)
    → count_of wanted (flags_at user (flag_burst now user reason d).flags_store)
      ≡ count_of wanted (flags_at user d.flags_store)
        + (elim (text_dec reason wanted) [ yes _ ↦ 1 | no _ ↦ 0 ])
unfolding flag_burst flags_at count_of
count_of-flag_burst now user reason wanted d =
    let flags = flags_at user d.flags_store in
    ground (
      arith,
      get-put text_dec user user (change_flag reason (detect_again now) flags) d.flags_store,
      get-put text_dec user user (flags ++ new_flag now user reason none ∷ []) d.flags_store,
      count_of-change_flag now reason wanted flags,
      find_flag-append wanted flags (new_flag now user reason none),
    )

pub flags-prune_user_flags :
    (retention now : ℕ) (user : Text) (d : Detector)
    → flags_at user (prune_user_flags retention now user d).flags_store
      ≡ keep (is_retained retention now) (flags_at user d.flags_store)
unfolding prune_user_flags flags_at keep
flags-prune_user_flags retention now user d = ground (
  arith,
  get-drop_key text_dec user user d.flags_store,
  get-put text_dec user user (keep (is_retained retention now) (flags_at user d.flags_store))
      d.flags_store,
)

pub keep_idem :
    (retention now : ℕ) (flags : List Flag)
    → keep (is_retained retention now) (keep (is_retained retention now) flags)
      ≡ keep (is_retained retention now) flags
unfolding keep
keep_idem retention now [] = refl
keep_idem retention now (f ∷ flags) = ground (arith, keep_idem retention now flags)

flags-ready_flags :
    (retention now : ℕ) (user : Text) (d : Detector)
    → flags_at user (ready_flags retention now user d).flags_store
      ≡ keep (is_retained retention now) (flags_at user d.flags_store)
unfolding ready_flags ensure_flags_array flags_at
flags-ready_flags retention now user d = ground (
  arith,
  flags-prune_user_flags retention now user d,
  get-put text_dec user user [] (prune_user_flags retention now user d).flags_store,
)

abbrev pub burst_bit : Activity → List ℕ → ℕ
burst_bit kind times = if ltb (burst_threshold kind) (length times) then 1 else 0

count_of-check_messages :
    (now : ℕ) (user wanted : Text) (d : Detector)
    → count_of wanted (flags_at user (check_messages now user d).flags_store)
      ≡ count_of wanted (flags_at user d.flags_store) + (elim (text_dec message_burst wanted) [
        | yes _ ↦ burst_bit messages (times_at user d.message_timestamps)
        | no _ ↦ 0
      ])
unfolding check_messages
count_of-check_messages now user wanted d =
    ground (arith, count_of-flag_burst now user message_burst wanted d)

count_of-check_reconnects :
    (now : ℕ) (user wanted : Text) (d : Detector)
    → count_of wanted (flags_at user (check_reconnects now user d).flags_store)
      ≡ count_of wanted (flags_at user d.flags_store) + (elim (text_dec reconnect_burst wanted) [
        | yes _ ↦ burst_bit reconnects (times_at user d.reconnect_timestamps)
        | no _ ↦ 0
      ])
unfolding check_reconnects
count_of-check_reconnects now user wanted d =
    ground (arith, count_of-flag_burst now user reconnect_burst wanted d)

-- a check counts for its own reason only
bursts_apart :
    (x y : ℕ)
    → ((elim (text_dec message_burst reconnect_burst) [ yes _ ↦ x | no _ ↦ y ]) ≡ y)
      × ((elim (text_dec reconnect_burst message_burst) [ yes _ ↦ x | no _ ↦ y ]) ≡ y)
      × ((elim (text_dec message_burst message_burst) [ yes _ ↦ x | no _ ↦ y ]) ≡ x)
      × ((elim (text_dec reconnect_burst reconnect_burst) [ yes _ ↦ x | no _ ↦ y ]) ≡ x)
unfolding text_dec ℕ_discrete
bursts_apart x y = (refl, refl, refl, refl)

pub count_of-evaluate_user :
    (kind : Activity) (retention now : ℕ) (user : Text) (d : Detector)
    → missing user ≡ false
    → count_of (burst_reason kind) (flags_at user (evaluate_user retention now user d).flags_store)
      ≡ count_of
          (burst_reason kind)
          (keep (is_retained retention now) (flags_at user d.flags_store))
        + burst_bit kind (times_at user (timestamps kind (ready_flags retention now user d)))
unfolding evaluate_user
count_of-evaluate_user messages retention now user d named =
    let ready = ready_flags retention now user d in
    rw
      (
        named,
        count_of-check_reconnects now user message_burst (check_messages now user ready),
        count_of-check_messages now user message_burst ready,
        flags-ready_flags retention now user d,
      )
      (omega (
        arith,
        (bursts_apart (burst_bit messages (times_at user ready.message_timestamps)) 0).2,
        (bursts_apart
            (burst_bit reconnects
              (times_at user (check_messages now user ready).reconnect_timestamps))
            0).1,
      ))
count_of-evaluate_user reconnects retention now user d named =
    let ready = ready_flags retention now user d in
    rw
      (
        named,
        count_of-check_reconnects now user reconnect_burst (check_messages now user ready),
        count_of-check_messages now user reconnect_burst ready,
        flags-ready_flags retention now user d,
      )
      (omega (
        arith,
        (bursts_apart (burst_bit messages (times_at user ready.message_timestamps)) 0).0,
        (bursts_apart
            (burst_bit reconnects
              (times_at user (check_messages now user ready).reconnect_timestamps))
            0).3,
        ap (λ table. burst_bit reconnects (times_at user table))
            (timestamps-check_messages reconnects now user ready),
      ))
