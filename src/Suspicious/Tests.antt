-- ===== src/Suspicious/Tests.antt =====
-- Runs of the detector on concrete calls, and the theorem at a concrete input.
use relay_chatapp.Base.{
  ◌≡◌, refl, ℕ, zero, suc, ◌≤◌, Option, some, List, [], ◌∷◌, Text, codes, text_dec, ℕ_discrete, get,
  All, arith, map,
}
use relay_chatapp.Suspicious.Flags.{flags_at, no_flags, message_burst}
use relay_chatapp.Suspicious.Detector.{record_message}
use relay_chatapp.Suspicious.Calls.{Call, message, flag, run, messages, record_activity, times_of}
use relay_chatapp.Suspicious.Counts.{count_of}
use relay_chatapp.Suspicious.Bursts.{burst_counted}

abbrev ann : Text
ann = codes "ann"

abbrev week : ℕ
week = 604800000

-- a number of messages at one time
abbrev sends : ℕ → List (ℕ × Call)
sends zero = []
sends (suc n) = (1000, message ann) ∷ sends n

sends_early : (n : ℕ) → All (λ call. call.0 ≤ 1001) (sends n)
sends_early zero = tt
sends_early (suc n) = (omega arith, sends_early n)

-- the message after 25 others
burst_counted_example :
    count_of message_burst
      (flags_at ann (record_message week 1001 ann (run week (sends 25) no_flags)).flags_store)
    ≡ 1
unfolding run get text_dec ℕ_discrete record_activity count_of times_of
burst_counted_example = burst_counted messages week 1001 (sends 25) ann refl (sends_early 25)

-- the burst goes on for one message more
burst_goes_on :
    map (λ f. f.count) (flags_at ann (run week (sends 27) no_flags).flags_store) ≡ 2 ∷ []
unfolding run get text_dec ℕ_discrete
burst_goes_on = refl

abbrev reported : Text
reported = codes "WS_RATE_LIMIT"

-- a flag again within the cooldown is not counted, and one after it is
abbrev reports : List (ℕ × Call)
reports =
    (1000, flag ann reported [])
    ∷ (5000, flag ann reported [])
    ∷ (9000, flag ann reported (codes "x"))
    ∷ []

reports_counted :
    map {B = ℕ × ℕ × Option Text}
      (λ f. (f.count, f.last_detected_at, f.last_detail))
      (flags_at ann (run week reports no_flags).flags_store)
    ≡ (2, 9000, some (codes "x")) ∷ []
unfolding run get text_dec ℕ_discrete
reports_counted = refl

-- one message leaves an entry with no flags, which pruning deletes and the next evaluation makes again
entry_left : (run week (sends 1) no_flags).flags_store ≡ (ann, []) ∷ []
unfolding run get text_dec ℕ_discrete
entry_left = refl
