-- ===== src/Messages/Timers.antt =====
-- The calls on the delivery records in any sequence (backend/services/delivery.service.js): their
-- times, and the timers for acknowledgements.
use relay_chatapp.Base.{
  ◌≡◌, refl, ℕ, Bool, true, not, ◌&&◌, ◌||◌, Option, none, some, List, [], ◌∷◌, Text, text_dec, get,
  remove, contains, contains-add, contains-remove, Bool-cases, inl, inr, if_cases, option_cases,
  dec_cases, arith,
}
use relay_chatapp.Messages.Life.{missing}
use relay_chatapp.Messages.Delivery.{
  DeliveryState, persisted, sent, delivered, read, is_allowed, Record, Reason, Deliveries,
  no_deliveries, delivery_key, get_delivery, set_delivery, create_delivery, clear_timer, is_sent,
  advance, settle_timer, transition_state, timer_fires, fail_sent,
  record_failures_for_disconnected_user, or_time, force_record, force_mark_as_read,
}
use relay_chatapp.Messages.Calls.{
  Call, create, create_all, move, force, fires, fails, disconnects, step, run, has_time, is_dated,
  dated, IsTimed, clear_timer-IsTimed, failure-IsTimed, set_delivery-IsTimed, create-IsTimed,
  create_all-IsTimed,
}

contains-settle_timer :
    (from to : DeliveryState) (id user key : Text) (ds : Deliveries)
    → contains text_dec key (settle_timer from to id user ds).timers
      ≡ (elim (text_dec key (delivery_key id user)) [
        | yes _ ↦ is_sent to || (not (is_sent from) && contains text_dec key ds.timers)
        | no _ ↦ contains text_dec key ds.timers
      ])
unfolding settle_timer clear_timer
contains-settle_timer from to id user key ds = ground (
  arith,
  contains-remove text_dec (delivery_key id user) key ds.timers,
  contains-add text_dec (delivery_key id user) key ds.timers,
  contains-add text_dec (delivery_key id user) key
      (remove text_dec (delivery_key id user) ds.timers),
)

records-settle_timer :
    (from to : DeliveryState) (id user : Text) (ds : Deliveries)
    → (settle_timer from to id user ds).records ≡ ds.records
unfolding settle_timer clear_timer
records-settle_timer from to id user ds = ground arith

dated-advance :
    (now : ℕ) (to : DeliveryState) (r : Record)
    → is_allowed r.state to ≡ true
    → dated r ≡ true
    → dated (advance now to r) ≡ true
unfolding is_allowed
dated-advance now persisted r h d = refl
dated-advance now sent r h d = refl
dated-advance now delivered r h d = refl
dated-advance now read r h d = from (r.state) h d
  where
    from :
        (s : DeliveryState)
        → is_allowed s read ≡ true
        → is_dated s r.sent_at r.delivered_at r.read_at ≡ true
        → has_time r.delivered_at && true ≡ true
    from persisted k e = absurd (cc k)
    from sent k e = absurd (cc k)
    from delivered k e = ground arith
    from read k e = absurd (cc k)

state-advance : (now : ℕ) (to : DeliveryState) (r : Record) → (advance now to r).state ≡ to
state-advance now persisted r = refl
state-advance now sent r = refl
state-advance now delivered r = refl
state-advance now read r = refl

forced_date : (now : ℕ) (at : Option ℕ) → has_time (or_time at now) && true ≡ true
forced_date now none = refl
forced_date now (some ℕ.zero) = refl
forced_date now (some (ℕ.suc n)) = refl

moved-IsTimed :
    (now : ℕ) (id user : Text) (to : DeliveryState) (r : Record) (ds : Deliveries)
    → get text_dec (delivery_key id user) ds.records ≡ some r
    → is_allowed r.state to ≡ true
    → IsTimed ds
    → IsTimed (set_delivery id user (advance now to r) (settle_timer r.state to id user ds))
moved-IsTimed now id user to r ds at ok t =
    let settled = settle_timer r.state to id user ds in
    let same = records-settle_timer r.state to id user ds in
    set_delivery-IsTimed id user (advance now to r) settled
      (dated-advance now to r ok (t.dates (delivery_key id user) r at))
      (ground (
        arith,
        contains-settle_timer r.state to id user (delivery_key id user) ds,
        t.timed (delivery_key id user),
        at,
        state-advance now to r,
      ))
      (λ key apart h.
        rw same
          (t.timed key (ground (arith, contains-settle_timer r.state to id user key ds, apart))))
      (λ key q at'. t.dates key q (rw (← same) at'))

move-IsTimed :
    (now : ℕ) (id user : Text) (to : DeliveryState) (ds : Deliveries)
    → IsTimed ds
    → IsTimed (transition_state now id user to ds).0
unfolding transition_state get_delivery
move-IsTimed now id user to ds t =
    if_cases (λ (x : Deliveries × Bool). IsTimed x.0) (missing id || missing user) (λ _. t)
      (λ _.
        option_cases (λ (x : Deliveries × Bool). IsTimed x.0)
          (get text_dec (delivery_key id user) ds.records) (λ _. t)
          (λ r at.
            if_cases (λ (x : Deliveries × Bool). IsTimed x.0) (is_allowed r.state to)
              (λ ok. moved-IsTimed now id user to r ds at ok t) (λ _. t)))

forced-IsTimed :
    (now : ℕ) (id user : Text) (r : Record) (ds : Deliveries)
    → get text_dec (delivery_key id user) ds.records ≡ some r
    → IsTimed ds
    → IsTimed (force_record now id user r ds)
unfolding force_record clear_timer
forced-IsTimed now id user r ds at t = elim (Bool-cases (is_sent r.state)) [
  | inl e ↦ rw e (
      set_delivery-IsTimed id user _ (clear_timer id user ds) (forced_date now r.delivered_at)
        (ground
          (arith, contains-remove text_dec (delivery_key id user) (delivery_key id user) ds.timers))
        (λ key _. (clear_timer-IsTimed id user ds t).timed key) t.dates)
  | inr e ↦ rw e (
      set_delivery-IsTimed id user _ ds (forced_date now r.delivered_at)
        (ground (arith, t.timed (delivery_key id user), at, e)) (λ key _. t.timed key) t.dates)
]

force-IsTimed :
    (now : ℕ) (id user : Text) (ds : Deliveries)
    → IsTimed ds
    → IsTimed (force_mark_as_read now id user ds).0
unfolding force_mark_as_read get_delivery
force-IsTimed now id user ds t =
    let created = create-IsTimed now id user ds t in
    if_cases (λ (x : Deliveries × Bool). IsTimed x.0) (missing id || missing user) (λ _. t)
      (λ _.
        option_cases (λ (x : Deliveries × Bool). IsTimed x.0)
          (get text_dec (delivery_key id user) (create_delivery now id user ds).records)
          (λ _. created)
          (λ r at. forced-IsTimed now id user r (create_delivery now id user ds) at created))

fires-IsTimed : (id user : Text) (ds : Deliveries) → IsTimed ds → IsTimed (timer_fires id user ds)
unfolding timer_fires
fires-IsTimed id user ds t =
    let cleared = clear_timer-IsTimed id user ds t in
    option_cases IsTimed (get_delivery id user (clear_timer id user ds)) (λ _. cleared)
      (λ r _.
        if_cases IsTimed (is_sent r.state)
          (λ _. failure-IsTimed id user Reason.ack_timeout (clear_timer id user ds) cleared)
          (λ _. cleared))

fail_sent-IsTimed :
    (user : Text) (l : List (Text × Record)) (ds : Deliveries)
    → IsTimed ds
    → IsTimed (fail_sent user l ds)
unfolding fail_sent
fail_sent-IsTimed user [] ds t = t
fail_sent-IsTimed user ((key, r) ∷ l) ds t =
    let failed =
      failure-IsTimed r.message_id r.recipient_id Reason.socket_closed
        (clear_timer r.message_id r.recipient_id ds)
        (clear_timer-IsTimed r.message_id r.recipient_id ds t) in
    fail_sent-IsTimed user l _ (
      dec_cases IsTimed (text_dec r.recipient_id user)
        (λ _. if_cases IsTimed (is_sent r.state) (λ _. failed) (λ _. t)) (λ _. t))

disconnects-IsTimed :
    (user : Text) (ds : Deliveries)
    → IsTimed ds
    → IsTimed (record_failures_for_disconnected_user user ds)
unfolding record_failures_for_disconnected_user
disconnects-IsTimed user ds t =
    if_cases IsTimed (missing user) (λ _. t) (λ _. fail_sent-IsTimed user ds.records ds t)

step-IsTimed : (now : ℕ) (call : Call) (ds : Deliveries) → IsTimed ds → IsTimed (step now call ds)
unfolding step
step-IsTimed now (create id user) ds t = create-IsTimed now id user ds t
step-IsTimed now (create_all id users) ds t = create_all-IsTimed now id users ds t
step-IsTimed now (move id user state) ds t = move-IsTimed now id user state ds t
step-IsTimed now (force id user) ds t = force-IsTimed now id user ds t
step-IsTimed now (fires id user) ds t = fires-IsTimed id user ds t
step-IsTimed now (fails id user why) ds t = failure-IsTimed id user why ds t
step-IsTimed now (disconnects user) ds t = disconnects-IsTimed user ds t

run-IsTimed : (calls : List (ℕ × Call)) (ds : Deliveries) → IsTimed ds → IsTimed (run calls ds)
unfolding run
run-IsTimed [] ds t = t
run-IsTimed ((now, call) ∷ calls) ds t =
    run-IsTimed calls (step now call ds) (step-IsTimed now call ds t)

-- After any calls from the empty store: a delivery record has the times of the states that it came
-- through (a SENT one when it was sent, a DELIVERED one when it was delivered, a READ one both
-- delivery and reading), and a timer for its acknowledgement runs only while it is SENT.
pub run_timed :
    (calls : List (ℕ × Call)) (key : Text) (r : Record)
    → get text_dec key (run calls no_deliveries).records ≡ some r
    → (dated r ≡ true)
      × (not (contains text_dec key (run calls no_deliveries).timers) || is_sent r.state ≡ true)
unfolding get contains
run_timed calls key r at =
    let t =
      run-IsTimed calls no_deliveries
        (record { dates = λ key r h. absurd (cc h); timed = λ key h. absurd (cc h) }) in
    (t.dates key r at, ground (arith, t.timed key, at))
