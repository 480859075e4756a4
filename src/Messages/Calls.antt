-- ===== src/Messages/Calls.antt =====
-- The calls on the delivery records in any sequence (backend/services/delivery.service.js): what
-- makes their times and timers right.
use relay_chatapp.Base.{
  ◌≡◌, ◌≢◌, refl, ℕ, Bool, true, false, not, ◌&&◌, ◌||◌, Option, none, some, List, [], ◌∷◌, Text,
  text_dec, get, get-put, contains, contains-remove, if_cases, option_cases, arith,
}
use relay_chatapp.Messages.Life.{missing}
use relay_chatapp.Messages.Delivery.{
  DeliveryState, persisted, sent, delivered, read, Record, Reason, Deliveries, delivery_key,
  get_delivery, set_delivery, new_record, create_delivery, create_deliveries, clear_timer, is_sent,
  transition_state, record_delivery_failure, timer_fires, record_failures_for_disconnected_user,
  force_mark_as_read,
}

pub data Call : Type 0 where
  create : Text → Text → Call
  create_all : Text → List Text → Call
  move : Text → Text → DeliveryState → Call
  force : Text → Text → Call
  fires : Text → Text → Call
  fails : Text → Text → Reason → Call
  disconnects : Text → Call

unfoldable pub step : ℕ → Call → Deliveries → Deliveries
unfolding create_delivery create_deliveries transition_state force_mark_as_read timer_fires
    record_delivery_failure record_failures_for_disconnected_user
step now (create id user) ds = create_delivery now id user ds
step now (create_all id users) ds = create_deliveries now id users ds
step now (move id user state) ds = (transition_state now id user state ds).0
step now (force id user) ds = (force_mark_as_read now id user ds).0
step now (fires id user) ds = timer_fires id user ds
step now (fails id user why) ds = record_delivery_failure id user why ds
step now (disconnects user) ds = record_failures_for_disconnected_user user ds

unfoldable pub run : List (ℕ × Call) → Deliveries → Deliveries
unfolding step
run [] ds = ds
run ((now, call) ∷ calls) ds = run calls (step now call ds)

abbrev pub has_time : Option ℕ → Bool
has_time none = false
has_time (some t) = true

-- a record has the times of the states that it has come through
abbrev pub is_dated : DeliveryState → Option ℕ → Option ℕ → Option ℕ → Bool
is_dated persisted s d r = true
is_dated sent s d r = has_time s
is_dated delivered s d r = has_time d
is_dated read s d r = has_time d && has_time r

abbrev pub dated : Record → Bool
dated r = is_dated r.state r.sent_at r.delivered_at r.read_at

abbrev pub sent_at_key : Text → Deliveries → Bool
sent_at_key key ds = elim (get text_dec key ds.records) [ none ↦ false | some r ↦ is_sent r.state ]

pub record IsTimed (ds : Deliveries) : Type 0 where
  pub dates : (key : Text) (r : Record) → get text_dec key ds.records ≡ some r → dated r ≡ true
  pub timed : (key : Text) → contains text_dec key ds.timers ≡ true → sent_at_key key ds ≡ true

pub clear_timer-IsTimed :
    (id user : Text) (ds : Deliveries) → IsTimed ds → IsTimed (clear_timer id user ds)
unfolding clear_timer
clear_timer-IsTimed id user ds t = record {
  dates = t.dates;
  timed = λ key h.
      t.timed key (ground (arith, contains-remove text_dec (delivery_key id user) key ds.timers));
}

pub failure-IsTimed :
    (id user : Text) (why : Reason) (ds : Deliveries)
    → IsTimed ds
    → IsTimed (record_delivery_failure id user why ds)
unfolding record_delivery_failure
failure-IsTimed id user why ds t = record { dates = t.dates; timed = t.timed }

-- A record is set: it has its times, and no timer runs unless it is sent.
pub set_delivery-IsTimed :
    (id user : Text) (r : Record) (ds : Deliveries)
    → dated r ≡ true
    → not (contains text_dec (delivery_key id user) ds.timers) || is_sent r.state ≡ true
    → ((key : Text)
        → key ≢ delivery_key id user
        → contains text_dec key ds.timers ≡ true
        → sent_at_key key ds ≡ true)
    → ((key : Text) (q : Record) → get text_dec key ds.records ≡ some q → dated q ≡ true)
    → IsTimed (set_delivery id user r ds)
unfolding set_delivery
set_delivery-IsTimed id user r ds d h timed dates = record {
  dates = λ key q at.
      ground (arith, get-put text_dec (delivery_key id user) key r ds.records, dates key q, d);
  timed = λ key k.
      ground (arith, get-put text_dec (delivery_key id user) key r ds.records, timed key, h);
}

pub create-IsTimed :
    (now : ℕ) (id user : Text) (ds : Deliveries)
    → IsTimed ds
    → IsTimed (create_delivery now id user ds)
unfolding create_delivery get_delivery
create-IsTimed now id user ds t =
    if_cases IsTimed (missing id || missing user) (λ _. t)
      (λ _.
        option_cases IsTimed (get text_dec (delivery_key id user) ds.records)
          (λ new.
            set_delivery-IsTimed id user (new_record now id user) ds refl
              (ground (arith, t.timed (delivery_key id user), new)) (λ key _. t.timed key) t.dates)
          (λ _ _. t))

pub create_all-IsTimed :
    (now : ℕ) (id : Text) (users : List Text) (ds : Deliveries)
    → IsTimed ds
    → IsTimed (create_deliveries now id users ds)
unfolding create_deliveries
create_all-IsTimed now id [] ds t = t
create_all-IsTimed now id (user ∷ users) ds t =
    create_all-IsTimed now id users (create_delivery now id user ds)
      (create-IsTimed now id user ds t)
