-- ===== src/Messages/Delivery.antt =====
-- The delivery records: backend/services/delivery.service.js with
-- backend/websocket/state/directDeliveryStore.js.
use relay_chatapp.Base.{
  ℕ, Bool, true, false, not, ◌||◌, Option, none, some, List, [], ◌∷◌, ◌++◌, Text, codes, text_dec,
  contains, add, remove, get, put, keep, map, if◌then◌else◌,
}
use relay_chatapp.Messages.Life.{missing}

pub data DeliveryState : Type 0 where
  persisted : DeliveryState
  sent : DeliveryState
  delivered : DeliveryState
  read : DeliveryState

unfoldable pub delivery_dec : Discrete DeliveryState
delivery_dec = hlevel

unfoldable pub allowed_transitions : DeliveryState → List DeliveryState
allowed_transitions persisted = sent ∷ delivered ∷ []
allowed_transitions sent = delivered ∷ []
allowed_transitions delivered = read ∷ []
allowed_transitions read = []

-- `validateTransition` does not throw
unfoldable pub is_allowed : DeliveryState → DeliveryState → Bool
unfolding allowed_transitions contains delivery_dec
is_allowed from to = contains delivery_dec to (allowed_transitions from)

pub record Record : Type 0 where
  pub message_id : Text
  pub recipient_id : Text
  pub state : DeliveryState
  pub persisted_at : ℕ
  pub sent_at : Option ℕ
  pub delivered_at : Option ℕ
  pub read_at : Option ℕ

-- A failure that `recordDeliveryFailure` tells the metrics, with its reason.
pub data Reason : Type 0 where
  ack_timeout : Reason
  socket_closed : Reason
  replay_failed : Reason
  other : Reason

-- `timers` are the keys of `sentTimeouts`; `failures` is what was told, the last one first.
pub record Deliveries : Type 0 where
  pub records : List (Text × Record)
  pub timers : List Text
  pub failures : List (Text × Text × Reason)

abbrev pub no_deliveries : Deliveries
no_deliveries = record { records = []; timers = []; failures = [] }

abbrev pub delivery_key : Text → Text → Text
delivery_key id user = id ++ codes ":" ++ user

unfoldable pub get_delivery : Text → Text → Deliveries → Option Record
unfolding get text_dec
get_delivery id user ds = get text_dec (delivery_key id user) ds.records

unfoldable pub set_delivery : Text → Text → Record → Deliveries → Deliveries
unfolding put text_dec
set_delivery id user r ds = record ds { records = put text_dec (delivery_key id user) r ds.records }

abbrev pub new_record : ℕ → Text → Text → Record
new_record now id user = record {
  message_id = id;
  recipient_id = user;
  state = persisted;
  persisted_at = now;
  sent_at = none;
  delivered_at = none;
  read_at = none;
}

unfoldable pub create_delivery : ℕ → Text → Text → Deliveries → Deliveries
unfolding get_delivery set_delivery
create_delivery now id user ds =
    if missing id || missing user then ds else elim (get_delivery id user ds) [
      | some _ ↦ ds
      | none ↦ set_delivery id user (new_record now id user) ds
    ]

unfoldable pub create_deliveries : ℕ → Text → List Text → Deliveries → Deliveries
unfolding create_delivery
create_deliveries now id [] ds = ds
create_deliveries now id (user ∷ users) ds =
    create_deliveries now id users (create_delivery now id user ds)

unfoldable pub clear_timer : Text → Text → Deliveries → Deliveries
unfolding remove text_dec
clear_timer id user ds = record ds { timers = remove text_dec (delivery_key id user) ds.timers }

abbrev pub is_sent : DeliveryState → Bool
is_sent sent = true
is_sent _ = false

-- the record after a transition, with its time
abbrev pub advance : ℕ → DeliveryState → Record → Record
advance now persisted r = record r { state = persisted }
advance now sent r = record r { state = sent; sent_at = some now }
advance now delivered r = record r { state = delivered; delivered_at = some now }
advance now read r = record r { state = read; read_at = some now }

unfoldable pub settle_timer : DeliveryState → DeliveryState → Text → Text → Deliveries → Deliveries
unfolding clear_timer add text_dec
settle_timer from to id user ds =
    let ds' = if is_sent from then clear_timer id user ds else ds in
    if is_sent to
    then record ds' { timers = add text_dec (delivery_key id user) ds'.timers }
    else ds'

-- the deliveries and `ok`
unfoldable pub transition_state : ℕ → Text → Text → DeliveryState → Deliveries → Deliveries × Bool
unfolding get_delivery is_allowed settle_timer set_delivery
transition_state now id user new_state ds =
    if missing id || missing user then (ds, false) else elim (get_delivery id user ds) [
      | none ↦ (ds, false)
      | some r ↦
          if is_allowed r.state new_state
          then (
            set_delivery id user (advance now new_state r)
                (settle_timer r.state new_state id user ds),
            true,
          )
          else (ds, false)
    ]

unfoldable pub record_delivery_failure : Text → Text → Reason → Deliveries → Deliveries
record_delivery_failure id user why ds = record ds { failures = (id, user, why) ∷ ds.failures }

-- The timer of a send goes off.
unfoldable pub timer_fires : Text → Text → Deliveries → Deliveries
unfolding clear_timer get_delivery record_delivery_failure
timer_fires id user ds =
    let ds' = clear_timer id user ds in
    elim (get_delivery id user ds') [
      | none ↦ ds'
      | some r ↦ if is_sent r.state then record_delivery_failure id user ack_timeout ds' else ds'
    ]

-- the loop of `recordFailuresForDisconnectedUser`
unfoldable pub fail_sent : Text → List (Text × Record) → Deliveries → Deliveries
unfolding text_dec clear_timer record_delivery_failure
fail_sent user [] ds = ds
fail_sent user ((_, r) ∷ rest) ds =
    let failed =
      record_delivery_failure r.message_id r.recipient_id socket_closed
        (clear_timer r.message_id r.recipient_id ds) in
    fail_sent user rest (elim (text_dec r.recipient_id user) [
      | yes _ ↦ if is_sent r.state then failed else ds
      | no _ ↦ ds
    ])

unfoldable pub record_failures_for_disconnected_user : Text → Deliveries → Deliveries
unfolding fail_sent
record_failures_for_disconnected_user user ds =
    if missing user then ds else fail_sent user ds.records ds

unfoldable pub get_deliveries_for_message : Text → Deliveries → List Record
unfolding keep text_dec
get_deliveries_for_message id ds =
    keep (λ r. elim (text_dec r.message_id id) [ yes _ ↦ true | no _ ↦ false ])
      (map (λ e. e.1) ds.records)

abbrev pub is_finished : DeliveryState → Bool
is_finished delivered = true
is_finished read = true
is_finished _ = false

unfoldable pub is_pending_replay : Text → Text → Deliveries → Bool
unfolding get_delivery
is_pending_replay id user ds = elim (get_delivery id user ds) [
  | none ↦ true
  | some r ↦ not (is_finished r.state)
]

abbrev pub or_time : Option ℕ → ℕ → Option ℕ
or_time none now = some now
or_time (some ℕ.zero) now = some now
or_time (some (ℕ.suc t)) now = some (ℕ.suc t)

unfoldable pub force_record : ℕ → Text → Text → Record → Deliveries → Deliveries
unfolding clear_timer set_delivery
force_record now id user r ds =
    set_delivery id user
      (record r { state = read; read_at = some now; delivered_at = or_time r.delivered_at now })
      (if is_sent r.state then clear_timer id user ds else ds)

unfoldable pub force_mark_as_read : ℕ → Text → Text → Deliveries → Deliveries × Bool
unfolding create_delivery get_delivery force_record
force_mark_as_read now id user ds =
    if missing id || missing user
    then (ds, false)
    else (let ds' = create_delivery now id user ds in
        elim (get_delivery id user ds') [
          | none ↦ (ds', false)
          | some r ↦ (force_record now id user r ds', true)
        ])
