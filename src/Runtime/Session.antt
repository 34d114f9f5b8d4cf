-- ===== src/Runtime/Session.antt =====
-- The owner's calls of runtime/emqtt.c. The client is reached by calls whose answers are arguments:
-- `stop_ok` of `esp_mqtt_client_stop`, an id of `esp_mqtt_client_subscribe_multiple` and its kin,
-- the clock `now`. `owned` tells that the caller is the owner of this instance.
use esp_mqtt.Base.{
  ℕ, suc, ◌+◌, Bool, true, false, ◌||◌, ◌&&◌, not, Option, none, some, List, [], ◌∷◌, ◌++◌, ltb,
  leb, ◌==◌, if◌then◌else◌, take, drop, length, get_or,
}
use esp_mqtt.Base.Int.{ℤ, pos, negsuc, ltb_ℤ, is_negative}
use esp_mqtt.Contract.Topic.{emqtt_topic_valid, topic_max}
use esp_mqtt.Contract.Receive.{same_int, same_bytes}
use esp_mqtt.Contract.Suback.{Subscription, subscriptions_max, emqtt_suback_valid}
use esp_mqtt.Runtime.State.{
  Runtime, RuntimeState, stopped, connecting, subscribing, ready, disconnected, failed,
  RuntimeError, no_error, subscription_error, fragment_error, queue_error, Notice, EventKind,
  kind_connected, kind_ready, kind_disconnected, kind_suback, kind_unsubscribed, kind_error,
  kind_message, OwnedMessage, release_message_slot, drain, clear_pending,
}

-- The `esp_err_t` values that the calls answer.
pub data Answer : Type 0 where
  ok invalid_arg invalid_state fail outbox_full time_required : Answer

unfoldable pub api_result : ℤ → Answer
api_result id = if same_int id (negsuc 1) then outbox_full else if is_negative id then fail else ok

abbrev pub is_ok : Answer → Bool
is_ok ok = true
is_ok _ = false

abbrev pub same_state : RuntimeState → RuntimeState → Bool
same_state subscribing subscribing = true
same_state ready ready = true
same_state failed failed = true
same_state a b = false

-- `start_answer` is that of `esp_mqtt_client_start`.
unfoldable pub emqtt_start : Answer → Bool → Runtime → Bool → Bool → Runtime × Answer
emqtt_start start_answer owned r network_ready trusted_time_ready =
    if not owned || r.started || not network_ready
    then (r, invalid_state)
    else if r.tls && not trusted_time_ready
    then (r, time_required)
    else if is_ok start_answer
    then (record (drain r) { started = true; state = connecting }, ok)
    else (record (drain r) { state = failed }, start_answer)

unfoldable pub emqtt_stop : Answer → Bool → Runtime → Runtime × Answer
emqtt_stop stop_answer owned r =
    if not owned
    then (r, invalid_state)
    else if r.started && not (is_ok stop_answer)
    then (record r { state = failed }, stop_answer)
    else (record (drain (record r { started = false })) { state = stopped }, ok)

-- `fail_closed` is only reached by the owner.
unfoldable pub fail_closed : Answer → Runtime → Runtime
fail_closed stop_answer r = record (emqtt_stop stop_answer true r).0 {
  faulted = true;
  state = failed;
}

unfoldable pub submit_subscriptions : ℤ → ℕ → Runtime → ℕ → Bool → Runtime × Answer
submit_subscriptions id now r count dynamic =
    if count == 0
    then (record r { state = ready }, ok)
    else if not (ltb_ℤ (pos 0) id)
    then (record r { state = failed }, if same_int id (pos 0) then fail else api_result id)
    else (
      record r {
        pending_subscribe = id;
        pending_subscribe_count = count;
        pending_dynamic_subscribe = dynamic;
        subscription_deadline_us = now + 10000000;
        state = subscribing;
      },
      ok,
    )

-- `emqtt_event_t`
pub record OutEvent : Type 0 where
  pub kind : EventKind
  pub error : RuntimeError
  pub message_id : ℤ
  pub broker_code : ℤ
  pub tls_flags : ℤ
  pub message : Option OwnedMessage

abbrev zero_event : OutEvent
zero_event = record {
  kind = kind_error;
  error = no_error;
  message_id = pos 0;
  broker_code = pos 0;
  tls_flags = pos 0;
  message = none;
}

abbrev pub event_of : Notice → OutEvent
event_of n = record {
  kind = n.kind;
  error = n.error;
  message_id = n.message_id;
  broker_code = n.broker_code;
  tls_flags = n.tls_flags;
  message = none;
}

-- The session ends, and the event tells why.
abbrev pub broken : Answer → Runtime → OutEvent → RuntimeError → Runtime × OutEvent
broken stop_answer r e error =
    (fail_closed stop_answer r, record e { kind = kind_error; error = error })

-- The client's answers to what a call may ask of it.
pub record Answers : Type 0 where
  pub stop_answer : Answer
  pub subscribe_id : ℤ
  pub now : ℕ

unfoldable pub on_connected : Answers → Runtime → OutEvent → Runtime × OutEvent
on_connected a r e =
    let p =
      submit_subscriptions a.subscribe_id a.now (clear_pending r) (length r.subscriptions) false in
    if not (is_ok p.1)
    then broken a.stop_answer p.0 e subscription_error
    else if length r.subscriptions == 0
    then (p.0, record e { kind = kind_ready })
    else (p.0, e)

abbrev is_no_error : RuntimeError → Bool
is_no_error no_error = true
is_no_error _ = false

abbrev asked_for : Runtime → List Subscription
asked_for r = if r.pending_dynamic_subscribe then r.pending_subscription ∷ [] else r.subscriptions

-- The SUBACK answers what is pending and grants all of it.
unfoldable pub suback_matches : Runtime → Notice → Bool
suback_matches r n =
    ltb_ℤ (pos 0) r.pending_subscribe
    && same_int n.message_id r.pending_subscribe
    && same_state r.state subscribing
    && is_no_error n.error
    && emqtt_suback_valid (some n.suback) (length n.suback) (some (asked_for r))
        r.pending_subscribe_count

unfoldable pub accept_suback : Runtime → Runtime
accept_suback r = record r {
  subscriptions =
      if r.pending_dynamic_subscribe
      then r.subscriptions ++ (r.pending_subscription ∷ [])
      else r.subscriptions;
  state = ready;
}

unfoldable pub on_suback : Answers → Runtime → Notice → OutEvent → Runtime × OutEvent
on_suback a r n e =
    if suback_matches r n
    then (clear_pending (accept_suback r), record e { kind = kind_ready })
    else (let p = broken a.stop_answer r e subscription_error in (clear_pending p.0, p.1))

unfoldable pub unsuback_matches : Runtime → Notice → Bool
unsuback_matches r n =
    ltb_ℤ (pos 0) r.pending_unsubscribe
    && same_int n.message_id r.pending_unsubscribe
    && same_state r.state subscribing

-- The `memmove` over the entry at the index; `--subscription_count`.
unfoldable pub remove_at : ℕ → List Subscription → List Subscription
remove_at index subscriptions = take index subscriptions ++ drop (suc index) subscriptions

unfoldable pub on_unsuback : Answers → Runtime → Notice → OutEvent → Runtime × OutEvent
on_unsuback a r n e =
    if unsuback_matches r n
    then (
      clear_pending (record r {
        subscriptions = remove_at r.pending_unsubscribe_index r.subscriptions;
        state = ready;
      }),
      e,
    )
    else (let p = broken a.stop_answer r e subscription_error in (clear_pending p.0, p.1))

-- A message leaves its slot; a message notice without one is never posted.
unfoldable pub on_message : Runtime → Option ℕ → OutEvent → Runtime × OutEvent
on_message r none e = (r, e)
on_message r (some slot) e =
    (release_message_slot r slot, record e { message = get_or r.messages slot none })

unfoldable pub on_error : Answers → Runtime → RuntimeError → OutEvent → Runtime × OutEvent
on_error a r subscription_error e = (fail_closed a.stop_answer r, e)
on_error a r fragment_error e = (r, e)
on_error a r _ e = (record r { state = failed }, e)

unfoldable pub dispatch : Answers → Runtime → Notice → EventKind → Runtime × OutEvent
dispatch a r n kind_connected = on_connected a r (event_of n)
dispatch a r n kind_suback = on_suback a r n (event_of n)
dispatch a r n kind_unsubscribed = on_unsuback a r n (event_of n)
dispatch a r n kind_disconnected = (record (clear_pending r) { state = disconnected }, event_of n)
dispatch a r n kind_message = on_message r n.slot (event_of n)
dispatch a r n kind_error = on_error a r n.error (event_of n)
dispatch a r n _ = (r, event_of n)

-- The queue's part of `emqtt_poll`.
unfoldable pub poll_notices : Answers → Runtime → List Notice → Runtime × Option OutEvent
poll_notices a r [] =
    if not (same_state r.state subscribing) || ltb a.now r.subscription_deadline_us
    then (r, none)
    else (let p = broken a.stop_answer r zero_event subscription_error in (p.0, some p.1))
poll_notices a r (n ∷ rest) =
    let s : Runtime = record r { notices = rest } in
    if same_state r.state subscribing && leb r.subscription_deadline_us n.arrived_us
    then (let p = broken a.stop_answer s zero_event subscription_error in (p.0, some p.1))
    else (let p = dispatch a s n n.kind in (p.0, some p.1))

unfoldable pub emqtt_poll : Answers → Bool → Runtime → Runtime × Option OutEvent
emqtt_poll a owned r =
    if not owned || r.faulted
    then (r, none)
    else if r.overflow
    then (let p = broken a.stop_answer (record r { overflow = false }) zero_event queue_error in
        (p.0, some p.1))
    else poll_notices a r r.notices

-- `strnlen(topic, EMQTT_TOPIC_MAX + 1)` of a string without its terminator.
abbrev pub bounded_length : List ℕ → ℕ
bounded_length text = length (take (suc topic_max) text)

abbrev pub same_topic : List ℕ → Subscription → Bool
same_topic filter s = (length filter == length s.topic) && same_bytes (length filter) filter s.topic

unfoldable pub index_of : List ℕ → List Subscription → Option ℕ
index_of filter [] = none
index_of filter (s ∷ rest) =
    let later = index_of filter rest in
    if same_topic filter s then some 0 else (elim later [ none ↦ none | some i ↦ some (suc i) ])

abbrev pub is_none : Option ℕ → Bool
is_none none = true
is_none (some i) = false

unfoldable pub emqtt_subscribe : Answers → Bool → Runtime → Option (List ℕ) → ℕ → Runtime × Answer
emqtt_subscribe a owned r none qos =
    (r, if not owned || not (same_state r.state ready) then invalid_state else invalid_arg)
emqtt_subscribe a owned r (some filter) qos =
    if not owned || not (same_state r.state ready)
    then (r, invalid_state)
    else if ltb 1 qos
        || not (emqtt_topic_valid (some filter) (bounded_length filter) true)
        || (length r.subscriptions == subscriptions_max)
        || not (is_none (index_of filter r.subscriptions))
    then (r, invalid_arg)
    else (let p =
          submit_subscriptions a.subscribe_id a.now
            (record r { pending_subscription = record { topic = filter; qos = qos } }) 1 true in
        if is_ok p.1 then p else (fail_closed a.stop_answer p.0, p.1))

unfoldable pub send_unsubscribe : Answers → Runtime → ℕ → Runtime × Answer
send_unsubscribe a r index =
    let id = a.subscribe_id in
    if not (ltb_ℤ (pos 0) id)
    then (fail_closed a.stop_answer r, if same_int id (pos 0) then fail else api_result id)
    else (
      record r {
        pending_unsubscribe = id;
        pending_unsubscribe_index = index;
        subscription_deadline_us = a.now + 10000000;
        state = subscribing;
      },
      ok,
    )

unfoldable pub emqtt_unsubscribe : Answers → Bool → Runtime → Option (List ℕ) → Runtime × Answer
emqtt_unsubscribe a owned r none =
    (r, if not owned || not (same_state r.state ready) then invalid_state else invalid_arg)
emqtt_unsubscribe a owned r (some filter) =
    if not owned || not (same_state r.state ready)
    then (r, invalid_state)
    else if not (emqtt_topic_valid (some filter) (bounded_length filter) true)
    then (r, invalid_arg)
    else elim (index_of filter r.subscriptions) [
      | none ↦ (r, invalid_arg)
      | some index ↦ send_unsubscribe a r index
    ]

abbrev pub publish_payload_max_bytes : ℕ
publish_payload_max_bytes = 5120

abbrev bad_topic : Option (List ℕ) → Bool
bad_topic none = true
bad_topic (some text) = not (emqtt_topic_valid (some text) (bounded_length text) false)

abbrev missing : Option (List ℕ) → ℕ → Bool
missing none len = ltb 0 len
missing (some bytes) len = false

-- `emqtt_enqueue`, with `id` the answer of `esp_mqtt_client_enqueue`.
unfoldable pub emqtt_enqueue :
    ℤ → Bool → Runtime → Option (List ℕ) → Option (List ℕ) → ℕ → ℕ → Answer
emqtt_enqueue id owned r topic payload len qos =
    if not owned || not r.started || same_state r.state failed
    then invalid_state
    else if bad_topic topic || ltb publish_payload_max_bytes len || missing payload len || ltb 1 qos
    then invalid_arg
    else api_result id

unfoldable pub emqtt_state : Bool → Runtime → RuntimeState
emqtt_state owned r = if owned then r.state else failed
