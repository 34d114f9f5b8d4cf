-- ===== src/Runtime/Steps.antt =====
-- Runs of the session of runtime/emqtt.c: calls of the owner and callbacks of the client's worker
-- in any order, from the state that `emqtt_create` leaves.
use mathlib.Core.Path.{subst}
use esp_mqtt.Base.{
  ℕ, ◌≤◌, ◌≡◌, refl, sym, ◌∙◌, Bool, true, false, Option, none, some, List, [], ◌∷◌, ◌||◌, length,
  if_cases, if◌then◌else◌,
}
use esp_mqtt.Base.Int.{ℤ, pos, pos_part, is_negative, ltb_ℤ}
use esp_mqtt.Contract.Receive.{payload_max, Fragment, RxResult, rx_more, rx_complete, rx_rejected}
use esp_mqtt.Contract.Suback.{Subscription, subscriptions_max}
use esp_mqtt.Runtime.State.{
  Runtime, Notice, OwnedMessage, stopped, post, kind_error, fragment_error, drain,
  zero_subscription,
}
use esp_mqtt.Runtime.Events.{
  Event, connected, disconnected, subscribed, unsubscribed, published, deleted, error_event,
  data_event, other_event, on_event, on_data, on_opened, on_fragment, oldest, notice,
  receive_fragment, answered, complete, complete_in, complete_late, hand_over, open_receiver,
  take_slot, give_back,
}
use esp_mqtt.Runtime.Session.{
  Answer, Answers, emqtt_start, emqtt_stop, emqtt_poll, emqtt_subscribe, emqtt_unsubscribe,
}
use esp_mqtt.Runtime.Subscriptions.{
  wanted, IsBounded, send_slot-wanted, release_receiver_slot-wanted, post-wanted,
}
use esp_mqtt.Runtime.Bounds.{
  Bounded, drain-Bounded, emqtt_start-Bounded, emqtt_stop-Bounded, emqtt_poll-Bounded,
  emqtt_subscribe-Bounded, emqtt_unsubscribe-Bounded,
}

oldest-wanted : (r : Runtime) (l : List ℕ) → wanted (oldest r l).0 ≡ wanted r
oldest-wanted r [] = refl
oldest-wanted r (slot ∷ slots) = refl

take_slot-wanted : (r : Runtime) → wanted (take_slot r).0 ≡ wanted r
unfolding take_slot
take_slot-wanted r = oldest-wanted r r.free_slots

give_back-wanted : (r : Runtime) (slot : Option ℕ) → wanted (give_back r slot) ≡ wanted r
give_back-wanted r none = refl
give_back-wanted r (some slot) = send_slot-wanted r slot

hand_over-wanted :
    (r : Runtime) (message : OwnedMessage) (slot : ℕ) (n : Notice)
    → wanted (hand_over r message slot n) ≡ wanted r
unfolding hand_over
hand_over-wanted r message slot n = post-wanted _ _

open_receiver-wanted :
    (storage : Bool) (r : Runtime) (size : ℕ) → wanted (open_receiver storage r size).0 ≡ wanted r
unfolding open_receiver
open_receiver-wanted true r size = take_slot-wanted r
open_receiver-wanted false r size =
    give_back-wanted (take_slot r).0 (take_slot r).1 ∙ take_slot-wanted r

complete_late-wanted :
    (r : Runtime) (slot : Option ℕ) (message : OwnedMessage) (n : Notice)
    → wanted (complete_late r slot message n) ≡ wanted r
unfolding complete_late
complete_late-wanted r none message n = release_receiver_slot-wanted r
complete_late-wanted r (some slot) message n = hand_over-wanted r message slot n

complete_in-wanted :
    (r : Runtime) (slot : Option ℕ) (message : OwnedMessage) (n : Notice)
    → wanted (complete_in r slot message n) ≡ wanted r
unfolding complete_in
complete_in-wanted r (some slot) message n = hand_over-wanted r message slot n
complete_in-wanted r none message n =
    complete_late-wanted (take_slot r).0 (take_slot r).1 message n ∙ take_slot-wanted r

complete-wanted :
    (r : Runtime) (message : OwnedMessage) (n : Notice) → wanted (complete r message n) ≡ wanted r
unfolding complete
complete-wanted r message n = complete_in-wanted r r.receiver_slot message n

answered-wanted :
    (r : Runtime) (result : RxResult) (message : OwnedMessage) (id : ℤ) (now : ℕ)
    → wanted (answered r result message id now) ≡ wanted r
unfolding answered
answered-wanted r rx_more message id now = refl
answered-wanted r rx_rejected message id now = post-wanted _ _ ∙ release_receiver_slot-wanted r
answered-wanted r rx_complete message id now = complete-wanted r message _

receive_fragment-wanted :
    (r : Runtime) (message : OwnedMessage) (f : Fragment) (now : ℕ)
    → wanted (receive_fragment r message f now) ≡ wanted r
unfolding receive_fragment
receive_fragment-wanted r message f now = answered-wanted _ _ _ _ _

on_opened-wanted :
    (r : Runtime) (o : Option OwnedMessage) (f : Fragment) (now : ℕ)
    → wanted (on_opened r o f now) ≡ wanted r
unfolding on_opened
on_opened-wanted r none f now = refl
on_opened-wanted r (some message) f now = receive_fragment-wanted r message f now

on_fragment-wanted :
    (storage : Bool) (r : Runtime) (o : Option OwnedMessage) (f : Fragment) (now : ℕ)
    → wanted (on_fragment storage r o f now) ≡ wanted r
unfolding on_fragment
on_fragment-wanted storage r (some message) f now = receive_fragment-wanted r message f now
on_fragment-wanted storage r none f now =
    let p = open_receiver storage r (pos_part f.total_length) in
    let opened = open_receiver-wanted storage r (pos_part f.total_length) in
    if_cases (λ s. wanted s ≡ wanted r)
      (is_negative f.total_length || ltb_ℤ (pos payload_max) f.total_length)
      (post r (notice kind_error fragment_error f.message_id now))
      (if p.1 then on_opened p.0 p.0.receiver_message f now else p.0) (λ _. post-wanted _ _)
      (λ _.
        if_cases (λ s. wanted s ≡ wanted r) p.1 (on_opened p.0 p.0.receiver_message f now) p.0
          (λ _. on_opened-wanted p.0 p.0.receiver_message f now ∙ opened) (λ _. opened))

on_data-wanted :
    (storage : Bool) (r : Runtime) (f : Fragment) (now : ℕ)
    → wanted (on_data storage r f now) ≡ wanted r
unfolding on_data
on_data-wanted storage r f now = on_fragment-wanted storage r r.receiver_message f now

-- A callback never touches the list.
pub on_event-wanted :
    (storage : Bool) (now : ℕ) (r : Runtime) (id : ℤ) (event : Event)
    → wanted (on_event storage now r id event) ≡ wanted r
unfolding on_event
on_event-wanted storage now r id connected = post-wanted _ _ ∙ release_receiver_slot-wanted r
on_event-wanted storage now r id disconnected = post-wanted _ _ ∙ release_receiver_slot-wanted r
on_event-wanted storage now r id (subscribed data_len bytes) = post-wanted _ _
on_event-wanted storage now r id unsubscribed = post-wanted _ _
on_event-wanted storage now r id published = post-wanted _ _
on_event-wanted storage now r id deleted = post-wanted _ _
on_event-wanted storage now r id (error_event codes) = post-wanted _ _
on_event-wanted storage now r id (data_event f) = on_data-wanted storage r f now
on_event-wanted storage now r id other_event = refl

-- What `emqtt_create` leaves behind for a valid configuration.
unfoldable pub created : Bool → List Subscription → Runtime
created tls subscriptions = drain (record {
  tls = tls;
  subscriptions = subscriptions;
  receiver = record { received = 0; active = false };
  receiver_message = none;
  receiver_slot = none;
  free_slots = [];
  notices = [];
  messages = none ∷ none ∷ none ∷ [];
  overflow = false;
  started = false;
  faulted = false;
  state = stopped;
  pending_subscribe = pos 0;
  pending_unsubscribe = pos 0;
  pending_subscribe_count = 0;
  pending_unsubscribe_index = 0;
  pending_subscription = zero_subscription;
  pending_dynamic_subscribe = false;
  subscription_deadline_us = 0;
})

-- One call of the owner or one callback, with whatever answers.
pub data Step (r : Runtime) : Runtime → Type 0 where
  start :
      (answer : Answer) (owned network_ready trusted_time_ready : Bool)
      → Step r (emqtt_start answer owned r network_ready trusted_time_ready).0
  stop : (answer : Answer) (owned : Bool) → Step r (emqtt_stop answer owned r).0
  poll : (a : Answers) (owned : Bool) → Step r (emqtt_poll a owned r).0
  subscribe :
      (a : Answers) (owned : Bool) (filter : Option (List ℕ)) (qos : ℕ)
      → Step r (emqtt_subscribe a owned r filter qos).0
  unsubscribe :
      (a : Answers) (owned : Bool) (filter : Option (List ℕ))
      → Step r (emqtt_unsubscribe a owned r filter).0
  event : (storage : Bool) (now : ℕ) (id : ℤ) (e : Event) → Step r (on_event storage now r id e)

pub data Reachable (r : Runtime) : Runtime → Type 0 where
  here : Reachable r r
  after : {s t : Runtime} → Reachable r s → Step s t → Reachable r t

Step-Bounded : (r s : Runtime) → Step r s → Bounded r → Bounded s
Step-Bounded r _ (start answer owned n t) b = emqtt_start-Bounded answer owned r n t b
Step-Bounded r _ (stop answer owned) b = emqtt_stop-Bounded answer owned r b
Step-Bounded r _ (poll a owned) b = emqtt_poll-Bounded a owned r b
Step-Bounded r _ (subscribe a owned filter qos) b = emqtt_subscribe-Bounded a owned r filter qos b
Step-Bounded r _ (unsubscribe a owned filter) b = emqtt_unsubscribe-Bounded a owned r filter b
Step-Bounded r _ (event storage now id e) b =
    subst IsBounded (sym (on_event-wanted storage now r id e)) b

created-Bounded :
    (tls : Bool) (subscriptions : List Subscription)
    → length subscriptions ≤ subscriptions_max
    → Bounded (created tls subscriptions)
unfolding created
created-Bounded tls subscriptions h =
    drain-Bounded _ (record { limit = h; growing = λ e. cc; shrinking = λ e. cc })

-- In every state that a session reaches, from a configuration of at most eight subscriptions and by
-- any calls and events in any order and with any answers of the client: the desired subscriptions
-- fit their array of eight, so they do when the SUBACK that is waited for adds one, and the entry
-- that a waited-for UNSUBACK removes is in the list.
pub Reachable-IsBounded :
    (tls : Bool) (subscriptions : List Subscription) (r : Runtime)
    → length subscriptions ≤ subscriptions_max
    → Reachable (created tls subscriptions) r
    → IsBounded (wanted r)
Reachable-IsBounded tls subscriptions _ h here = created-Bounded tls subscriptions h
Reachable-IsBounded tls subscriptions r h (after before step) =
    Step-Bounded _ r step (Reachable-IsBounded tls subscriptions _ h before)
