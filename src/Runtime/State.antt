-- ===== src/Runtime/State.antt =====
-- The state of runtime/emqtt.c. A queue is a list with the oldest entry in front, a slot -1 is
-- `none`, an array with a count is a list; the diagnostic counters of `emqtt_capacity_stats_t`, the
-- locks and the wiping of freed memory are left out.
use esp_mqtt.Base.{
  ℕ, Bool, true, false, Option, none, some, List, [], ◌∷◌, ◌++◌, ltb, if◌then◌else◌, length, set,
}
use esp_mqtt.Base.Int.{ℤ, negsuc}
use esp_mqtt.Contract.Receive.{ReceiveState, MessageInfo}
use esp_mqtt.Contract.Suback.{Subscription}

abbrev pub notice_capacity : ℕ
notice_capacity = 16

abbrev pub message_slots : ℕ
message_slots = 3

-- `emqtt_state_t`
pub data RuntimeState : Type 0 where
  stopped connecting subscribing ready disconnected failed : RuntimeState

-- `emqtt_error_t`
pub data RuntimeError : Type 0 where
  no_error transport_error tls_error auth_error broker_error subscription_error : RuntimeError
  fragment_error queue_error expired_error sdk_error : RuntimeError

-- `emqtt_event_kind_t`, and NOTICE_SUBACK, which only notices have.
pub data EventKind : Type 0 where
  kind_connected kind_ready kind_disconnected kind_message kind_puback kind_deleted : EventKind
  kind_unsubscribed kind_error kind_suback : EventKind

-- `notice_t`; `suback_count` is the length of `suback`.
pub record Notice : Type 0 where
  pub kind : EventKind
  pub message_id : ℤ
  pub slot : Option ℕ
  pub broker_code : ℤ
  pub tls_flags : ℤ
  pub arrived_us : ℕ
  pub error : RuntimeError
  pub suback : List ℕ

-- `emqtt_owned_message_t`
pub record OwnedMessage : Type 0 where
  pub info : MessageInfo
  pub payload : List ℕ

-- `struct emqtt_runtime`
pub record Runtime : Type 0 where
  pub tls : Bool
  pub subscriptions : List Subscription
  pub receiver : ReceiveState
  pub receiver_message : Option OwnedMessage
  pub receiver_slot : Option ℕ
  pub free_slots : List ℕ
  pub notices : List Notice
  pub messages : List (Option OwnedMessage)
  pub overflow : Bool
  pub started : Bool
  pub faulted : Bool
  pub state : RuntimeState
  pub pending_subscribe : ℤ
  pub pending_unsubscribe : ℤ
  pub pending_subscribe_count : ℕ
  pub pending_unsubscribe_index : ℕ
  pub pending_subscription : Subscription
  pub pending_dynamic_subscribe : Bool
  pub subscription_deadline_us : ℕ

-- `xQueueSend(r->free_slots, &slot, 0)`, with `overflow` set where the queue is full.
unfoldable pub send_slot : Runtime → ℕ → Runtime
send_slot r slot =
    if ltb (length r.free_slots) message_slots
    then record r { free_slots = r.free_slots ++ (slot ∷ []) }
    else record r { overflow = true }

unfoldable pub release_message_slot : Runtime → ℕ → Runtime
release_message_slot r slot = send_slot (record r { messages = set r.messages slot none }) slot

-- `release_receiver_slot`: the receiver is free again, then its slot goes back.
abbrev pub clear_receiver : Runtime → Runtime
clear_receiver r = record r {
  receiver_slot = none;
  receiver = record { received = 0; active = false };
  receiver_message = none;
}

unfoldable pub release_receiver_slot : Runtime → Runtime
release_receiver_slot r = elim r.receiver_slot [
  | none ↦ clear_receiver r
  | some slot ↦ send_slot (clear_receiver r) slot
]

abbrev pub drop_slot : Runtime → Option ℕ → Runtime
drop_slot r none = r
drop_slot r (some slot) = release_message_slot r slot

unfoldable pub post : Runtime → Notice → Runtime
post r notice =
    if ltb (length r.notices) notice_capacity
    then record r { notices = r.notices ++ (notice ∷ []) }
    else record (drop_slot r notice.slot) { overflow = true }

abbrev pub zero_subscription : Subscription
zero_subscription = record { topic = []; qos = 0 }

abbrev pub clear_pending : Runtime → Runtime
clear_pending r = record r {
  pending_subscribe = negsuc 0;
  pending_unsubscribe = negsuc 0;
  pending_subscribe_count = 0;
  pending_unsubscribe_index = 0;
  pending_dynamic_subscribe = false;
  pending_subscription = zero_subscription;
  subscription_deadline_us = 0;
}

-- `drain`: nothing is under way, every slot is free.
unfoldable pub drain : Runtime → Runtime
drain r = record (clear_pending (release_receiver_slot r)) {
  notices = [];
  messages = none ∷ none ∷ none ∷ [];
  free_slots = 0 ∷ 1 ∷ 2 ∷ [];
  overflow = false;
  faulted = false;
}
