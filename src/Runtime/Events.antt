-- ===== src/Runtime/Events.antt =====
-- `on_event` of runtime/emqtt.c, the callback of the client's worker. Its answers from outside,
-- the clock and `calloc`, are arguments.
use esp_mqtt.Base.{
  ℕ, Bool, true, false, ◌||◌, ◌&&◌, Option, none, some, List, [], ◌∷◌, if◌then◌else◌, take,
  replicate, set,
}
use esp_mqtt.Base.Int.{ℤ, pos, pos_part, ltb_ℤ, is_negative}
use esp_mqtt.Contract.Receive.{
  Fragment, RxResult, rx_more, rx_complete, rx_rejected, emqtt_receive_into, same_int, zero_info,
  payload_max,
}
use esp_mqtt.Contract.Suback.{subscriptions_max}
use esp_mqtt.Runtime.State.{
  Runtime, RuntimeError, no_error, transport_error, tls_error, auth_error, broker_error,
  subscription_error, fragment_error, expired_error, sdk_error, Notice, EventKind, kind_connected,
  kind_disconnected, kind_suback, kind_unsubscribed, kind_puback, kind_deleted, kind_error,
  kind_message, OwnedMessage, send_slot, release_receiver_slot, post,
}

-- `esp_mqtt_error_type_t`, the ones that are told apart, and `esp_mqtt_error_codes_t`.
pub data ErrorType : Type 0 where
  tcp_transport connection_refused subscribe_failed other_type : ErrorType

pub record ErrorCodes : Type 0 where
  pub error_type : ErrorType
  pub connect_return_code : ℤ
  pub esp_tls_cert_verify_flags : ℤ
  pub esp_tls_stack_err : ℤ

-- The event ids with what `on_event` reads of `esp_mqtt_event_t` under each.
pub data Event : Type 0 where
  connected : Event
  disconnected : Event
  subscribed : ℤ → Option (List ℕ) → Event
  unsubscribed published deleted : Event
  error_event : Option ErrorCodes → Event
  data_event : Fragment → Event
  other_event : Event

abbrev is_zero : ℤ → Bool
is_zero z = same_int z (pos 0)

-- MQTT_CONNECTION_REFUSE_BAD_USERNAME and MQTT_CONNECTION_REFUSE_NOT_AUTHORIZED
abbrev refused_login : ℤ → Bool
refused_login code = same_int code (pos 4) || same_int code (pos 5)

unfoldable pub error_of : ErrorType → ErrorCodes → RuntimeError
error_of tcp_transport error =
    if is_zero error.esp_tls_cert_verify_flags && is_zero error.esp_tls_stack_err
    then transport_error
    else tls_error
error_of connection_refused error =
    if refused_login error.connect_return_code then auth_error else broker_error
error_of subscribe_failed error = subscription_error
error_of other_type error = sdk_error

-- `notice_t n = {.slot = -1, .message_id = event->msg_id, .arrived_us = esp_timer_get_time()}`
abbrev pub notice : EventKind → RuntimeError → ℤ → ℕ → Notice
notice kind error message_id now = record {
  kind = kind;
  message_id = message_id;
  slot = none;
  broker_code = pos 0;
  tls_flags = pos 0;
  arrived_us = now;
  error = error;
  suback = [];
}

unfoldable pub suback_notice : ℤ → ℕ → ℤ → Option (List ℕ) → Notice
suback_notice message_id now data_len none = notice kind_suback subscription_error message_id now
suback_notice message_id now data_len (some bytes) =
    if ltb_ℤ data_len (pos 1) || ltb_ℤ (pos subscriptions_max) data_len
    then notice kind_suback subscription_error message_id now
    else record (notice kind_suback no_error message_id now) {
      suback = take (pos_part data_len) bytes;
    }

unfoldable pub error_notice : ℤ → ℕ → Option ErrorCodes → Notice
error_notice message_id now none = notice kind_error sdk_error message_id now
error_notice message_id now (some codes) =
    record (notice kind_error (error_of codes.error_type codes) message_id now) {
      broker_code = codes.connect_return_code;
      tls_flags = codes.esp_tls_cert_verify_flags;
    }

-- The oldest free slot, if there is one.
abbrev pub oldest : Runtime → List ℕ → Runtime × Option ℕ
oldest r [] = (r, none)
oldest r (slot ∷ slots) = (record r { free_slots = slots }, some slot)

unfoldable pub take_slot : Runtime → Runtime × Option ℕ
take_slot r = oldest r r.free_slots

abbrev pub give_back : Runtime → Option ℕ → Runtime
give_back r none = r
give_back r (some slot) = send_slot r slot

-- The first fragment's storage; `none` where the callback ends without a notice.
unfoldable pub open_receiver : Bool → Runtime → ℕ → Runtime × Bool
open_receiver storage r size =
    let p = take_slot r in
    if storage
    then (
      record p.0 {
        receiver_slot = p.1;
        receiver_message =
            some (record { info = record zero_info { len = size }; payload = replicate size 0 });
      },
      true,
    )
    else (record (give_back p.0 p.1) { receiver_slot = none; overflow = true }, false)

-- A complete message goes to its slot: the receiver's, or one that has become free.
unfoldable pub hand_over : Runtime → OwnedMessage → ℕ → Notice → Runtime
hand_over r message slot n =
    post
      (record r {
        messages = set r.messages slot (some message);
        receiver_slot = none;
        receiver_message = none;
      })
      (record n { slot = some slot })

-- Without a free slot the message is lost and the overflow is noted.
unfoldable pub complete_late : Runtime → Option ℕ → OwnedMessage → Notice → Runtime
complete_late r none message n = record (release_receiver_slot r) { overflow = true }
complete_late r (some slot) message n = hand_over r message slot n

unfoldable pub complete_in : Runtime → Option ℕ → OwnedMessage → Notice → Runtime
complete_in r (some slot) message n = hand_over r message slot n
complete_in r none message n = let p = take_slot r in complete_late p.0 p.1 message n

unfoldable pub complete : Runtime → OwnedMessage → Notice → Runtime
complete r message n = complete_in r r.receiver_slot message n

-- What follows the answer of `emqtt_receive_into`.
unfoldable pub answered : Runtime → RxResult → OwnedMessage → ℤ → ℕ → Runtime
answered r rx_more message id now = r
answered r rx_rejected message id now =
    post (release_receiver_slot r) (notice kind_error fragment_error id now)
answered r rx_complete message id now = complete r message (notice kind_message no_error id now)

-- `emqtt_receive_into` on the receiver's message, whose length is the capacity.
unfoldable pub receive_fragment : Runtime → OwnedMessage → Fragment → ℕ → Runtime
receive_fragment r message f now =
    let p =
      emqtt_receive_into message.info.len
        (record { state = r.receiver; info = message.info; payload = message.payload }) (some f) in
    let taken : OwnedMessage = record { info = p.0.info; payload = p.0.payload } in
    answered (record r { receiver = p.0.state; receiver_message = some taken }) p.1 taken
      f.message_id now

unfoldable pub on_opened : Runtime → Option OwnedMessage → Fragment → ℕ → Runtime
on_opened r none f now = r
on_opened r (some message) f now = receive_fragment r message f now

-- MQTT_EVENT_DATA with the receiver's message as it stands; `storage` is the answer of `calloc`.
unfoldable pub on_fragment : Bool → Runtime → Option OwnedMessage → Fragment → ℕ → Runtime
on_fragment storage r (some message) f now = receive_fragment r message f now
on_fragment storage r none f now =
    if is_negative f.total_length || ltb_ℤ (pos payload_max) f.total_length
    then post r (notice kind_error fragment_error f.message_id now)
    else (let p = open_receiver storage r (pos_part f.total_length) in
        if p.1 then on_opened p.0 p.0.receiver_message f now else p.0)

unfoldable pub on_data : Bool → Runtime → Fragment → ℕ → Runtime
on_data storage r f now = on_fragment storage r r.receiver_message f now

-- `on_event`, with the message id of the event.
unfoldable pub on_event : Bool → ℕ → Runtime → ℤ → Event → Runtime
on_event storage now r id connected =
    post (release_receiver_slot r) (notice kind_connected no_error id now)
on_event storage now r id disconnected =
    post (release_receiver_slot r) (notice kind_disconnected no_error id now)
on_event storage now r id (subscribed data_len bytes) = post r (suback_notice id now data_len bytes)
on_event storage now r id unsubscribed = post r (notice kind_unsubscribed no_error id now)
on_event storage now r id published = post r (notice kind_puback no_error id now)
on_event storage now r id deleted = post r (notice kind_deleted expired_error id now)
on_event storage now r id (error_event codes) = post r (error_notice id now codes)
on_event storage now r id (data_event f) = on_data storage r f now
on_event storage now r id other_event = r
