-- ===== src/Client/Process.antt =====
-- `mqtt_process_receive` of mqtt_client.c with `remove_initiator_message`, for MQTT 3.1 and 3.1.1. A
-- builder of lib/mqtt_msg.c without a result gives none here.
pub mod Respond
pub mod Publish
pub mod Acks
pub mod Handshake
pub mod Partial
use esp_mqtt.Base.{ℕ, Bool, true, false, Option, none, some, ◌==◌, if◌then◌else◌, List}
use esp_mqtt.Msg.Types.{
  Connection, MessageType, subscribe, unsubscribe, publish, suback, unsuback, puback, pubrec,
  pubrel, pubcomp, pingresp, type_number, mqtt_get_type, mqtt_get_qos,
}
use esp_mqtt.Msg.Read.{mqtt_get_id}
use esp_mqtt.Msg.Build.{mqtt_msg_puback, mqtt_msg_pubrec, mqtt_msg_pubrel, mqtt_msg_pubcomp}
use esp_mqtt.Outbox.{
  Outbox, EspErr, esp_ok, esp_fail, outbox_delete, outbox_set_pending, PendingState, acknowledged,
}
use esp_mqtt.Client.State.{
  Client, EventId, event_unsubscribed, event_published, set_event_id, Received, receive_error,
  mid_message, nothing, message, esp_mqtt_dispatch_event_with_msgid, now, tick_read,
}
use esp_mqtt.Client.Receive.{mqtt_message_receive}
use esp_mqtt.Client.Deliver.{deliver_publish, deliver_suback}
use esp_mqtt.Client.Write.{Written, all_written, write_failed, write_timeout, esp_mqtt_write}

-- `remove_initiator_message`
abbrev pub is_ok : EspErr → Bool
is_ok esp_ok = true
is_ok esp_fail = false

unfoldable pub remove_initiator_message : Client → MessageType → ℕ → Client × Bool
remove_initiator_message c msg_type msg_id =
    let r = outbox_delete c.outbox msg_id (type_number msg_type) in
    (record c { outbox = r.0 }, is_ok r.1)

-- A case of the `switch` either breaks or returns ESP_FAIL.
abbrev pub Step : Type 0
Step = Option (Client × EspErr)

abbrev pub when_removed : (Client → Client × EspErr) → Client × Bool → Step
when_removed act (c, true) = some (act c)
when_removed act (c, false) = some (c, esp_ok)

abbrev pub announce : EventId → Client → Client × EspErr
announce id c = (esp_mqtt_dispatch_event_with_msgid (set_event_id c id), esp_ok)

abbrev pub of_write : Client × Written → Client × EspErr
of_write (c, all_written) = (c, esp_ok)
of_write (c, write_failed) = (c, esp_fail)
of_write (c, write_timeout) = (c, esp_fail)

-- A response that must be written, for PUBLISH.
abbrev pub respond : Client → Option Connection → Step
respond c none = none
respond c (some d) =
    let e : Client = record c { connection = d } in
    some (if d.len == 0 then (e, esp_fail) else of_write (esp_mqtt_write e))

-- A response whose write may fail, for PUBREC and PUBREL, behind a change of the outbox.
abbrev pub respond_anyway : Client → (Outbox → Outbox) → Option Connection → Step
respond_anyway c change none = none
respond_anyway c change (some d) =
    let e : Client = record c { connection = d } in
    let f : Client = record e { outbox = change e.outbox } in
    some (if d.len == 0 then (e, esp_fail) else ((esp_mqtt_write f).0, esp_ok))

abbrev pub acknowledge : ℕ → ℕ → Client × EspErr → Step
acknowledge msg_qos msg_id (c, esp_fail) = some (c, esp_fail)
acknowledge msg_qos msg_id (c, esp_ok) =
    if msg_qos == 1
    then respond c (mqtt_msg_puback c.connection msg_id)
    else if msg_qos == 2
    then respond c (mqtt_msg_pubrec c.connection msg_id)
    else some (c, esp_ok)

-- The `switch` over the type of the message.
unfoldable pub handle_message : Client → ℕ → ℕ → ℕ → Step
handle_message c msg_type msg_qos msg_id =
    if msg_type == type_number suback
    then when_removed deliver_suback (remove_initiator_message c subscribe msg_id)
    else if msg_type == type_number unsuback
    then when_removed (announce event_unsubscribed) (remove_initiator_message c unsubscribe msg_id)
    else if msg_type == type_number publish
    then acknowledge msg_qos msg_id (deliver_publish c)
    else if msg_type == type_number puback
    then when_removed (announce event_published) (remove_initiator_message c publish msg_id)
    else if msg_type == type_number pubrec
    then respond_anyway c (λ o. (outbox_set_pending o msg_id acknowledged).0)
        (mqtt_msg_pubrel c.connection msg_id)
    else if msg_type == type_number pubrel
    then respond_anyway c (λ o. o) (mqtt_msg_pubcomp c.connection msg_id)
    else if msg_type == type_number pubcomp
    then when_removed (announce event_published) (remove_initiator_message c publish msg_id)
    else if msg_type == type_number pingresp
    then some (tick_read (record c { wait_for_ping_resp = false; keepalive_tick = now c }), esp_ok)
    else some (c, esp_ok)

-- Behind the `switch` the buffer is taken for empty; an early return leaves it.
abbrev pub close_message : Step → Step
close_message none = none
close_message (some (c, esp_ok)) = some (record c { in_buffer_read_len = 0 }, esp_ok)
close_message (some (c, esp_fail)) = some (c, esp_fail)

unfoldable pub process_message : Client → Step
process_message c = close_message (
    handle_message c (mqtt_get_type c.in_buffer) (mqtt_get_qos c.in_buffer)
      (mqtt_get_id c.in_buffer c.message_length))

abbrev pub after_receive : ℕ → Client × Received → Step
after_receive previous (c, nothing) = some (c, esp_ok)
after_receive previous (c, mid_message) =
    some (c, if previous == c.in_buffer_read_len then esp_fail else esp_ok)
after_receive previous (c, receive_error) = some (c, esp_fail)
after_receive previous (c, message) = process_message c

unfoldable pub mqtt_process_receive : Client → Step
mqtt_process_receive c = after_receive c.in_buffer_read_len (mqtt_message_receive c)
