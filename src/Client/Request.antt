-- ===== src/Client/Request.antt =====
-- The calls of mqtt_client.c that subscribe, unsubscribe, ping and say goodbye.
use esp_mqtt.Base.{ℕ, Bool, true, false, ◌&&◌, Option, none, some, List, ltb, ◌==◌, if◌then◌else◌}
use esp_mqtt.Msg.Types.{Connection, mqtt_get_type}
use esp_mqtt.Msg.Build.{
  Built, TopicFilter, mqtt_msg_subscribe, mqtt_msg_unsubscribe, mqtt_msg_pingreq,
  mqtt_msg_disconnect,
}
use esp_mqtt.Msg.Layout.{packet}
use esp_mqtt.Outbox.{
  Heap, EspErr, esp_ok, esp_fail, outbox_get_size, outbox_set_pending, transmitted,
}
use esp_mqtt.Client.State.{
  Client, ClientState, state_wait_reconnect, state_init, state_connected, state_disconnected,
  mqtt_reset_pending_message,
}
use esp_mqtt.Client.Write.{esp_mqtt_write}
use esp_mqtt.Client.Send.{
  Reply, message_id, refused, outbox_full, is_connected, was_written, mqtt_enqueue,
}

abbrev id_stored : ℕ → Option ℕ → ℕ
id_stored before none = before
id_stored before (some id) = id

-- The request in the output buffer goes to the outbox, is marked as sent, and is written.
abbrev pub send_request : Client × Bool → Client × Reply
send_request (c, false) = (c, refused)
send_request (c, true) =
    let w =
      esp_mqtt_write
        (record c { outbox = (outbox_set_pending c.outbox c.pending_msg_id transmitted).0 }) in
    let d = w.0 in (d, if was_written w.1 then message_id d.pending_msg_id else refused)

abbrev pub request_built : Heap → Client → Option Built → Option (Client × Reply)
request_built h c none = none
request_built h c (some b) =
    let d : Connection = b.connection in
    let e : Client = record c {
      connection = d;
      pending_msg_id = id_stored c.pending_msg_id b.message_id;
    } in
    let f : Client = record e { pending_msg_type = mqtt_get_type (packet d) } in
    some (if d.len == 0 then (e, refused) else send_request (mqtt_enqueue h f none 0))

unfoldable pub esp_mqtt_client_subscribe_multiple :
    Heap → Client → List TopicFilter → Option (Client × Reply)
esp_mqtt_client_subscribe_multiple h c topics =
    let config = c.config in
    let r = mqtt_reset_pending_message c in
    if ltb 0 config.outbox_limit && ltb config.outbox_limit (outbox_get_size c.outbox)
    then some (c, outbox_full)
    else if is_connected c.state
    then request_built h r (mqtt_msg_subscribe r.connection topics)
    else some (c, refused)

unfoldable pub esp_mqtt_client_unsubscribe :
    Heap → Client → Option (List ℕ) → Option (Client × Reply)
esp_mqtt_client_unsubscribe h c topic =
    let r = mqtt_reset_pending_message c in
    if is_connected c.state
    then request_built h r (mqtt_msg_unsubscribe r.connection topic)
    else some (c, refused)

abbrev pub ping_built : Client → Option Connection → Option (Client × EspErr)
ping_built c none = none
ping_built c (some d) =
    let e : Client = record c { connection = d } in
    let w = esp_mqtt_write e in
    some (if d.len == 0 then (e, esp_fail) else (w.0, if was_written w.1 then esp_ok else esp_fail))

unfoldable pub esp_mqtt_client_ping : Client → Option (Client × EspErr)
esp_mqtt_client_ping c = ping_built c (mqtt_msg_pingreq c.connection)

-- `send_disconnect_msg` does not tell of a write that fails.
abbrev pub goodbye_built : Client → Option Connection → Option (Client × EspErr)
goodbye_built c none = none
goodbye_built c (some d) =
    let e : Client = record c { connection = d } in
    let w = esp_mqtt_write e in some (if d.len == 0 then (e, esp_fail) else (w.0, esp_ok))

unfoldable pub send_disconnect_msg : Client → Option (Client × EspErr)
send_disconnect_msg c = goodbye_built c (mqtt_msg_disconnect c.connection)

unfoldable pub esp_mqtt_client_disconnect : Client → Client
esp_mqtt_client_disconnect c = record c { disconnect_bit = true }

abbrev waits : ClientState → Bool
waits state_wait_reconnect = true
waits state_init = false
waits state_connected = false
waits state_disconnected = false

unfoldable pub esp_mqtt_client_reconnect : Client → Client × EspErr
esp_mqtt_client_reconnect c =
    if waits c.state
    then (record c { wait_timeout_ms = 0; reconnect_bit = true }, esp_ok)
    else (c, esp_fail)
