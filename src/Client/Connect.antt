-- ===== src/Client/Connect.antt =====
-- `esp_mqtt_connect` of mqtt_client.c.
use esp_mqtt.Base.{ℕ, zero, suc, false, Option, none, some, ltb, ◌==◌, if◌then◌else◌, length}
use esp_mqtt.Base.Bytes.{sub64}
use esp_mqtt.Msg.Types.{
  Connection, connack, type_number, mqtt_get_type, mqtt_get_connect_return_code,
}
use esp_mqtt.Msg.Connect.{mqtt_msg_connect}
use esp_mqtt.Msg.Read.{mqtt_get_id}
use esp_mqtt.Msg.Layout.{packet}
use esp_mqtt.Outbox.{EspErr, esp_ok, esp_fail}
use esp_mqtt.Client.State.{
  Client, ClientEvent, event_error, error_connection_refused, Received, receive_error, mid_message,
  nothing, message, mqtt_reset_pending_message, now, tick_read, esp_mqtt_dispatch_event_with_msgid,
}
use esp_mqtt.Client.Receive.{mqtt_message_receive}
use esp_mqtt.Client.Write.{Written, all_written, write_failed, write_timeout, esp_mqtt_write}

-- Another round of the `do` loop, unless the time is over.
abbrev pub again : (Client → Client × Received) → ℕ → Client × Received → Client × Received
again loop started (c, nothing) =
    let config = c.config in
    if ltb (sub64 (now c) started) config.network_timeout_ms
    then loop (tick_read c)
    else (tick_read c, nothing)
again loop started (c, message) = (c, message)
again loop started (c, mid_message) = (c, mid_message)
again loop started (c, receive_error) = (c, receive_error)

-- The `do` loop. Each round but the last reads the clock; without a reading left it is over.
unfoldable pub connack_loop : ℕ → ℕ → Client → Client × Received
connack_loop zero started c = (c, nothing)
connack_loop (suc rounds) started c =
    again (connack_loop rounds started) started (mqtt_message_receive c)

-- A connection that is refused is told to the handlers.
abbrev pub refuse : Client → ℕ → Client
refuse c code =
    let event : ClientEvent = record c.event {
      event_id = event_error;
      error_type = error_connection_refused;
      connect_return_code = code;
    } in
    esp_mqtt_dispatch_event_with_msgid (record c { event = event })

abbrev pub examine_connack : Client → Client × EspErr
examine_connack c =
    let d : Client = record c { in_buffer_read_len = 0 } in
    let code = mqtt_get_connect_return_code c.in_buffer in
    if mqtt_get_type c.in_buffer == type_number connack
    then (if code == 0 then (d, esp_ok) else (refuse d code, esp_fail))
    else (c, esp_fail)

abbrev pub after_connack : Client × Received → Client × EspErr
after_connack (c, message) = examine_connack c
after_connack (c, nothing) = (c, esp_fail)
after_connack (c, mid_message) = (c, esp_fail)
after_connack (c, receive_error) = (c, esp_fail)

abbrev pub after_request : Client × Written → Client × EspErr
after_request (c, write_failed) = (c, esp_fail)
after_request (c, write_timeout) = (c, esp_fail)
after_request (c, all_written) =
    let d : Client = record c { in_buffer_read_len = 0; message_length = 0 } in
    after_connack (connack_loop (suc (length c.ticks)) (now d) (tick_read d))

abbrev pub request_connection : Client → Option Connection → Option (Client × EspErr)
request_connection c none = none
request_connection c (some d) =
    let e : Client = record c { connection = d } in
    let bytes = packet d in
    let f : Client = record e {
      pending_msg_type = mqtt_get_type bytes;
      pending_msg_id = mqtt_get_id bytes d.len;
    } in
    some (if d.len == 0 then (e, esp_fail) else after_request (esp_mqtt_write f))

unfoldable pub esp_mqtt_connect : Client → Option (Client × EspErr)
esp_mqtt_connect c =
    let d = mqtt_reset_pending_message (record c { wait_for_ping_resp = false }) in
    request_connection d (mqtt_msg_connect d.connection d.information)
