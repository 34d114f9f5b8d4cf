-- ===== src/Client/Deliver.antt =====
-- `deliver_publish` and `deliver_suback` of mqtt_client.c, with
-- CONFIG_MQTT_TOPIC_PRESENT_ALL_DATA_EVENTS off, which is the default.
pub mod Whole
use esp_mqtt.Base.{
  ℕ, zero, suc, ◌+◌, ◌-◌, Bool, true, false, ◌&&◌, ◌||◌, Option, none, some, List, [], ◌∷◌, ltb,
  if◌then◌else◌, length, take, drop, overwrite,
}
use esp_mqtt.Base.Bytes.{sub32}
use esp_mqtt.Msg.Types.{mqtt_get_qos, mqtt_get_dup, mqtt_get_retain}
use esp_mqtt.Msg.Read.{
  mqtt_get_publish_topic, mqtt_get_publish_data, mqtt_get_suback_data, mqtt_get_id,
}
use esp_mqtt.Outbox.{EspErr, esp_ok, esp_fail}
use esp_mqtt.Client.State.{
  Client, ClientEvent, event_data, event_subscribed, error_none, error_subscribe_failed, Received,
  receive_error, mid_message, nothing, message, handle_timeout, handle_broken, Taken, taken,
  no_time, no_connection, esp_transport_read, esp_mqtt_dispatch_event,
  esp_mqtt_dispatch_event_with_msgid,
}

abbrev pub given : List ℕ → Option (List ℕ)
given [] = none
given (b ∷ bs) = some (b ∷ bs)

-- One pass of the `while` loop: the data event.
abbrev pub present : Client → Option (List ℕ) → ℕ → List ℕ → ℕ → Client
present c topic topic_len msg_data offset =
    let event : ClientEvent = record c.event {
      event_id = event_data;
      content = given msg_data;
      data_len = length msg_data;
      current_data_offset = offset;
      topic = topic;
      topic_len = topic_len;
    } in
    esp_mqtt_dispatch_event (record c { event = event })

-- `handle_transport_read_error (…, false) == 0 ? ESP_OK : ESP_FAIL`
abbrev error_answer : Client × Received → Client × EspErr
error_answer (c, nothing) = (c, esp_ok)
error_answer (c, receive_error) = (c, esp_fail)
error_answer (c, mid_message) = (c, esp_fail)
error_answer (c, message) = (c, esp_fail)

-- A further part of the payload: it is read to the front of the buffer and presented.
abbrev pub next_part : (Client → ℕ → ℕ → Client × EspErr) → Client → ℕ → ℕ → Taken → Client × EspErr
next_part loop c read_len offset (taken arrived later) =
    let d : Client = record c { reads = later; in_buffer = overwrite c.in_buffer 0 arrived } in
    loop (present d none 0 arrived offset) (read_len + length arrived) (offset + length arrived)
next_part loop c read_len offset (no_time later) =
    error_answer (handle_timeout (record c { reads = later }) false)
next_part loop c read_len offset (no_connection later) =
    error_answer (handle_broken (record c { reads = later }))

-- The rest of the loop. Each read that succeeds takes a byte at least, so as many rounds as bytes
-- are missing are enough.
unfoldable pub deliver_rest : ℕ → ℕ → Client → ℕ → ℕ → Client × EspErr
deliver_rest zero total_len c read_len offset = (c, esp_ok)
deliver_rest (suc rounds) total_len c read_len offset =
    if ltb read_len total_len
    then next_part (deliver_rest rounds total_len) c read_len offset (
        esp_transport_read c.reads (
          if ltb c.in_buffer_length (total_len - read_len)
          then c.in_buffer_length
          else total_len - read_len))
    else (c, esp_ok)

-- The fields of the event that are the same for all its parts.
abbrev pub publish_event : Client → ℕ → ClientEvent
publish_event c data_len = record c.event {
  retain = mqtt_get_retain c.in_buffer;
  msg_id = mqtt_get_id c.in_buffer c.in_buffer_read_len;
  qos = mqtt_get_qos c.in_buffer;
  dup = mqtt_get_dup c.in_buffer;
  total_data_len = sub32 (data_len + c.message_length) c.in_buffer_read_len;
}

-- `deliver_publish` with the topic and the payload found.
abbrev pub deliver_found : Client → ℕ → ℕ → List ℕ → Client × EspErr
deliver_found c topic_at topic_len msg_data =
    let event = publish_event c (length msg_data) in
    let topic = take topic_len (drop topic_at c.in_buffer) in
    deliver_rest (c.message_length - c.in_buffer_read_len) c.message_length
      (present (record c { event = event }) (some topic) topic_len msg_data 0) c.in_buffer_read_len
      (length msg_data)

-- The payload is `msg_data_len` bytes at `msg_data`.
abbrev pub deliver_payload : Client → ℕ → ℕ → Option ℕ × ℕ → Client × EspErr
deliver_payload c topic_at topic_len (some at, data_len) =
    deliver_found c topic_at topic_len (take data_len (drop at c.in_buffer))
deliver_payload c topic_at topic_len (none, zero) = deliver_found c topic_at topic_len []
deliver_payload c topic_at topic_len (none, suc data_len) = (c, esp_fail)

abbrev pub deliver_topic : Client → Option (ℕ × ℕ) → Client × EspErr
deliver_topic c none = (c, esp_fail)
deliver_topic c (some (topic_at, topic_len)) =
    deliver_payload c topic_at topic_len (mqtt_get_publish_data c.in_buffer c.in_buffer_read_len)

unfoldable pub deliver_publish : Client → Client × EspErr
deliver_publish c = deliver_topic c (mqtt_get_publish_topic c.in_buffer c.in_buffer_read_len)

-- A return code of 0x80 or more in the SUBACK.
unfoldable pub some_failed : List ℕ → Bool
some_failed [] = false
some_failed (code ∷ codes) = ltb 127 code || some_failed codes

abbrev pub deliver_codes : Client → Option ℕ × ℕ → Client × EspErr
deliver_codes c (at, zero) = (c, esp_fail)
deliver_codes c (none, suc n) = (c, esp_fail)
deliver_codes c (some at, suc n) =
    let codes = take (suc n) (drop at c.in_buffer) in
    let event : ClientEvent = record c.event {
      event_id = event_subscribed;
      error_type = if some_failed codes then error_subscribe_failed else error_none;
      connect_return_code = 0;
      content = some codes;
      data_len = suc n;
      total_data_len = suc n;
      current_data_offset = 0;
    } in
    (esp_mqtt_dispatch_event_with_msgid (record c { event = event }), esp_ok)

unfoldable pub deliver_suback : Client → Client × EspErr
deliver_suback c = deliver_codes c (mqtt_get_suback_data c.in_buffer_read_len)
