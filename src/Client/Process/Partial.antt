-- ===== src/Client/Process/Partial.antt =====
-- `mqtt_process_receive` of mqtt_client.c on a PUBLISH packet larger than the input buffer, when the
-- rest of its payload does not arrive in time.
use esp_mqtt.Base.{
  ℕ, suc, ◌+◌, ◌-◌, ◌^◌, ◌≤◌, ◌<◌, ◌≡◌, refl, ap, ◌∙◌, some, List, [], ◌∷◌, ◌++◌, if◌then◌else◌,
  length, take, drop, arith, length-take, lt→ltb,
}
use esp_mqtt.Base.Bytes.{sub32}
use esp_mqtt.Msg.Types.{mqtt_get_type, mqtt_get_qos}
use esp_mqtt.Msg.Read.{mqtt_get_publish_topic, mqtt_get_publish_data, mqtt_get_id}
use esp_mqtt.Msg.Layout.{Ready, two_bytes}
use esp_mqtt.Msg.Acks.{acknowledgements_read_back}
use esp_mqtt.Outbox.{esp_ok}
use esp_mqtt.Client.State.{
  Arrival, timed_out, Client, ClientEvent, handle_timeout, esp_transport_read,
}
use esp_mqtt.Client.Deliver.{
  present, next_part, deliver_rest, publish_event, deliver_payload, deliver_topic, deliver_publish,
}
use esp_mqtt.Client.Write.Stream.{Willing}
use esp_mqtt.Client.Process.{acknowledge, handle_message, process_message, close_message, respond}
use esp_mqtt.Client.Process.Respond.{responded, respond-written}
use esp_mqtt.Client.Process.Publish.{is_publish}

-- The payload of which a part stands in the buffer.
abbrev held_part : Client → ℕ → ℕ → List ℕ
held_part c at m = take m (drop at c.in_buffer)

abbrev pub stalled : Client → List Arrival → Client
stalled c later = record c { reads = timed_out ∷ later }

-- One data event with the part that has arrived, and the call's answer is ESP_OK.
abbrev part_shown : Client → List Arrival → ℕ → ℕ → List ℕ → Client
part_shown c later topic_at n part =
    let event = publish_event c (length part) in
    let topic = take n (drop topic_at c.in_buffer) in
    present (record c { event = event; reads = later }) (some topic) n part 0

deliver_publish-stalled :
    (c : Client) (later : List Arrival) (topic_at n at m : ℕ)
    → mqtt_get_publish_topic c.in_buffer c.in_buffer_read_len ≡ some (topic_at, n)
    → mqtt_get_publish_data c.in_buffer c.in_buffer_read_len ≡ (some at, m)
    → c.in_buffer_read_len < c.message_length
    → deliver_publish (stalled c later) ≡ (part_shown c later topic_at n (held_part c at m), esp_ok)
unfolding deliver_publish deliver_rest esp_transport_read handle_timeout
deliver_publish-stalled c later topic_at n at m t p more =
    let s = stalled c later in
    let part = held_part c at m in
    let topic = take n (drop topic_at c.in_buffer) in
    let event = publish_event c (length part) in
    let shown = present (record s { event = event }) (some topic) n part 0 in
    let rounds = c.message_length - c.in_buffer_read_len - 1 in
    let missing : c.message_length - c.in_buffer_read_len ≡ suc rounds = omega (arith, more) in
    ap (deliver_topic s) t
    ∙ ap (deliver_payload s topic_at n) p
    ∙ ap (λ r. deliver_rest r c.message_length shown c.in_buffer_read_len (length part)) missing
    ∙ ap
        (λ b.
          if b
          then next_part (deliver_rest rounds c.message_length) shown c.in_buffer_read_len
              (length part) (esp_transport_read (timed_out ∷ later) 1)
          else (shown, esp_ok))
        (lt→ltb c.in_buffer_read_len c.message_length more)

-- The message is answered, and the buffer is taken for empty, though the event shows a part only.
pub record AnsweredInPart (c d : Client) (later : List Arrival) (id : ℕ) : Type 0 where
  pub shown : ClientEvent
  pub events : d.events ≡ c.events ++ (shown ∷ [])
  pub incomplete : shown.data_len < shown.total_data_len
  pub sent : d.sent ≡ c.sent ++ (64 ∷ 2 ∷ two_bytes id)
  pub read_len : d.in_buffer_read_len ≡ 0
  pub reads : d.reads ≡ later

larger :
    (n total read : ℕ) → n < 2 ^ 30 → total < 2 ^ 30 → read < total → n < sub32 (n + total) read
unfolding sub32
larger n total read h k l = omega arith

-- A PUBLISH packet with QoS 1 and an id that is not 0 is in the buffer up to a part of its payload, fewer bytes than the
-- message has, both below 2 ^ 30; the next read of the rest times out; the output
-- buffer is ready for seven bytes, and the transport takes something at each of the next four
-- writes. Then the message is answered by PUBACK with its id and the call ends with ESP_OK, though
-- the only event shows fewer bytes than the payload has; the input buffer is taken for empty, so
-- that the rest of the payload will be read as the next packets.
pub process_message-stalled :
    (c : Client) (later : List Arrival) (topic_at n at m id : ℕ)
    → mqtt_get_type c.in_buffer ≡ 3
    → mqtt_get_qos c.in_buffer ≡ 1
    → mqtt_get_id c.in_buffer c.message_length ≡ id
    → mqtt_get_publish_topic c.in_buffer c.in_buffer_read_len ≡ some (topic_at, n)
    → mqtt_get_publish_data c.in_buffer c.in_buffer_read_len ≡ (some at, m)
    → c.in_buffer_read_len < c.message_length
    → c.message_length < 2 ^ 30
    → m < 2 ^ 30
    → 0 < id
    → id < 65536
    → Ready c.connection
    → 7 ≤ c.connection.buffer_length
    → Willing c.writes 4
    → (d : Client) × ((process_message (stalled c later) ≡ some (d, esp_ok))
        × AnsweredInPart c d later id)
unfolding process_message
process_message-stalled c later topic_at n at m id type qos i t p more bound small z k r room w =
    let s = stalled c later in
    let part = held_part c at m in
    let d = part_shown c later topic_at n part in
    let a = (acknowledgements_read_back c.connection id r room z k).0 in
    let msg_qos = mqtt_get_qos c.in_buffer in
    let msg_id = mqtt_get_id c.in_buffer c.message_length in
    (
      record (responded d a.0 64 id) { in_buffer_read_len = 0 },
      (
        ap (λ x. close_message (handle_message s x msg_qos msg_id)) type
            ∙ ap (λ x. close_message (handle_message s 3 x msg_id)) qos
            ∙ ap (λ x. close_message (handle_message s 3 1 x)) i
            ∙ ap close_message (is_publish s 1 id)
            ∙ ap (λ x. close_message (acknowledge 1 id x))
                (deliver_publish-stalled c later topic_at n at m t p more)
            ∙ ap (λ o. close_message (respond d o)) a.1.0
            ∙ ap close_message (respond-written d a.0 64 id a.1.1.0 w),
        record {
          shown = d.event;
          events = refl;
          incomplete =
              larger (length part) c.message_length c.in_buffer_read_len
                (omega (arith, small, length-take m (drop at c.in_buffer))) bound more;
          sent = refl;
          read_len = refl;
          reads = refl;
        },
      ),
    )
