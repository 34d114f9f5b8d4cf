-- ===== src/Client/Deliver/Whole.antt =====
-- `deliver_publish` of mqtt_client.c on a PUBLISH packet that the input buffer holds whole.
use esp_mqtt.Base.{
  ℕ, ◌+◌, ◌-◌, ◌%◌, ◌^◌, ◌<◌, ◌≡◌, ◌⊎◌, inl, inr, refl, sym, ap, ◌∙◌, some, List, [], ◌∷◌, ◌++◌,
  length, take, drop, arith,
}
use esp_mqtt.Base.Bytes.{sub32}
use esp_mqtt.Msg.Types.{mqtt_get_qos, mqtt_get_dup, mqtt_get_retain}
use esp_mqtt.Msg.Read.{mqtt_get_publish_data, mqtt_get_id}
use esp_mqtt.Msg.ReadBack.{mqtt_get_qos-first, mqtt_get_dup-first, mqtt_get_retain-first}
use esp_mqtt.Msg.RoundTrip.{Fits}
use esp_mqtt.Msg.Behind.{
  id_read, size, filled, topic_behind, topic_text, data_behind, data_behind_none, payload_text,
  id_behind, size-bound,
}
use esp_mqtt.Outbox.{EspErr, esp_ok}
use esp_mqtt.Client.State.{Client, ClientEvent, event_data}
use esp_mqtt.Client.Deliver.{
  given, present, deliver_rest, deliver_found, deliver_payload, deliver_topic, deliver_publish,
}

-- The data event for a whole message.
abbrev pub message_event : ClientEvent → List ℕ → List ℕ → ℕ → ℕ → ℕ → ClientEvent
message_event e topic content qos retain id = record e {
  event_id = event_data;
  content = given content;
  data_len = length content;
  total_data_len = length content;
  current_data_offset = 0;
  topic = some topic;
  topic_len = length topic;
  msg_id = id_read qos id;
  qos = qos;
  retain = retain % 2;
  dup = 0;
}

abbrev pub delivered : Client → ClientEvent → Client
delivered c e = record c { event = e; events = c.events ++ (e ∷ []) }

sub32_size : (n s : ℕ) → n < 2 ^ 28 → s < 2 ^ 30 → sub32 (n + s) s ≡ n
unfolding sub32
sub32_size n s h k = omega arith

cases : (content : List ℕ) → (content ≡ []) ⊎ (0 < length content)
cases [] = inl refl
cases (b ∷ bs) = inr (omega arith)

module _ (c : Client) (topic content tail : List ℕ) (qos retain id : ℕ)
    (f : Fits topic content qos id) where
  abbrev packet_size : ℕ
  packet_size = size topic content tail qos retain id f

  abbrev buffer : List ℕ
  buffer = filled topic content tail qos retain id f

  -- The client with the packet in its buffer.
  abbrev pub loaded : Client
  loaded = record c {
    in_buffer = buffer;
    in_buffer_read_len = packet_size;
    message_length = packet_size;
  }

  -- What the loop comes to, by the number of rounds and the fields of the event.
  abbrev shown : ℕ → List ℕ → ℕ → ℕ → ℕ → ℕ → ℕ → Client × EspErr
  shown rounds t r i q d n =
      let e : ClientEvent = record c.event {
        retain = r;
        msg_id = i;
        qos = q;
        dup = d;
        total_data_len = n;
      } in
      deliver_rest rounds packet_size
        (present (record loaded { event = e }) (some t) (length topic) content 0) packet_size
        (length content)

  found_whole :
      (at : ℕ)
      → take (length topic) (drop at buffer) ≡ topic
      → deliver_found loaded at (length topic) content
        ≡ (delivered loaded (message_event c.event topic content qos retain id), esp_ok)
  unfolding deliver_rest
  found_whole at t =
      let text = take (length topic) (drop at buffer) in
      let r = mqtt_get_retain buffer in
      let i = mqtt_get_id buffer packet_size in
      let q = mqtt_get_qos buffer in
      let d = mqtt_get_dup buffer in
      let n = sub32 (length content + packet_size) packet_size in
      let none_left : packet_size - packet_size ≡ 0 = omega arith in
      let total : n ≡ length content =
        sub32_size (length content) packet_size (omega (arith, f.whole_fits))
          (size-bound topic content tail qos retain id f) in
      ap (λ k. shown k text r i q d n) none_left
      ∙ ap (λ x. shown 0 x r i q d n) t
      ∙ ap (λ x. shown 0 topic x i q d n) (mqtt_get_retain-first qos retain _ f.qos_valid)
      ∙ ap (λ x. shown 0 topic (retain % 2) x q d n) (id_behind topic content tail qos retain id f)
      ∙ ap (λ x. shown 0 topic (retain % 2) (id_read qos id) x d n)
          (mqtt_get_qos-first qos retain _ f.qos_valid)
      ∙ ap (λ x. shown 0 topic (retain % 2) (id_read qos id) qos x n)
          (mqtt_get_dup-first qos retain _ f.qos_valid)
      ∙ ap (λ x. shown 0 topic (retain % 2) (id_read qos id) qos 0 x) total

  payload_whole :
      (at : ℕ)
      → take (length topic) (drop at buffer) ≡ topic
      → deliver_payload loaded at (length topic) (mqtt_get_publish_data buffer packet_size)
        ≡ (delivered loaded (message_event c.event topic content qos retain id), esp_ok)
  payload_whole at t = elim (cases content) [
    | inl empty ↦
        ap (deliver_payload loaded at (length topic))
          (data_behind_none topic content tail qos retain id f (ap length empty))
        ∙ ap (λ x. deliver_found loaded at (length topic) x) (sym empty)
        ∙ found_whole at t
    | inr some_bytes ↦
        ap (deliver_payload loaded at (length topic))
          (data_behind topic content tail qos retain id f some_bytes)
        ∙ ap (λ x. deliver_found loaded at (length topic) x)
            (payload_text topic content tail qos retain id f)
        ∙ found_whole at t
  ]

  -- A PUBLISH packet that fits its fields stands whole at the front of the buffer: one data event is
  -- dispatched, with the packet's topic, payload, QoS, retain flag and id, its lengths, the offset 0 and no duplicate
  -- flag, and the answer is ESP_OK.
  pub deliver_publish-whole :
      deliver_publish loaded
      ≡ (delivered loaded (message_event c.event topic content qos retain id), esp_ok)
  unfolding deliver_publish
  deliver_publish-whole =
      ap (deliver_topic loaded) (topic_behind topic content tail qos retain id f)
      ∙ payload_whole _ (topic_text topic content tail qos retain id f)
