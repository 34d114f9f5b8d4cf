-- ===== src/Msg/Behind.antt =====
-- The readers of lib/mqtt_msg.c on a buffer that begins with a PUBLISH packet, whatever follows it.
use esp_mqtt.Base.{
  ℕ, zero, suc, ◌+◌, ◌^◌, ◌≤◌, ◌<◌, ◌≡◌, ap, ◌∙◌, none, some, List, [], ◌++◌, length, take, drop,
  arith, take-length_append,
}
use esp_mqtt.Msg.Types.{publish}
use esp_mqtt.Msg.Build.{first_byte}
use esp_mqtt.Msg.Read.{
  mqtt_get_publish_topic, mqtt_get_publish_data, mqtt_get_id, publish_packet_id, payload_offset,
  two_bytes_at, total_loop, skip_loop,
}
use esp_mqtt.Msg.Types.{mqtt_get_qos, mqtt_get_type, type_number}
use esp_mqtt.Msg.Length.{
  remaining_length, with_length, header_size, skip_loop-remaining, total_loop-remaining,
  length-remaining_length,
}
use esp_mqtt.Msg.Layout.{two_bytes, text_field}
use esp_mqtt.Msg.Publish.{id_field, publish_fields}
use esp_mqtt.Msg.ReadBack.{
  two_bytes_at_field, drop_field, topic_found, data_found, id_found, payload_offset_lem, id_size,
  mqtt_get_type-first, mqtt_get_qos-first,
}
use esp_mqtt.Msg.RoundTrip.{Fits, fields_length, small, drop_id}

-- The id that `mqtt_get_id` gives.
abbrev pub id_read : ℕ → ℕ → ℕ
id_read zero id = 0
id_read (suc qos) id = id

-- There is no payload behind the fields.
no_data :
    (buffer : List ℕ) (size i n topiclen qos : ℕ)
    → total_loop 4 buffer size 1 0 ≡ (n, i)
    → two_bytes_at buffer i ≡ topiclen
    → mqtt_get_qos buffer ≡ qos
    → size ≡ i + 2 + topiclen + id_size qos
    → mqtt_get_publish_data buffer size ≡ (none, 0)
unfolding mqtt_get_publish_data payload_offset
no_data buffer size i n topiclen zero e f q s = rw e (rw f (rw q (ground (arith, s))))
no_data buffer size i n topiclen (suc qos) e f q s = rw e (rw f (rw q (ground (arith, s))))

no_id :
    (buffer : List ℕ) (size : ℕ)
    → mqtt_get_type buffer ≡ type_number publish
    → mqtt_get_qos buffer ≡ 0
    → mqtt_get_id buffer size ≡ 0
unfolding mqtt_get_id publish_packet_id
no_id buffer size t q = rw t (rw q (ground arith))

-- Where there is an id, it stands at `k`.
abbrev IdAt : ℕ → List ℕ → ℕ → ℕ → Type 0
IdAt zero buffer k id = Unit
IdAt (suc qos) buffer k id = two_bytes_at buffer k ≡ id

id_at :
    (first n k qos id : ℕ) (front rest : List ℕ)
    → id < 65536
    → k ≡ header_size n + length front
    → IdAt qos (with_length first n (front ++ (id_field qos id ++ rest))) k id
id_at first n k zero id front rest h e = tt
id_at first n k (suc qos) id front rest h e = two_bytes_at_field first n k id front rest h e

id_any :
    (buffer : List ℕ) (size i topiclen qos id : ℕ)
    → skip_loop size buffer size 1 ≡ i
    → two_bytes_at buffer i ≡ topiclen
    → mqtt_get_type buffer ≡ type_number publish
    → mqtt_get_qos buffer ≡ qos
    → IdAt qos buffer (i + 2 + topiclen) id
    → i + 2 + topiclen + id_size qos ≤ size
    → mqtt_get_id buffer size ≡ id_read qos id
id_any buffer size i topiclen zero id e f g q a s = no_id buffer size g q
id_any buffer size i topiclen (suc qos) id e f g q a s =
    id_found buffer size i topiclen qos id e f g q a s

module _ (topic content tail : List ℕ) (qos retain id : ℕ) (f : Fits topic content qos id) where
  abbrev n : ℕ
  n = length (publish_fields topic qos id content)

  abbrev first : ℕ
  first = first_byte publish 0 qos retain

  abbrev more : List ℕ
  more = id_field qos id ++ (content ++ tail)

  -- The packet's size, and the buffer that begins with it.
  abbrev pub size : ℕ
  size = n + header_size n

  abbrev pub filled : List ℕ
  filled = with_length first n (text_field topic ++ more)

  parts : n ≡ 2 + length topic + id_size qos + length content
  parts = fields_length topic content qos id

  pub below : n < 2 ^ 28
  below = small topic content qos id f

  pub size-bound : size < 2 ^ 30
  size-bound = omega (arith, below, length-remaining_length n)

  header_read : length (remaining_length n) < size
  header_read = omega arith

  topic_length : two_bytes_at filled (header_size n) ≡ length topic
  topic_length =
      two_bytes_at_field first n (header_size n) (length topic) [] (topic ++ more) f.topic_fits
        (omega arith)

  pub topic_behind : mqtt_get_publish_topic filled size ≡ some (header_size n + 2, length topic)
  topic_behind =
      topic_found filled size (header_size n) (length topic)
        (skip_loop-remaining first n (text_field topic ++ more) size below header_read) topic_length
        (omega (arith, parts, f.some_topic)) (omega (arith, parts))

  pub topic_text : take (length topic) (drop (header_size n + 2) filled) ≡ topic
  topic_text =
      ap (take (length topic)) (
        drop_field first n 0 (header_size n + 2) (two_bytes (length topic)) (topic ++ more)
          (omega arith))
      ∙ take-length_append topic more

  abbrev pub payload_at : ℕ
  payload_at = header_size n + 2 + length topic + id_size qos

  sizes : total_loop 4 filled size 1 0 ≡ (n, header_size n)
  sizes = total_loop-remaining first n (text_field topic ++ more) size below header_read

  pub data_behind :
      0 < length content → mqtt_get_publish_data filled size ≡ (some payload_at, length content)
  data_behind h =
      data_found filled size (header_size n) n (length topic) payload_at sizes topic_length
        (payload_offset_lem filled size (header_size n + 2 + length topic) qos
          (mqtt_get_qos-first qos retain _ f.qos_valid) (omega (arith, parts, h)))
        (omega arith) (omega (arith, parts, h)) (omega (arith, parts, h))
      ∙ ap (λ m. (some payload_at, m)) (omega (arith, parts))

  pub data_behind_none : length content ≡ 0 → mqtt_get_publish_data filled size ≡ (none, 0)
  data_behind_none h =
      no_data filled size (header_size n) n (length topic) qos sizes topic_length
        (mqtt_get_qos-first qos retain _ f.qos_valid) (omega (arith, parts, h))

  pub payload_text : take (length content) (drop payload_at filled) ≡ content
  payload_text =
      ap (take (length content)) (
        drop_field first n (id_size qos) payload_at (text_field topic) more (omega arith)
        ∙ drop_id qos id (content ++ tail))
      ∙ take-length_append content tail

  pub id_behind : mqtt_get_id filled size ≡ id_read qos id
  id_behind =
      id_any filled size (header_size n) (length topic) qos id
        (skip_loop-remaining first n (text_field topic ++ more) size below header_read) topic_length
        (mqtt_get_type-first qos retain _ f.qos_valid) (mqtt_get_qos-first qos retain _ f.qos_valid)
        (id_at first n (header_size n + 2 + length topic) qos id (text_field topic)
          (content ++ tail) f.id_fits (omega arith))
        (omega (arith, parts))
