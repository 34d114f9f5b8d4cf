-- ===== src/Msg/RoundTrip.antt =====
-- A PUBLISH packet goes through the readers of lib/mqtt_msg.c and gives its fields back.
use esp_mqtt.Base.{
  ℕ, zero, suc, ◌+◌, ◌%◌, ◌^◌, ◌<◌, ◌≡◌, refl, ap, ◌∙◌, true, some, List, [], ◌++◌, length, take,
  drop, arith, take-length_append, length-append,
}
use esp_mqtt.Msg.Types.{
  publish, mqtt_get_type, mqtt_get_qos, mqtt_get_dup, mqtt_get_retain, type_number,
}
use esp_mqtt.Msg.Build.{first_byte}
use esp_mqtt.Msg.Read.{
  mqtt_get_publish_topic, mqtt_get_publish_data, mqtt_get_id, mqtt_has_valid_msg_hdr,
  mqtt_get_total_length,
}
use esp_mqtt.Msg.Length.{
  remaining_length, with_length, header_size, skip_loop-remaining, total_loop-remaining,
  mqtt_get_total_length_lem,
}
use esp_mqtt.Msg.Layout.{two_bytes, text_field}
use esp_mqtt.Msg.Publish.{id_field, publish_fields, publish_packet}
use esp_mqtt.Msg.ReadBack.{
  two_bytes_at_field, drop_field, topic_found, data_found, id_found, payload_offset_lem, id_size,
  mqtt_get_type-first, mqtt_get_qos-first, mqtt_get_dup-first, mqtt_get_retain-first,
}

pub fields_length :
    (topic content : List ℕ) (qos id : ℕ)
    → length (publish_fields topic qos id content) ≡ 2 + length topic + id_size qos + length content
fields_length topic content zero id = omega (arith, length-append topic content)
fields_length topic content (suc qos) id =
    omega (arith, length-append topic (two_bytes id ++ content))

pub packet_length :
    (first n : ℕ) (body : List ℕ) → length (with_length first n body) ≡ header_size n + length body
packet_length first n body = omega (arith, length-append (remaining_length n) body)

-- What a message must satisfy for its lengths and its id to fit the packet's fields.
pub record Fits (topic content : List ℕ) (qos id : ℕ) : Type 0 where
  pub some_topic : 0 < length topic
  pub topic_fits : length topic < 65536
  pub whole_fits : length topic + length content + 4 < 2 ^ 28
  pub qos_valid : qos < 3
  pub id_fits : id < 65536

pub small :
    (topic content : List ℕ) (qos id : ℕ)
    → Fits topic content qos id
    → length (publish_fields topic qos id content) < 2 ^ 28
small topic content zero id f = omega (arith, fields_length topic content zero id, f.whole_fits)
small topic content (suc qos) id f =
    omega (arith, fields_length topic content (suc qos) id, f.whole_fits)

-- For a message that fits its fields (a topic of 1 to 65535 bytes, lengths below 2 ^ 28, a QoS below
-- 3 and an id of 16 bits): the reader finds the topic in the PUBLISH packet and gives its length.
pub mqtt_get_publish_topic-publish :
    (topic content : List ℕ) (qos retain id : ℕ)
    → Fits topic content qos id
    → (o : ℕ) × ((mqtt_get_publish_topic
            (publish_packet topic content qos retain id)
            (length (publish_packet topic content qos retain id))
          ≡ some (o, length topic))
        × (take (length topic) (drop o (publish_packet topic content qos retain id)) ≡ topic))
unfolding publish_packet
mqtt_get_publish_topic-publish topic content qos retain id f =
    let body = publish_fields topic qos id content in
    let n = length body in
    let first = first_byte publish 0 qos retain in
    let more = id_field qos id ++ content in
    let size = packet_length first n body in
    let parts = fields_length topic content qos id in
    (
      header_size n + 2,
      (
        topic_found _ _ (header_size n) (length topic)
            (skip_loop-remaining first n body _ (small topic content qos id f)
              (omega (arith, size, parts)))
            (two_bytes_at_field first n (header_size n) (length topic) [] (topic ++ more)
              f.topic_fits (omega arith))
            (omega (arith, size, parts, f.some_topic)) (omega (arith, size, parts)),
        ap (take (length topic)) (
              drop_field first n 0 (header_size n + 2) (two_bytes (length topic)) (topic ++ more)
                (omega arith))
            ∙ take-length_append topic more,
      ),
    )

pub drop_id :
    (qos id : ℕ) (content : List ℕ) → drop (id_size qos) (id_field qos id ++ content) ≡ content
drop_id zero id content = refl
drop_id (suc qos) id content = refl

pub valid_publish :
    (buffer : List ℕ) (size qos : ℕ)
    → 0 < size
    → mqtt_get_type buffer ≡ type_number publish
    → mqtt_get_qos buffer ≡ qos
    → mqtt_get_dup buffer ≡ 0
    → qos < 3
    → mqtt_has_valid_msg_hdr buffer size ≡ true
unfolding mqtt_has_valid_msg_hdr
valid_publish buffer size qos h t q d s = rw t (rw q (rw d (ground arith)))

-- For a message that fits its fields (a topic of 1 to 65535 bytes, lengths below 2 ^ 28, a QoS below
-- 3 and an id of 16 bits): a payload that is not empty is found in the PUBLISH packet
-- behind topic and id, up to the packet's end, and its length is given.
pub mqtt_get_publish_data-publish :
    (topic content : List ℕ) (qos retain id : ℕ)
    → Fits topic content qos id
    → 0 < length content
    → (j : ℕ) × ((mqtt_get_publish_data
            (publish_packet topic content qos retain id)
            (length (publish_packet topic content qos retain id))
          ≡ (some j, length content))
        × (drop j (publish_packet topic content qos retain id) ≡ content))
unfolding publish_packet
mqtt_get_publish_data-publish topic content qos retain id f h =
    let body = publish_fields topic qos id content in
    let n = length body in
    let first = first_byte publish 0 qos retain in
    let more = id_field qos id ++ content in
    let size = packet_length first n body in
    let parts = fields_length topic content qos id in
    let j = header_size n + 2 + length topic + id_size qos in
    (
      j,
      (
        data_found _ _ (header_size n) n (length topic) j
              (total_loop-remaining first n body _ (small topic content qos id f)
                (omega (arith, size, parts)))
              (two_bytes_at_field first n (header_size n) (length topic) [] (topic ++ more)
                f.topic_fits (omega arith))
              (payload_offset_lem _ _ (header_size n + 2 + length topic) qos
                (mqtt_get_qos-first qos retain _ f.qos_valid) (omega (arith, size, parts, h)))
              (omega (arith, size)) (omega (arith, size, parts, h)) (omega (arith, size, parts, h))
            ∙ ap (λ m. (some j, m)) (omega (arith, size, parts)),
        drop_field first n (id_size qos) j (text_field topic) more (omega arith)
            ∙ drop_id qos id content,
      ),
    )

-- For a message that fits its fields (a topic of 1 to 65535 bytes, lengths below 2 ^ 28, a QoS below
-- 3 and an id of 16 bits): the id of a PUBLISH packet with a QoS above 0 is read
-- back.
pub mqtt_get_id-publish :
    (topic content : List ℕ) (qos retain id : ℕ)
    → Fits topic content (suc qos) id
    → mqtt_get_id
        (publish_packet topic content (suc qos) retain id)
        (length (publish_packet topic content (suc qos) retain id))
      ≡ id
unfolding publish_packet
mqtt_get_id-publish topic content qos retain id f =
    let body = publish_fields topic (suc qos) id content in
    let n = length body in
    let first = first_byte publish 0 (suc qos) retain in
    let more = two_bytes id ++ content in
    let size = packet_length first n body in
    let parts = fields_length topic content (suc qos) id in
    id_found _ _ (header_size n) (length topic) qos id
      (skip_loop-remaining first n body _ (small topic content (suc qos) id f)
        (omega (arith, size, parts)))
      (two_bytes_at_field first n (header_size n) (length topic) [] (topic ++ more) f.topic_fits
        (omega arith))
      (mqtt_get_type-first (suc qos) retain _ f.qos_valid)
      (mqtt_get_qos-first (suc qos) retain _ f.qos_valid)
      (two_bytes_at_field first n (header_size n + 2 + length topic) id (text_field topic) content
        f.id_fits (omega arith))
      (omega (arith, size, parts))

-- For a message that fits its fields (a topic of 1 to 65535 bytes, lengths below 2 ^ 28, a QoS below
-- 3 and an id of 16 bits): a PUBLISH packet has a valid header with the QoS and the
-- retain flag given and no duplicate flag, and the total length that is read is the packet's.
pub publish-header :
    (topic content : List ℕ) (qos retain id : ℕ)
    → Fits topic content qos id
    → let packet = publish_packet topic content qos retain id in
      (mqtt_has_valid_msg_hdr packet (length packet) ≡ true)
      × ((mqtt_get_type packet ≡ type_number publish)
          × ((mqtt_get_qos packet ≡ qos)
              × ((mqtt_get_dup packet ≡ 0)
                  × ((mqtt_get_retain packet ≡ retain % 2)
                      × ((mqtt_get_total_length packet (length packet)).0 ≡ length packet)))))
unfolding publish_packet
publish-header topic content qos retain id f =
    let body = publish_fields topic qos id content in
    let n = length body in
    let first = first_byte publish 0 qos retain in
    let rest = remaining_length n ++ body in
    let size = packet_length first n body in
    let parts = fields_length topic content qos id in
    let type = mqtt_get_type-first qos retain rest f.qos_valid in
    let quality = mqtt_get_qos-first qos retain rest f.qos_valid in
    let dup = mqtt_get_dup-first qos retain rest f.qos_valid in
    (
      valid_publish _ _ qos (omega (arith, size)) type quality dup f.qos_valid,
      (
        type,
        (
          quality,
          (
            dup,
            (
              mqtt_get_retain-first qos retain rest f.qos_valid,
              ap (λ p. p.0)
                    (mqtt_get_total_length_lem first n body _ (small topic content qos id f)
                      (omega (arith, size, parts)))
                  ∙ omega (arith, size),
            ),
          ),
        ),
      ),
    )
