-- ===== src/Msg/Read.antt =====
-- The readers of lib/mqtt_msg.c: lengths, topic, payload, id and header flags of a packet that has
-- arrived. NULL is `none`; a pointer into the buffer is an offset. `int` and `size_t` values stay
-- far below their limits: a remaining length has four bytes.
use esp_mqtt.Base.{
  ℕ, zero, suc, ◌+◌, ◌-◌, ◌*◌, ◌/◌, ◌%◌, ◌^◌, Bool, false, ◌&&◌, ◌||◌, Option, none, some, List,
  ltb, leb, ◌==◌, if◌then◌else◌,
}
use esp_mqtt.Msg.Types.{
  byte_at, mqtt_get_type, mqtt_get_dup, mqtt_get_qos, type_number, connect, connack, publish,
  puback, pubrec, pubrel, pubcomp, subscribe, suback, unsubscribe, unsuback, pingreq, pingresp,
  disconnect,
}

-- `(buffer[i] & 0x80) == 0`
abbrev pub ends : List ℕ → ℕ → Bool
ends buffer i = byte_at buffer i / 128 % 2 == 0

-- `for (i = 1; i < length && i <= 4; ++i)`, with the rounds left: the sum and the last `i`.
unfoldable pub total_loop : ℕ → List ℕ → ℕ → ℕ → ℕ → ℕ × ℕ
total_loop zero buffer length i totlen = (totlen, i)
total_loop (suc rounds) buffer length i totlen =
    let totlen' = totlen + byte_at buffer i % 128 * 2 ^ (7 * (i - 1)) in
    let more = total_loop rounds buffer length (i + 1) totlen' in
    if ltb i length then (if ends buffer i then (totlen', i + 1) else more) else (totlen, i)

-- The total length and, through `fixed_size_len`, the length of the fixed header.
unfoldable pub mqtt_get_total_length : List ℕ → ℕ → ℕ × ℕ
mqtt_get_total_length buffer length = let p = total_loop 4 buffer length 1 0 in (p.0 + p.1, p.1)

-- `for (i = 1; i < length; ++i)` up to the byte that ends the remaining length.
unfoldable pub skip_loop : ℕ → List ℕ → ℕ → ℕ → ℕ
skip_loop zero buffer length i = i
skip_loop (suc rounds) buffer length i =
    let more = skip_loop rounds buffer length (i + 1) in
    if ltb i length then (if ends buffer i then i + 1 else more) else i

-- `buffer[i] << 8 | buffer[i + 1]` on bytes.
abbrev pub two_bytes_at : List ℕ → ℕ → ℕ
two_bytes_at buffer i = byte_at buffer i * 256 + byte_at buffer (i + 1)

-- The topic as an offset and a length.
unfoldable pub mqtt_get_publish_topic : List ℕ → ℕ → Option (ℕ × ℕ)
mqtt_get_publish_topic buffer length =
    let i = skip_loop length buffer length 1 in
    let topiclen = two_bytes_at buffer i in
    if leb length (i + 2)
    then none
    else if ltb length (i + 2 + topiclen)
    then none
    else some (i + 2, topiclen)

-- Behind the topic: the offset of the payload, or NULL.
unfoldable pub payload_offset : List ℕ → ℕ → ℕ → Option ℕ
payload_offset buffer blength i =
    if ltb 0 (mqtt_get_qos buffer)
    then (if leb blength (i + 2) then none else some (i + 2))
    else some i

-- The payload as an offset, or NULL, and what is stored in `*length`.
unfoldable pub mqtt_get_publish_data : List ℕ → ℕ → Option ℕ × ℕ
mqtt_get_publish_data buffer blength =
    let p = total_loop 4 buffer blength 1 0 in
    let i = p.1 in
    let totlen = p.0 + p.1 in
    let topiclen = two_bytes_at buffer i in
    if leb blength (i + 2)
    then (none, 0)
    else if leb blength (i + 2 + topiclen)
    then (none, 0)
    else elim (payload_offset buffer blength (i + 2 + topiclen)) [
      | none ↦ (none, 0)
      | some j ↦
          if ltb totlen j
          then (none, 0)
          else if leb totlen blength
          then (some j, totlen - j)
          else (some j, blength - j)
    ]

unfoldable pub mqtt_get_suback_data : ℕ → Option ℕ × ℕ
mqtt_get_suback_data length = if ltb 4 length then (some 4, length - 4) else (none, 0)

-- The first case of the `switch` in `mqtt_get_id`.
unfoldable pub publish_packet_id : List ℕ → ℕ → ℕ
publish_packet_id buffer length =
    let i = skip_loop length buffer length 1 in
    let j = i + 2 + two_bytes_at buffer i in
    if leb length (i + 2)
    then 0
    else if ltb length j
    then 0
    else if ltb 0 (mqtt_get_qos buffer)
    then (if ltb length (j + 2) then 0 else two_bytes_at buffer j)
    else 0

-- The packets whose id follows a header of two bytes.
abbrev has_id_at_two : ℕ → Bool
has_id_at_two type =
    type == type_number puback
    || type == type_number pubrec
    || type == type_number pubrel
    || type == type_number pubcomp
    || type == type_number suback
    || type == type_number unsuback
    || type == type_number subscribe
    || type == type_number unsubscribe

unfoldable pub mqtt_get_id : List ℕ → ℕ → ℕ
mqtt_get_id buffer length =
    if ltb length 1
    then 0
    else if mqtt_get_type buffer == type_number publish
    then publish_packet_id buffer length
    else if has_id_at_two (mqtt_get_type buffer)
    then (if leb 4 length && ends buffer 1 then two_bytes_at buffer 2 else 0)
    else 0

abbrev has_zero_flags : ℕ → Bool
has_zero_flags type =
    type == type_number connect
    || type == type_number connack
    || type == type_number puback
    || type == type_number pubrec
    || type == type_number pubcomp
    || type == type_number suback
    || type == type_number unsuback
    || type == type_number pingreq
    || type == type_number pingresp
    || type == type_number disconnect

abbrev has_reserved_flag : ℕ → Bool
has_reserved_flag type =
    type == type_number pubrel || type == type_number subscribe || type == type_number unsubscribe

unfoldable pub mqtt_has_valid_msg_hdr : List ℕ → ℕ → Bool
mqtt_has_valid_msg_hdr buffer length =
    let type = mqtt_get_type buffer in
    let qos = mqtt_get_qos buffer in
    let dup = mqtt_get_dup buffer in
    if ltb length 1
    then false
    else if has_zero_flags type
    then byte_at buffer 0 % 16 == 0
    else if has_reserved_flag type
    then byte_at buffer 0 % 16 == 2
    else if type == type_number publish
    then ltb qos 3 && (ltb 0 qos || dup == 0)
    else false

-- The loop of `mqtt_header_complete` over the four bytes of a remaining length; `none` is `false`.
unfoldable pub header_loop : ℕ → List ℕ → ℕ → ℕ → Option ℕ
header_loop zero buffer length i = some i
header_loop (suc rounds) buffer length i =
    let more = header_loop rounds buffer length (i + 1) in
    if leb length i then none else if ends buffer i then some (i + 1) else more

-- `i` is a `uint16_t`.
unfoldable pub mqtt_header_complete : List ℕ → ℕ → Bool
mqtt_header_complete buffer length = elim (header_loop 4 buffer length 1) [
  | none ↦ false
  | some i ↦
      let j = (i + 2 + two_bytes_at buffer i) % 65536 in
      let k = if ltb 0 (mqtt_get_qos buffer) then (j + 2) % 65536 else j in
      if leb length (i + 2) then false else leb k length
]
