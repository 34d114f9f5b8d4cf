-- ===== src/Msg/Build.antt =====
-- The packet builders of lib/mqtt_msg.c but CONNECT. A `char *` is the memory behind it; the
-- comparisons of `size_t` sums wrap at 2 ^ 32, and an `int` is its 32-bit word. `none` is a run that
-- does not return, or that writes behind an array.
use esp_mqtt.Base.{
  ℕ, zero, suc, ◌+◌, ◌-◌, ◌*◌, ◌/◌, ◌%◌, ◌^◌, Bool, true, false, not, ◌&&◌, Option, none, some,
  List, [], ◌∷◌, ltb, ◌==◌, if◌then◌else◌, length, take, overwrite,
}
use esp_mqtt.Base.Bytes.{add32, sub32}
use esp_mqtt.Base.Text.{c_string}
use esp_mqtt.Msg.Types.{
  IdSource, incremental, random, Connection, max_fixed_header_size, MessageType, type_number,
  publish, puback, pubrec, pubrel, pubcomp, subscribe, unsubscribe, pingreq, pingresp, disconnect,
}

infixl 5 ◌>>=◌
abbrev pub ◌>>=◌ {ℓ κ} : {A : Type ℓ} {B : Type κ} → Option A → (A → Option B) → Option B
none >>= f = none
some a >>= f = f a

-- `connection->buffer[connection->outbound_message.length++] = v`, and the `memcpy` to that place.
abbrev pub put_bytes : Connection → List ℕ → Connection
put_bytes c bytes = record c { buffer = overwrite c.buffer c.len bytes; len = c.len + length bytes }

-- `append_string`; `none` is -1.
unfoldable pub append_string : Connection → List ℕ → ℕ → Option Connection
append_string c string len =
    if ltb c.buffer_length (add32 (add32 c.len len) 2)
    then none
    else some (put_bytes (put_bytes c (len / 256 % 256 ∷ len % 256 ∷ [])) (take len string))

-- `message_id = ++connection->last_message_id`, a `uint16_t`, until it is not 0.
unfoldable pub count_up : ℕ → ℕ → Option (ℕ × IdSource)
count_up zero last = none
count_up (suc rounds) last =
    let next = (last + 1) % 65536 in
    let more = count_up rounds next in if next == 0 then more else some (next, incremental next)

unfoldable pub draw : List ℕ → Option (ℕ × IdSource)
draw [] = none
draw (answer ∷ answers) =
    let more = draw answers in
    if answer % 65536 == 0 then more else some (answer % 65536, random answers)

-- The loop of `append_message_id`, in two rounds of counting.
unfoldable pub next_id : ℕ → IdSource → Option (ℕ × IdSource)
next_id zero (incremental last) = count_up 2 last
next_id zero (random answers) = draw answers
next_id (suc id) ids = some (suc id, ids)

-- The connection and the id; the id 0 tells that there is no room.
unfoldable pub append_message_id : Connection → ℕ → Option (Connection × ℕ)
append_message_id c message_id = do
  (id, ids) ← next_id message_id c.ids
  let d : Connection = record c { ids = ids }
  if ltb d.buffer_length (add32 d.len 2)
      then some (d, 0)
      else some (put_bytes d (id / 256 % 256 ∷ id % 256 ∷ []), id)

abbrev pub set_message_header_size : Connection → Connection
set_message_header_size c = record c { len = max_fixed_header_size }

abbrev pub fail_message : Connection → Connection
fail_message c = record c { start = 0; len = 0 }

-- The `do` loop that encodes the remaining length, with the places left in `encoded_lens[4]`. The
-- `int` is negative from 2 ^ 31 on: then neither it nor the quotient is above 0, and the one byte is
-- what `uint8_t` keeps of a remainder that is not positive.
unfoldable pub encode_lens : ℕ → ℕ → Option (List ℕ)
encode_lens zero total = none
encode_lens (suc room) total =
    let rest = encode_lens room (total / 128) in
    if not (ltb total (2 ^ 31))
    then some ((256 - (2 ^ 32 - total) % 128) % 256 ∷ [])
    else if ltb 0 (total / 128)
    then (rest >>= λ bytes. some ((total % 128 + 128) ∷ bytes))
    else some (total % 128 ∷ [])

abbrev pub first_byte : MessageType → ℕ → ℕ → ℕ → ℕ
first_byte type dup qos retain = type_number type % 16 * 16 + dup % 2 * 8 + qos % 4 * 2 + retain % 2

-- The writes of `fini_message` in front of the body, for given length bytes.
unfoldable pub put_header : Connection → ℕ → List ℕ → Connection
put_header c first lens =
    let message_length = c.len - max_fixed_header_size in
    let offs = max_fixed_header_size - 1 - length lens in
    record c {
      len = message_length + length lens + 1;
      start = offs;
      fragmented_msg_data_offset = sub32 c.fragmented_msg_data_offset offs;
      buffer = overwrite c.buffer offs (first ∷ lens);
    }

-- `total_length`, what the length field announces: the difference of two `size_t` as an `int`.
unfoldable pub announced : Connection → ℕ
announced c =
    if c.fragmented_msg_total_length == 0
    then sub32 c.len max_fixed_header_size
    else sub32 c.fragmented_msg_total_length max_fixed_header_size

unfoldable pub fini_message : Connection → MessageType → ℕ → ℕ → ℕ → Option Connection
fini_message c type dup qos retain = do
  lens ← encode_lens 4 (announced c)
  some (
      if ltb max_fixed_header_size (length lens + 1)
      then fail_message c
      else put_header c (first_byte type dup qos retain) lens)

-- The connection and what was stored through `message_id`, if anything.
pub record Built : Type 0 where
  pub connection : Connection
  pub message_id : Option ℕ

abbrev failed : Connection → Option ℕ → Option Built
failed c id = some (record { connection = fail_message c; message_id = id })

-- The payload of a PUBLISH: all of it, or what fits with the marks of a fragmented message.
unfoldable pub put_payload : Connection → Option (List ℕ) → ℕ → Connection
put_payload c none data_length = c
put_payload c (some content) data_length =
    if ltb c.buffer_length (add32 c.len data_length)
    then record c {
      fragmented_msg_data_offset = c.len;
      buffer = overwrite c.buffer c.len (take (c.buffer_length - c.len) content);
      len = c.buffer_length;
      fragmented_msg_total_length = data_length + c.len;
    }
    else record c {
      buffer = overwrite c.buffer c.len (take data_length content);
      len = c.len + data_length;
      fragmented_msg_total_length = 0;
    }

abbrev missing : Option (List ℕ) → ℕ → Bool
missing none data_length = ltb 0 data_length
missing (some content) data_length = false

-- `mqtt_msg_publish` behind the topic: the id, the payload and the header.
unfoldable pub publish_id : Connection → ℕ → Option (Connection × ℕ)
publish_id c qos = if ltb 0 qos then append_message_id c 0 else some (c, 0)

unfoldable pub publish_body : Connection → Option (List ℕ) → ℕ → ℕ → ℕ → Option Built
publish_body c content data_length qos retain =
    if missing content data_length then failed c none else do
      (d, id) ← publish_id c qos
      if ltb 0 qos && id == 0 then failed d (some 0) else do
        e ← fini_message (put_payload d content data_length) publish 0 qos retain
        some (record { connection = e; message_id = some id })

-- With the characters of the topic.
unfoldable pub publish_to : Connection → List ℕ → Option (List ℕ) → ℕ → ℕ → ℕ → Option Built
publish_to c [] content data_length qos retain = failed (set_message_header_size c) none
publish_to c (t ∷ topic) content data_length qos retain =
    elim (append_string (set_message_header_size c) (t ∷ topic) (length (t ∷ topic))) [
      | none ↦ failed (set_message_header_size c) none
      | some d ↦ publish_body d content data_length qos retain
    ]

unfoldable pub mqtt_msg_publish :
    Connection → Option (List ℕ) → Option (List ℕ) → ℕ → ℕ → ℕ → Option Built
mqtt_msg_publish c none content data_length qos retain = failed (set_message_header_size c) none
mqtt_msg_publish c (some topic) content data_length qos retain =
    publish_to c (c_string topic) content data_length qos retain

-- PUBACK, PUBREC, PUBREL and PUBCOMP: a given id and no body; PUBREL has QoS 1 in its header.
unfoldable pub id_message : Connection → ℕ → MessageType → ℕ → Option Connection
id_message c message_id type qos = do
  (d, id) ← append_message_id (set_message_header_size c) message_id
  if id == 0 then some (fail_message d) else fini_message d type 0 qos 0

unfoldable pub mqtt_msg_puback : Connection → ℕ → Option Connection
mqtt_msg_puback c message_id = id_message c message_id puback 0

unfoldable pub mqtt_msg_pubrec : Connection → ℕ → Option Connection
mqtt_msg_pubrec c message_id = id_message c message_id pubrec 0

unfoldable pub mqtt_msg_pubrel : Connection → ℕ → Option Connection
mqtt_msg_pubrel c message_id = id_message c message_id pubrel 1

unfoldable pub mqtt_msg_pubcomp : Connection → ℕ → Option Connection
mqtt_msg_pubcomp c message_id = id_message c message_id pubcomp 0

-- `esp_mqtt_topic_t`
pub record TopicFilter : Type 0 where
  pub filter : List ℕ
  pub qos : ℕ

abbrev is_empty : List ℕ → Bool
is_empty [] = true
is_empty (c ∷ cs) = false

-- One round of the loop of `mqtt_msg_subscribe`; `none` where it leaves with `fail_message`.
unfoldable pub append_filter : Connection → TopicFilter → Option Connection
append_filter c t =
    let filter = c_string t.filter in
    if is_empty filter
    then none
    else (append_string c filter (length filter) >>= λ d.
        if ltb d.buffer_length (add32 d.len 1) then none else some (put_bytes d (t.qos % 256 ∷ [])))

unfoldable pub append_filters : Connection → List TopicFilter → Option Connection
append_filters c [] = some c
append_filters c (t ∷ ts) = elim (append_filter c t) [ none ↦ none | some d ↦ append_filters d ts ]

abbrev built : Option Connection → ℕ → Option Built
built none id = none
built (some c) id = some (record { connection = c; message_id = some id })

unfoldable pub mqtt_msg_subscribe : Connection → List TopicFilter → Option Built
mqtt_msg_subscribe c topics = do
  (d, id) ← append_message_id (set_message_header_size c) 0
  if id == 0 then failed d (some 0) else (elim (append_filters d topics) [
    | none ↦ failed d (some id)
    | some e ↦ built (fini_message e subscribe 0 1 0) id
  ])

-- With the characters of the topic.
abbrev unsubscribe_from : Connection → List ℕ → Option Built
unsubscribe_from c [] = failed (set_message_header_size c) none
unsubscribe_from c (t ∷ topic) = do
  (d, id) ← append_message_id (set_message_header_size c) 0
  if id == 0 then failed d (some 0) else (elim (append_string d (t ∷ topic) (length (t ∷ topic))) [
    | none ↦ failed d (some id)
    | some e ↦ built (fini_message e unsubscribe 0 1 0) id
  ])

unfoldable pub mqtt_msg_unsubscribe : Connection → Option (List ℕ) → Option Built
mqtt_msg_unsubscribe c none = failed (set_message_header_size c) none
mqtt_msg_unsubscribe c (some topic) = unsubscribe_from c (c_string topic)

unfoldable pub mqtt_msg_pingreq : Connection → Option Connection
mqtt_msg_pingreq c = fini_message (set_message_header_size c) pingreq 0 0 0

unfoldable pub mqtt_msg_pingresp : Connection → Option Connection
mqtt_msg_pingresp c = fini_message (set_message_header_size c) pingresp 0 0 0

unfoldable pub mqtt_msg_disconnect : Connection → Option Connection
mqtt_msg_disconnect c = fini_message (set_message_header_size c) disconnect 0 0 0
