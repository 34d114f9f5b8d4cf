-- ===== src/Msg/Publish.antt =====
-- The packet that `mqtt_msg_publish` of lib/mqtt_msg.c builds.
use mathlib.Core.Path.{subst}
use mathlib.Core.List.{append_assoc, append-nil}
use esp_mqtt.Base.{
  ℕ, zero, suc, ◌+◌, ◌^◌, ◌≤◌, ◌<◌, ◌≡◌, refl, sym, ap, ◌∙◌, ◌&&◌, false, Option, some, List, [],
  ◌∷◌, ◌++◌, ltb, ◌==◌, length, All, not-lt→ltb, arith, take-length,
}
use esp_mqtt.Base.Bytes.{add32}
use esp_mqtt.Base.Text.{IsChar, c_string-text}
use esp_mqtt.Msg.Types.{IdSource, Connection, publish}
use esp_mqtt.Msg.Build.{
  put_payload, publish_id, publish_body, publish_to, mqtt_msg_publish, append_string,
  append_message_id, next_id, fini_message, set_message_header_size, first_byte, put_bytes,
}
use esp_mqtt.Msg.Length.{remaining_length}
use esp_mqtt.Msg.Layout.{
  Ready, Writing, packet, set_message_header_size-Writing, put_bytes-Writing, fini_message-packet,
  two_bytes, text_field, append_string-Writing, append_message_id-Writing,
}
use esp_mqtt.Msg.Ids.{next_id-bounds}

-- The PUBLISH packet of MQTT 3.1.1: topic, id if the QoS asks for one, and payload.
abbrev pub id_field : ℕ → ℕ → List ℕ
id_field zero id = []
id_field (suc qos) id = two_bytes id

abbrev pub publish_fields : List ℕ → ℕ → ℕ → List ℕ → List ℕ
publish_fields topic qos id content = text_field topic ++ (id_field qos id ++ content)

unfoldable pub publish_packet : List ℕ → List ℕ → ℕ → ℕ → ℕ → List ℕ
publish_packet topic content qos retain id =
    let body = publish_fields topic qos id content in
    first_byte publish 0 qos retain ∷ (remaining_length (length body) ++ body)

-- The id that a message is given: none with QoS 0, else the next one.
abbrev pub Chosen : ℕ → IdSource → ℕ → Type 0
Chosen zero ids id = id ≡ 0
Chosen (suc qos) ids id = (rest : IdSource) × (next_id 0 ids ≡ some (id, rest))

identified : (c : Connection) (qos : ℕ) → publish_id c (suc qos) ≡ append_message_id c 0
unfolding publish_id
identified c qos = ground arith

publish_id-Writing :
    (c : Connection) (body : List ℕ) (qos id : ℕ)
    → Writing c body
    → Chosen qos c.ids id
    → c.len + 2 ≤ c.buffer_length
    → (d : Connection) × ((publish_id c qos ≡ some (d, id))
        × (Writing d (body ++ id_field qos id)
            × ((d.len ≤ c.len + 2) × (d.buffer_length ≡ c.buffer_length))))
unfolding publish_id
publish_id-Writing c body zero id w k h = (
  c,
  (
    ap (λ i. some (c, i)) (sym k),
    (subst (Writing c) (sym (append-nil body)) w, (omega arith, refl)),
  ),
)
publish_id-Writing c body (suc qos) id w k h =
    let p = append_message_id-Writing c body 0 id k.0 w k.1 h in
    (p.0, (identified c qos ∙ p.1.0, (p.1.1.0, (omega (arith, p.1.1.1.1.0), p.1.1.1.1.1))))

whole-Writing :
    (c : Connection) (body : List ℕ)
    → Writing c body
    → Writing (record c { fragmented_msg_total_length = 0 }) body
whole-Writing c body w = record {
  size = w.size;
  room = w.room;
  block = w.block;
  bound = w.bound;
  whole = refl;
  held = w.held;
}

pub stored :
    (c : Connection) (content : List ℕ)
    → c.buffer_length < 2 ^ 28
    → c.len + length content ≤ c.buffer_length
    → put_payload c (some content) (length content)
      ≡ record (put_bytes c content) { fragmented_msg_total_length = 0 }
unfolding put_payload add32
stored c content b h =
    rw
      (not-lt→ltb c.buffer_length (add32 c.len (length content)) (omega arith), take-length content)
      refl

pub put_payload-Writing :
    (c : Connection) (body content : List ℕ)
    → Writing c body
    → c.len + length content ≤ c.buffer_length
    → Writing (put_payload c (some content) (length content)) (body ++ content)
put_payload-Writing c body content w h =
    subst (λ d. Writing d (body ++ content)) (sym (stored c content w.bound h))
      (whole-Writing (put_bytes c content) _ (put_bytes-Writing c body content w h))

test-Chosen :
    (qos : ℕ) (ids : IdSource) (id : ℕ) → Chosen qos ids id → (ltb 0 qos && id == 0) ≡ false
test-Chosen zero ids id k = refl
test-Chosen (suc qos) ids id k = let b = next_id-bounds ids k.0 id k.1 in ground (arith, b.0)

pub put_together :
    (c d e : Connection) (content : List ℕ) (qos retain id : ℕ)
    → publish_id c qos ≡ some (d, id)
    → (ltb 0 qos && id == 0) ≡ false
    → fini_message (put_payload d (some content) (length content)) publish 0 qos retain ≡ some e
    → publish_body c (some content) (length content) qos retain
      ≡ some (record { connection = e; message_id = some id })
unfolding publish_body
put_together c d e content qos retain id h k l = rw (h, k, l) refl

abbrev wire : List ℕ → ℕ → ℕ → List ℕ
wire body qos retain = first_byte publish 0 qos retain ∷ (remaining_length (length body) ++ body)

publish_body-packet :
    (c : Connection) (body content : List ℕ) (qos retain id : ℕ)
    → Writing c body
    → Chosen qos c.ids id
    → c.len + 2 + length content ≤ c.buffer_length
    → (d : Connection) × ((publish_body c (some content) (length content) qos retain
          ≡ some (record { connection = d; message_id = some id }))
        × (packet d ≡ wire (body ++ (id_field qos id ++ content)) qos retain))
publish_body-packet c body content qos retain id w k h =
    let p = publish_id-Writing c body qos id w k (omega arith) in
    let v = put_payload-Writing p.0 _ content p.1.1.0 (omega (arith, p.1.1.1.0, p.1.1.1.1, h)) in
    let f = fini_message-packet _ _ publish 0 qos retain v in
    (
      f.0,
      (
        put_together c p.0 f.0 content qos retain id p.1.0 (test-Chosen qos c.ids id k) f.1.0,
        f.1.1 ∙ ap (λ b. wire b qos retain) (append_assoc body (id_field qos id) content),
      ),
    )

pub with_topic :
    (c d : Connection) (t : ℕ) (ts : List ℕ) (content : Option (List ℕ)) (n qos retain : ℕ)
    → All IsChar (t ∷ ts)
    → append_string (set_message_header_size c) (t ∷ ts) (length (t ∷ ts)) ≡ some d
    → mqtt_msg_publish c (some (t ∷ ts)) content n qos retain ≡ publish_body d content n qos retain
unfolding mqtt_msg_publish publish_to
with_topic c d t ts content n qos retain text e =
    ap (λ topic. publish_to c topic content n qos retain) (c_string-text (t ∷ ts) text)
    ∙ rw (e, publish_to) refl

-- `mqtt_msg_publish`, on a buffer of known length below 2 ^ 28 with no fragmented message under way,
-- a topic that is not empty, has no NUL in it and is shorter than 65536 bytes, a QoS of 0, 1 or 2, a
-- retain flag of 0 or 1, and a payload that fits with the topic: the packet is the PUBLISH packet
-- of the standard with the topic, the payload, the QoS and the retain flag given, and the id that
-- the caller gets is the one in the packet: the next one, or 0 with QoS 0.
pub mqtt_msg_publish-packet :
    (c : Connection) (t : ℕ) (ts content : List ℕ) (qos retain id : ℕ)
    → Ready c
    → All IsChar (t ∷ ts)
    → length (t ∷ ts) < 65536
    → qos < 3
    → retain < 2
    → Chosen qos c.ids id
    → 9 + length (t ∷ ts) + length content ≤ c.buffer_length
    → (d : Connection) × ((mqtt_msg_publish c
            (some (t ∷ ts))
            (some content)
            (length content)
            qos
            retain
          ≡ some (record { connection = d; message_id = some id }))
        × (packet d ≡ publish_packet (t ∷ ts) content qos retain id))
unfolding publish_packet
mqtt_msg_publish-packet c t ts content qos retain id r text _ _ _ k h =
    let w = set_message_header_size-Writing c r in
    let a = append_string-Writing _ [] (t ∷ ts) w (omega arith) in
    let chosen = subst (λ ids. Chosen qos ids id) (sym a.1.1.1.0) k in
    let b =
      publish_body-packet a.0 _ content qos retain id a.1.1.0 chosen
        (omega (arith, a.1.1.1.1.0, a.1.1.1.1.1, h)) in
    (b.0, (with_topic c a.0 t ts _ _ qos retain text a.1.0 ∙ b.1.0, b.1.1))
