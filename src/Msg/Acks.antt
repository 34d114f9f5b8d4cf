-- ===== src/Msg/Acks.antt =====
-- PUBACK, PUBREC, PUBREL and PUBCOMP of lib/mqtt_msg.c: four bytes that `mqtt_get_id` reads back.
use esp_mqtt.Base.{
  ℕ, zero, suc, ◌≤◌, ◌<◌, ◌≡◌, refl, ap, ◌∙◌, true, Option, some, [], ◌∷◌, ◌++◌, length, arith,
}
use esp_mqtt.Msg.Types.{
  IdSource, mqtt_get_type, mqtt_get_qos, mqtt_get_dup, Connection, MessageType, puback, pubrec,
  pubrel, pubcomp,
}
use esp_mqtt.Msg.Build.{
  id_message, mqtt_msg_puback, mqtt_msg_pubrec, mqtt_msg_pubrel, mqtt_msg_pubcomp,
  append_message_id, next_id, fini_message, set_message_header_size, first_byte,
}
use esp_mqtt.Msg.Read.{mqtt_get_id, mqtt_has_valid_msg_hdr}
use esp_mqtt.Msg.Length.{remaining_length}
use esp_mqtt.Msg.Layout.{
  Ready, packet, set_message_header_size-Writing, fini_message-packet, two_bytes,
  append_message_id-Writing,
}

given : (id : ℕ) (ids : IdSource) → next_id (suc id) ids ≡ some (suc id, ids)
unfolding next_id
given id ids = refl

put_together :
    (c d : Connection) (id : ℕ) (type : MessageType) (qos : ℕ)
    → append_message_id (set_message_header_size c) (suc id) ≡ some (d, suc id)
    → id_message c (suc id) type qos ≡ fini_message d type 0 qos 0
unfolding id_message
put_together c d id type qos e = rw (e, id_message) (ground arith)

short : remaining_length 2 ≡ 2 ∷ []
unfolding remaining_length
short = refl

id_message-packet :
    (c : Connection) (id : ℕ) (type : MessageType) (qos : ℕ)
    → Ready c
    → 7 ≤ c.buffer_length
    → (d : Connection) × ((id_message c (suc id) type qos ≡ some d)
        × (packet d ≡ first_byte type 0 qos 0 ∷ 2 ∷ two_bytes (suc id)))
id_message-packet c id type qos r h =
    let w = set_message_header_size-Writing c r in
    let a = append_message_id-Writing _ [] (suc id) (suc id) c.ids w (given id c.ids) h in
    let f = fini_message-packet a.0 (two_bytes (suc id)) type 0 qos 0 a.1.1.0 in
    (
      f.0,
      (
        put_together c a.0 id type qos a.1.0 ∙ f.1.0,
        f.1.1 ∙ ap (λ lens. first_byte type 0 qos 0 ∷ (lens ++ two_bytes (suc id))) short,
      ),
    )

-- A message that was built, is the four bytes given, and is read as a valid header with that id.
abbrev pub Acknowledges : Option Connection → ℕ → ℕ → Type 0
Acknowledges built first id =
    (d : Connection) × ((built ≡ some d)
      × ((packet d ≡ first ∷ 2 ∷ two_bytes id)
          × ((mqtt_get_id (packet d) (length (packet d)) ≡ id)
              × (mqtt_has_valid_msg_hdr (packet d) (length (packet d)) ≡ true))))

-- A first byte of one of the four types with its flags is read back.
abbrev ReadsBack : ℕ → Type 0
ReadsBack first =
    (id : ℕ)
    → id < 65536
    → (mqtt_get_id (first ∷ 2 ∷ two_bytes id) 4 ≡ id)
      × (mqtt_has_valid_msg_hdr (first ∷ 2 ∷ two_bytes id) 4 ≡ true)

puback-ReadsBack : ReadsBack 64
unfolding mqtt_get_id mqtt_has_valid_msg_hdr mqtt_get_type mqtt_get_qos mqtt_get_dup
puback-ReadsBack id h = (omega arith, refl)

pubrec-ReadsBack : ReadsBack 80
unfolding mqtt_get_id mqtt_has_valid_msg_hdr mqtt_get_type mqtt_get_qos mqtt_get_dup
pubrec-ReadsBack id h = (omega arith, refl)

pubrel-ReadsBack : ReadsBack 98
unfolding mqtt_get_id mqtt_has_valid_msg_hdr mqtt_get_type mqtt_get_qos mqtt_get_dup
pubrel-ReadsBack id h = (omega arith, refl)

pubcomp-ReadsBack : ReadsBack 112
unfolding mqtt_get_id mqtt_has_valid_msg_hdr mqtt_get_type mqtt_get_qos mqtt_get_dup
pubcomp-ReadsBack id h = (omega arith, refl)

acknowledged :
    (c : Connection) (id : ℕ) (type : MessageType) (qos first : ℕ)
    → Ready c
    → 7 ≤ c.buffer_length
    → suc id < 65536
    → first_byte type 0 qos 0 ≡ first
    → ReadsBack first
    → Acknowledges (id_message c (suc id) type qos) first (suc id)
acknowledged c id type qos first r h k e back =
    let p = id_message-packet c id type qos r h in
    let same = p.1.1 ∙ ap (λ b. b ∷ 2 ∷ two_bytes (suc id)) e in
    let read = back (suc id) k in
    (
      p.0,
      (
        p.1.0,
        (
          same,
          (
            ap (λ l. mqtt_get_id l (length l)) same ∙ read.0,
            ap (λ l. mqtt_has_valid_msg_hdr l (length l)) same ∙ read.1,
          ),
        ),
      ),
    )

-- The four acknowledgements, on a buffer of known length with room for seven bytes and for an id
-- that is not 0 and has 16 bits: each is built, is the type's first byte (with the flags 0010 for
-- PUBREL), the length 2 and the id, has a valid header, and `mqtt_get_id` reads the id back.
pub acknowledgements_read_back :
    (c : Connection) (id : ℕ)
    → Ready c
    → 7 ≤ c.buffer_length
    → 0 < id
    → id < 65536
    → Acknowledges (mqtt_msg_puback c id) 64 id
      × (Acknowledges (mqtt_msg_pubrec c id) 80 id
          × (Acknowledges (mqtt_msg_pubrel c id) 98 id
              × Acknowledges (mqtt_msg_pubcomp c id) 112 id))
unfolding mqtt_msg_puback mqtt_msg_pubrec mqtt_msg_pubrel mqtt_msg_pubcomp
acknowledgements_read_back c zero r h z k = absurd (omega arith)
acknowledgements_read_back c (suc id) r h z k = (
  acknowledged c id puback 0 64 r h k refl puback-ReadsBack,
  (
    acknowledged c id pubrec 0 80 r h k refl pubrec-ReadsBack,
    (
      acknowledged c id pubrel 1 98 r h k refl pubrel-ReadsBack,
      acknowledged c id pubcomp 0 112 r h k refl pubcomp-ReadsBack,
    ),
  ),
)
