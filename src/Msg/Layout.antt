-- ===== src/Msg/Layout.antt =====
-- How the builders of lib/mqtt_msg.c fill the buffer: the body grows behind five free bytes, and
-- `fini_message` puts the fixed header right in front of it.
use esp_mqtt.Base.{
  ℕ, ◌+◌, ◌-◌, ◌/◌, ◌%◌, ◌^◌, ◌≤◌, ◌<◌, ◌≡◌, refl, sym, ap, ◌∙◌, some, List, [], ◌∷◌, ◌++◌, length,
  not-lt→ltb, take, drop, overwrite, arith, length-append, length-take, drop-length, drop-append,
  take-add_drop, take-drop-overwrite, take-length, length-overwrite, take-overwrite,
}
use mathlib.Core.Path.{subst}
use mathlib.Core.List.{append_assoc}
use esp_mqtt.Base.Bytes.{add32, sub32}
use esp_mqtt.Msg.Types.{IdSource, Connection, MessageType}
use esp_mqtt.Msg.Build.{
  put_bytes, append_string, append_message_id, next_id, set_message_header_size, fini_message,
  put_header, announced, encode_lens, first_byte,
}
use esp_mqtt.Msg.Length.{remaining_length, encode_lens_lem, length-remaining_length}

-- What the message that is being built holds: `body` stands behind the five bytes kept for the
-- header, inside a buffer whose length is known and below 2 ^ 28.
pub record Writing (c : Connection) (body : List ℕ) : Type 0 where
  pub size : c.len ≡ 5 + length body
  pub room : c.len ≤ c.buffer_length
  pub block : length c.buffer ≡ c.buffer_length
  pub bound : c.buffer_length < 2 ^ 28
  pub whole : c.fragmented_msg_total_length ≡ 0
  pub held : drop 5 (take c.len c.buffer) ≡ body

-- `outbound_message.data` with its length.
unfoldable pub packet : Connection → List ℕ
packet c = take c.len (drop c.start c.buffer)

-- Where an empty buffer is made ready.
pub record Ready (c : Connection) : Type 0 where
  pub room : 5 ≤ c.buffer_length
  pub block : length c.buffer ≡ c.buffer_length
  pub bound : c.buffer_length < 2 ^ 28
  pub whole : c.fragmented_msg_total_length ≡ 0

pub set_message_header_size-Writing :
    (c : Connection) → Ready c → Writing (set_message_header_size c) []
set_message_header_size-Writing c r = record {
  size = refl;
  room = r.room;
  block = r.block;
  bound = r.bound;
  whole = r.whole;
  held = drop-length 5 (take 5 c.buffer) (omega (arith, length-take 5 c.buffer));
}

pub put_bytes-Writing :
    (c : Connection) (body bytes : List ℕ)
    → Writing c body
    → c.len + length bytes ≤ c.buffer_length
    → Writing (put_bytes c bytes) (body ++ bytes)
put_bytes-Writing c body bytes w h = record {
  size = omega (arith, length-append body bytes, w.size);
  room = h;
  block = length-overwrite c.buffer c.len bytes ∙ w.block;
  bound = w.bound;
  whole = w.whole;
  held =
      ap (drop 5) (
        subst
          (λ v. take (c.len + length bytes) (overwrite c.buffer c.len v) ≡ take c.len c.buffer ++ v)
          (take-length bytes)
          (take-overwrite c.len (length bytes) c.buffer bytes (omega (arith, w.block, h))
            (omega arith)))
      ∙ drop-append 5 (take c.len c.buffer) bytes
          (omega (arith, length-take c.len c.buffer, w.size, w.block, w.room))
      ∙ ap (λ l. l ++ bytes) w.held;
}

pub announced-body : (c : Connection) (body : List ℕ) → Writing c body → announced c ≡ length body
unfolding announced sub32
announced-body c body w = ground (arith, w.whole, w.size, w.room, w.bound)

pub put_header-packet :
    (c : Connection) (body : List ℕ) (first : ℕ) (lens : List ℕ)
    → Writing c body
    → length lens ≤ 4
    → packet (put_header c first lens) ≡ first ∷ (lens ++ body)
unfolding put_header packet
put_header-packet c body first lens w h =
    let offs = 4 - length lens in
    let block = overwrite c.buffer offs (first ∷ lens) in
    let size : c.len - 5 + length lens + 1 ≡ length (first ∷ lens) + length body =
      omega (arith, w.size) in
    let behind : offs + length (first ∷ lens) ≡ 5 = omega arith in
    ap (λ n. take n (drop offs block)) size
    ∙ take-drop-overwrite offs (length body) c.buffer (first ∷ lens)
        (omega (arith, w.size, w.room, w.block))
    ∙ ap (λ rest. first ∷ (lens ++ rest))
        (ap (λ n. take (length body) (drop n c.buffer)) behind
          ∙ sym (take-add_drop 5 (length body) c.buffer)
          ∙ ap (λ n. drop 5 (take n c.buffer)) (sym w.size)
          ∙ w.held)

-- `fini_message` on a message under way: the packet is the first byte, the remaining length of the
-- body as the standard encodes it, and the body; nothing is refused.
pub finished :
    (c : Connection) (type : MessageType) (dup qos retain : ℕ) (lens : List ℕ)
    → encode_lens 4 (announced c) ≡ some lens
    → length lens ≤ 4
    → fini_message c type dup qos retain ≡ some (put_header c (first_byte type dup qos retain) lens)
unfolding fini_message
finished c type dup qos retain lens e h = rw e (ap some (ground arith))

pub fini_message-packet :
    (c : Connection) (body : List ℕ) (type : MessageType) (dup qos retain : ℕ)
    → Writing c body
    → (d : Connection) × ((fini_message c type dup qos retain ≡ some d)
        × (packet d ≡ first_byte type dup qos retain ∷ (remaining_length (length body) ++ body)))
fini_message-packet c body type dup qos retain w =
    let n = length body in
    let small = length-remaining_length n in
    let e =
      ap (encode_lens 4) (announced-body c body w)
      ∙ encode_lens_lem n (omega (arith, w.size, w.room, w.bound)) in
    (
      put_header c (first_byte type dup qos retain) (remaining_length n),
      (
        finished c type dup qos retain (remaining_length n) e small,
        put_header-packet c body _ (remaining_length n) w small,
      ),
    )

-- A length or an id on two bytes, and a string behind its length.
abbrev pub two_bytes : ℕ → List ℕ
two_bytes n = n / 256 % 256 ∷ n % 256 ∷ []

abbrev pub text_field : List ℕ → List ℕ
text_field text = two_bytes (length text) ++ text

pub append_string-Writing :
    (c : Connection) (body text : List ℕ)
    → Writing c body
    → c.len + length text + 2 ≤ c.buffer_length
    → (d : Connection) × ((append_string c text (length text) ≡ some d)
        × (Writing d (body ++ text_field text)
            × ((d.ids ≡ c.ids)
                × ((d.len ≡ c.len + length text + 2) × (d.buffer_length ≡ c.buffer_length)))))
unfolding append_string add32
append_string-Writing c body text w h = (
  put_bytes (put_bytes c (two_bytes (length text))) text,
  (
    rw
        (not-lt→ltb c.buffer_length (add32 (add32 c.len (length text)) 2)
          (omega (arith, w.bound, h)))
        (ap (λ v. some (put_bytes (put_bytes c (two_bytes (length text))) v)) (take-length text)),
    (
      subst (Writing _) (append_assoc body (two_bytes (length text)) text) (
          put_bytes-Writing _ (body ++ two_bytes (length text)) text
            (put_bytes-Writing c body (two_bytes (length text)) w (omega arith)) (omega arith)),
      (refl, (omega arith, refl)),
    ),
  ),
)

ids-Writing :
    (c : Connection) (body : List ℕ) (ids : IdSource)
    → Writing c body
    → Writing (record c { ids = ids }) body
ids-Writing c body ids w = record {
  size = w.size;
  room = w.room;
  block = w.block;
  bound = w.bound;
  whole = w.whole;
  held = w.held;
}

pub append_message_id-Writing :
    (c : Connection) (body : List ℕ) (message_id id : ℕ) (ids : IdSource)
    → Writing c body
    → next_id message_id c.ids ≡ some (id, ids)
    → c.len + 2 ≤ c.buffer_length
    → (d : Connection) × ((append_message_id c message_id ≡ some (d, id))
        × (Writing d (body ++ two_bytes id)
            × ((d.ids ≡ ids) × ((d.len ≡ c.len + 2) × (d.buffer_length ≡ c.buffer_length)))))
unfolding append_message_id add32
append_message_id-Writing c body message_id id ids w e h = (
  put_bytes (record c { ids = ids }) (two_bytes id),
  (
    rw (e, not-lt→ltb c.buffer_length (add32 c.len 2) (omega (arith, w.bound, h))) refl,
    (
      put_bytes-Writing (record c { ids = ids }) body (two_bytes id) (ids-Writing c body ids w) h,
      (refl, (refl, refl)),
    ),
  ),
)
