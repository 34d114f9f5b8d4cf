-- ===== src/Msg/ReadBack.antt =====
-- The readers of lib/mqtt_msg.c on a PUBLISH packet: they find the fields that were put in.
use esp_mqtt.Base.{
  ℕ, zero, suc, ◌+◌, ◌-◌, ◌%◌, ◌≤◌, ◌<◌, ◌≡◌, refl, ap, ◌∙◌, some, List, [], ◌∷◌, ◌++◌, length,
  get_or-append, drop, arith,
}
use native.Mathlib.Nat.{zero-add, suc-add}
use esp_mqtt.Msg.Types.{
  publish, byte_at, mqtt_get_type, mqtt_get_qos, mqtt_get_dup, mqtt_get_retain, type_number,
}
use esp_mqtt.Msg.Build.{first_byte}
use esp_mqtt.Msg.Read.{
  skip_loop, total_loop, two_bytes_at, mqtt_get_publish_topic, mqtt_get_publish_data,
  payload_offset, mqtt_get_id, publish_packet_id,
}
use esp_mqtt.Msg.Length.{remaining_length, with_length, header_size}
use esp_mqtt.Msg.Layout.{two_bytes}

drop-append_add {ℓ} :
    {A : Type ℓ} (xs ys : List A) (i : ℕ) → drop (length xs + i) (xs ++ ys) ≡ drop i ys
drop-append_add [] ys i = rw zero-add refl
drop-append_add (x ∷ xs) ys i = rw suc-add (drop-append_add xs ys i)

-- Behind the fixed header stands the body.
byte_behind :
    (first n i : ℕ) (body : List ℕ)
    → byte_at (with_length first n body) (header_size n + i) ≡ byte_at body i
byte_behind first n i body = get_or-append (first ∷ remaining_length n) body i 0

drop_behind :
    (first n i : ℕ) (body : List ℕ)
    → drop (header_size n + i) (with_length first n body) ≡ drop i body
drop_behind first n i body = drop-append_add (first ∷ remaining_length n) body i

byte_at_field :
    (first n i k : ℕ) (front rest : List ℕ)
    → k ≡ header_size n + (length front + i)
    → byte_at (with_length first n (front ++ rest)) k ≡ byte_at rest i
byte_at_field first n i k front rest e =
    ap (byte_at (with_length first n (front ++ rest))) e
    ∙ byte_behind first n (length front + i) (front ++ rest)
    ∙ get_or-append front rest i 0

pub drop_field :
    (first n i k : ℕ) (front rest : List ℕ)
    → k ≡ header_size n + (length front + i)
    → drop k (with_length first n (front ++ rest)) ≡ drop i rest
drop_field first n i k front rest e =
    ap (λ m. drop m (with_length first n (front ++ rest))) e
    ∙ drop_behind first n (length front + i) (front ++ rest)
    ∙ drop-append_add front rest i

pub two_bytes_at_field :
    (first n k v : ℕ) (front rest : List ℕ)
    → v < 65536
    → k ≡ header_size n + length front
    → two_bytes_at (with_length first n (front ++ (two_bytes v ++ rest))) k ≡ v
two_bytes_at_field first n k v front rest h e =
    let high = byte_at_field first n 0 k front (two_bytes v ++ rest) (omega (arith, e)) in
    let low = byte_at_field first n 1 (k + 1) front (two_bytes v ++ rest) (omega (arith, e)) in
    omega (arith, high, low)

-- The first byte of a PUBLISH packet gives back what it was made of.
module _ (qos retain : ℕ) (rest : List ℕ) (small : qos < 3) where
  pub mqtt_get_type-first :
      mqtt_get_type (first_byte publish 0 qos retain ∷ rest) ≡ type_number publish
  unfolding mqtt_get_type
  mqtt_get_type-first = omega arith

  pub mqtt_get_qos-first : mqtt_get_qos (first_byte publish 0 qos retain ∷ rest) ≡ qos
  unfolding mqtt_get_qos
  mqtt_get_qos-first = omega arith

  pub mqtt_get_dup-first : mqtt_get_dup (first_byte publish 0 qos retain ∷ rest) ≡ 0
  unfolding mqtt_get_dup
  mqtt_get_dup-first = omega arith

  pub mqtt_get_retain-first : mqtt_get_retain (first_byte publish 0 qos retain ∷ rest) ≡ retain % 2
  unfolding mqtt_get_retain
  mqtt_get_retain-first = omega arith

-- The readers, each for the places where its loops stop.
pub topic_found :
    (buffer : List ℕ) (size i topiclen : ℕ)
    → skip_loop size buffer size 1 ≡ i
    → two_bytes_at buffer i ≡ topiclen
    → i + 2 < size
    → i + 2 + topiclen ≤ size
    → mqtt_get_publish_topic buffer size ≡ some (i + 2, topiclen)
unfolding mqtt_get_publish_topic
topic_found buffer size i topiclen e f h k = rw e (rw f (ground arith))

-- The bytes of the id, by the QoS.
abbrev pub id_size : ℕ → ℕ
id_size zero = 0
id_size (suc qos) = 2

pub payload_offset_lem :
    (buffer : List ℕ) (size i qos : ℕ)
    → mqtt_get_qos buffer ≡ qos
    → i + id_size qos < size
    → payload_offset buffer size i ≡ some (i + id_size qos)
unfolding payload_offset
payload_offset_lem buffer size i zero g h = rw g (ap some (omega arith))
payload_offset_lem buffer size i (suc qos) g h = rw g (ground arith)

pub data_found :
    (buffer : List ℕ) (size i n topiclen : ℕ) (j : ℕ)
    → total_loop 4 buffer size 1 0 ≡ (n, i)
    → two_bytes_at buffer i ≡ topiclen
    → payload_offset buffer size (i + 2 + topiclen) ≡ some j
    → n + i ≡ size
    → i + 2 + topiclen < size
    → j < size
    → mqtt_get_publish_data buffer size ≡ (some j, size - j)
unfolding mqtt_get_publish_data
data_found buffer size i n topiclen j e f g s h k = rw e (rw f (rw g (ground arith)))

pub id_found :
    (buffer : List ℕ) (size i topiclen qos id : ℕ)
    → skip_loop size buffer size 1 ≡ i
    → two_bytes_at buffer i ≡ topiclen
    → mqtt_get_type buffer ≡ type_number publish
    → mqtt_get_qos buffer ≡ suc qos
    → two_bytes_at buffer (i + 2 + topiclen) ≡ id
    → i + 2 + topiclen + 2 ≤ size
    → mqtt_get_id buffer size ≡ id
unfolding mqtt_get_id publish_packet_id
id_found buffer size i topiclen qos id e f g q s k = rw g (rw q (rw e (rw f (ground (arith, s)))))
