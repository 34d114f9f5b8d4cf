-- ===== src/Client/Receive.antt =====
-- `mqtt_message_receive` of mqtt_client.c. The place `buf` is always `in_buffer` with
-- `in_buffer_read_len` added.
pub mod Holding
pub mod Pieces
pub mod Whole
pub mod Resume
pub mod Overread
use esp_mqtt.Base.{
  ℕ, zero, suc, ◌+◌, ◌-◌, ◌*◌, ◌/◌, ◌%◌, Bool, true, false, ◌&&◌, ◌||◌, not, Option, none, some,
  List, [], ◌∷◌, ltb, leb, ◌==◌, if◌then◌else◌, length, overwrite,
}
use esp_mqtt.Msg.Types.{byte_at, mqtt_get_type, mqtt_get_qos, publish, type_number}
use esp_mqtt.Msg.Read.{mqtt_has_valid_msg_hdr, mqtt_get_total_length, two_bytes_at}
use esp_mqtt.Client.State.{
  Arrival, Client, Received, receive_error, mid_message, nothing, message,
  esp_mqtt_client_dispatch_transport_error, handle_timeout, handle_broken, Taken, taken, no_time,
  no_connection, esp_transport_read,
}

-- A part of the function either goes on or returns.
pub data Phase : Type 0 where
  goes_on : Client → Phase
  returns : Client → Received → Phase

infixl 5 ◌>>=◌
abbrev pub ◌>>=◌ : Phase → (Client → Phase) → Phase
goes_on c >>= f = f c
returns c r >>= f = returns c r

abbrev pub stop : Client × Received → Phase
stop p = returns p.0 p.1

-- The bytes of a read, at `buf`; `in_buffer_read_len` is raised.
abbrev pub store : Client → List ℕ → Client
store c arrived = record c {
  in_buffer = overwrite c.in_buffer c.in_buffer_read_len arrived;
  in_buffer_read_len = c.in_buffer_read_len + length arrived;
}

abbrev pub after_read : Client → Bool → Taken → Phase
after_read c mid (taken arrived later) = goes_on (store (record c { reads = later }) arrived)
after_read c mid (no_time later) = stop (handle_timeout (record c { reads = later }) mid)
after_read c mid (no_connection later) = stop (handle_broken (record c { reads = later }))

-- A read with its error handling.
unfoldable pub read_into : Client → ℕ → Bool → Phase
read_into c want mid = after_read c mid (esp_transport_read c.reads want)

-- `err:`
unfoldable pub give_up : Client → Phase
give_up c = returns (esp_mqtt_client_dispatch_transport_error c) receive_error

-- An invalid first byte is in the buffer, but not counted.
abbrev pub check_first : Client → Phase
check_first c =
    if mqtt_has_valid_msg_hdr c.in_buffer 1
    then goes_on c
    else give_up (record c { in_buffer_read_len = 0 })

unfoldable pub read_first : Client → Phase
read_first c =
    if c.in_buffer_read_len == 0 then (do d ← read_into c 1 false; check_first d) else goes_on c

-- `(in_buffer_read_len < 6) && (*(buf - 1) & 0x80)`
abbrev pub more_length : Client → Bool
more_length c =
    ltb c.in_buffer_read_len 6
    && not (byte_at c.in_buffer (c.in_buffer_read_len - 1) / 128 % 2 == 0)

abbrev pub again : (Client → Phase) → Client → Phase
again loop c = if more_length c then loop c else goes_on c

-- The `do` loop over the remaining length; five rounds bring the count from 1 to 6.
unfoldable pub length_loop : ℕ → Client → Phase
length_loop zero c = goes_on c
length_loop (suc rounds) c = read_into c 1 true >>= again (length_loop rounds)

unfoldable pub read_length : Client → Phase
read_length c = if c.in_buffer_read_len == 1 || more_length c then length_loop 5 c else goes_on c

-- The topic's length, when a PUBLISH is larger than the buffer.
unfoldable pub read_topic_length : Client → ℕ → Phase
read_topic_length c fixed_header_len =
    if ltb c.in_buffer_read_len (fixed_header_len + 2)
    then (do
      d ← read_into c (c.in_buffer_read_len - fixed_header_len + 2) true
      if ltb d.in_buffer_read_len (fixed_header_len + 2) then returns d nothing else goes_on d)
    else goes_on c

-- The rest of the message, up to `total_len`.
unfoldable pub read_rest : Client → ℕ → Phase
read_rest c total_len =
    if ltb c.in_buffer_read_len total_len
    then (do
      d ← read_into c (total_len - c.in_buffer_read_len) true
      if ltb d.in_buffer_read_len total_len then returns d nothing else returns d message)
    else returns c message

abbrev pub header_total : Client → ℕ → ℕ
header_total c fixed_header_len =
    fixed_header_len
    + two_bytes_at c.in_buffer fixed_header_len
    + (if ltb 0 (mqtt_get_qos c.in_buffer) then 2 else 0)

-- A message that does not fit: of a PUBLISH, the buffer is filled.
unfoldable pub read_large : Client → ℕ → Phase
read_large c fixed_header_len =
    if mqtt_get_type c.in_buffer == type_number publish
    then (do
      d ← read_topic_length c fixed_header_len
      if ltb d.in_buffer_length (header_total d fixed_header_len)
          then give_up d
          else read_rest d d.in_buffer_length)
    else give_up c

unfoldable pub read_body : Client → Phase
read_body c =
    let total = mqtt_get_total_length c.in_buffer c.in_buffer_read_len in
    let d : Client = record c { message_length = total.0 } in
    if ltb d.in_buffer_length total.0 then read_large d total.1 else read_rest d total.0

-- Every path returns; the case of `goes_on` is not reached.
abbrev pub result : Phase → Client × Received
result (goes_on c) = (c, message)
result (returns c r) = (c, r)

unfoldable pub mqtt_message_receive : Client → Client × Received
mqtt_message_receive c =
    result (do d ← read_first (record c { message_length = 0 }); e ← read_length d; read_body e)
