-- ===== src/Client/Send.antt =====
-- `esp_mqtt_client_publish` and `esp_mqtt_client_enqueue` of mqtt_client.c, for MQTT 3.1 and 3.1.1,
-- with MQTT_SKIP_PUBLISH_IF_DISCONNECTED off, which is the default. The payload is the memory behind
-- `data`: there are no bytes behind its end, and a position in front of it counts as its beginning.
-- A length that the caller gives is not negative. What a write sent of the payload is a difference
-- of two `size_t` that wraps and is read as an `int`; what remains is an `int`, which may be
-- negative: it is for every message that is not fragmented, since `fini_message` moves the offset of
-- the payload, which is 0 there, below 0. Sums of `int` that overflow are not modelled.
pub mod Pieces
pub mod Whole
use esp_mqtt.Base.{
  ℕ, zero, suc, ◌+◌, ◌-◌, Bool, true, false, not, ◌&&◌, ◌||◌, Option, none, some, List, [], ltb,
  ◌==◌, if◌then◌else◌, take, drop, overwrite,
}
use esp_mqtt.Base.Bytes.{add64, sub32}
use esp_mqtt.Base.Int.{ℤ, pos, pos_part, as_int, ltb_ℤ, ◌-ℤ◌}
use esp_mqtt.Msg.Types.{Connection, mqtt_get_type}
use esp_mqtt.Msg.Build.{Built, ◌>>=◌, mqtt_msg_publish}
use esp_mqtt.Msg.Layout.{packet}
use esp_mqtt.Contract.Receive.{strlen}
use esp_mqtt.Outbox.{
  Outbox, Message, Heap, outbox_enqueue, outbox_get_size, outbox_set_pending, outbox_set_tick,
  transmitted,
}
use esp_mqtt.Client.State.{
  Client, ClientState, state_init, state_disconnected, state_connected, state_wait_reconnect, now,
  tick_read,
}
use esp_mqtt.Client.Write.{Written, all_written, write_failed, write_timeout, esp_mqtt_write}
use esp_mqtt.Client.Abort.{esp_mqtt_abort_connection}

-- What the calls return: a message id, -1 or -2.
pub data Reply : Type 0 where
  message_id : ℕ → Reply
  refused outbox_full : Reply

abbrev pub is_connected : ClientState → Bool
is_connected state_connected = true
is_connected state_init = false
is_connected state_disconnected = false
is_connected state_wait_reconnect = false

abbrev pub was_written : Written → Bool
was_written all_written = true
was_written write_failed = false
was_written write_timeout = false

-- `mqtt_enqueue`: the pending message in the output buffer, with what did not fit; true when an
-- item was made.
abbrev enqueued : Client → Outbox × Option ℕ → Client × Bool
enqueued c (o, none) = (record c { outbox = o }, false)
enqueued c (o, some addr) = (record c { outbox = o }, true)

unfoldable pub mqtt_enqueue : Heap → Client → Option (List ℕ) → ℕ → Client × Bool
mqtt_enqueue h c remaining_data remaining_len =
    let d = c.connection in
    let m : Message = record {
      content = packet d;
      len = d.len;
      msg_id = c.pending_msg_id;
      msg_qos = c.pending_publish_qos;
      msg_type = c.pending_msg_type;
      remaining_data = remaining_data;
      remaining_len = remaining_len;
    } in
    enqueued (tick_read c) (outbox_enqueue h c.outbox m (pos (now c)))

abbrev pub or_zero : Option ℕ → ℕ
or_zero none = 0
or_zero (some id) = id

-- `make_publish`: the client with the message, and its id unless the message could not be made.
abbrev pub made : Client → Option Built → Option (Client × Option ℕ)
made c none = none
made c (some b) =
    let d : Connection = b.connection in
    some (record c { connection = d }, if d.len == 0 then none else some (or_zero b.message_id))

unfoldable pub make_publish :
    Client → Option (List ℕ) → Option (List ℕ) → ℕ → ℕ → ℕ → Option (Client × Option ℕ)
make_publish c topic content len qos retain =
    made c (mqtt_msg_publish c.connection topic content len qos retain)

-- `data_sent`, and `first_fragment` of the enqueued message: the bytes of the payload in the buffer.
abbrev pub data_sent : Connection → ℤ
data_sent d = as_int (sub32 d.len d.fragmented_msg_data_offset)

-- What is left to send behind a write.
abbrev pub left_behind : Connection → ℤ → ℤ
left_behind d remaining_len = remaining_len -ℤ data_sent d

abbrev behind_data : Option (List ℕ) → ℕ → Option (List ℕ)
behind_data none n = none
behind_data (some content) n = some (drop n content)

abbrev pub whole_sent : Client → Client
whole_sent c =
    let d : Connection = record c.connection { fragmented_msg_total_length = 0 } in
    record c { connection = d }

-- The message that was made goes to the outbox, with the rest of a payload that did not fit.
abbrev pub store_publish : Heap → Client → ℕ → Option (List ℕ) → ℕ → ℕ → Client × Option ℕ
store_publish h c id content len qos =
    let p : Client = record c {
      pending_msg_type = mqtt_get_type (packet c.connection);
      pending_msg_id = id;
      pending_publish_qos = qos;
    } in
    let d = c.connection in
    let whole = d.fragmented_msg_total_length == 0 in
    let e =
      if whole
      then mqtt_enqueue h p none 0
      else mqtt_enqueue h p (behind_data content (pos_part (data_sent d)))
          (pos_part (left_behind d (pos len))) in
    (if whole || not e.1 then e.0 else whole_sent e.0, if e.1 then some id else none)

abbrev pub with_id : Heap → Option (List ℕ) → ℕ → ℕ → Bool → Client × Option ℕ → Client × Option ℕ
with_id h content len qos store (c, none) = (c, none)
with_id h content len qos store (c, some id) =
    if ltb 0 qos || store then store_publish h c id content len qos else (c, some id)

unfoldable pub mqtt_client_enqueue_publish :
    Heap
    → Client
    → Option (List ℕ)
    → Option (List ℕ)
    → ℕ
    → ℕ
    → ℕ
    → Bool
    → Option (Client × Option ℕ)
mqtt_client_enqueue_publish h c topic content len qos retain store = do
  m ← make_publish c topic content len qos retain
  some (with_id h content len qos store m)

-- `len`, or `strlen` of the data for the length 0.
abbrev pub payload_len : Option (List ℕ) → ℕ → ℕ
payload_len none len = len
payload_len (some content) zero = strlen content
payload_len (some content) (suc len) = suc len

-- The next piece of what is left, in the buffer.
abbrev pub next_piece : Client → List ℕ → ℕ → Client
next_piece c current_data remaining_len =
    let d = c.connection in
    let write_len = if ltb d.buffer_length remaining_len then d.buffer_length else remaining_len in
    let e : Connection = record d {
      fragmented_msg_data_offset = 0;
      fragmented_msg_total_length = 0;
      buffer = overwrite d.buffer 0 (take write_len current_data);
      start = 0;
      len = write_len;
    } in
    record c { connection = e }

abbrev all_sent : Client → Client
all_sent c =
    let d : Connection = record c.connection {
      fragmented_msg_data_offset = 0;
      fragmented_msg_total_length = 0;
    } in
    record c { connection = d }

abbrev pub after_write :
    (Client → List ℕ → ℤ → Client × Bool) → List ℕ → ℤ → Client × Written → Client × Bool
after_write loop current_data remaining_len (c, write_failed) = (esp_mqtt_abort_connection c, false)
after_write loop current_data remaining_len (c, write_timeout) =
    (esp_mqtt_abort_connection c, false)
after_write loop current_data remaining_len (c, all_written) =
    let d = c.connection in
    let rest = drop (pos_part (data_sent d)) current_data in
    let left = left_behind d remaining_len in
    if ltb_ℤ (pos 0) left
    then loop (next_piece c rest (pos_part left)) rest left
    else (all_sent c, true)

-- The `while (sending)` loop; true when all was sent.
unfoldable pub send_loop : ℕ → Client → List ℕ → ℤ → Client × Bool
send_loop zero c current_data remaining_len = (c, true)
send_loop (suc rounds) c current_data remaining_len =
    after_write (send_loop rounds) current_data remaining_len (esp_mqtt_write c)

abbrev bytes_of : Option (List ℕ) → List ℕ
bytes_of none = []
bytes_of (some content) = content

abbrev pub transmitted_now : Client → ℕ → Client
transmitted_now c id =
    let o = (outbox_set_tick c.outbox id (pos (now c))).0 in
    tick_read (record c { outbox = (outbox_set_pending o id transmitted).0 })

-- Behind the loop: the message counts as sent, or what is fragmented is forgotten.
abbrev pub after_send : ℕ → ℕ → Client × Bool → Client × Reply
after_send qos id (c, true) = (if ltb 0 qos then transmitted_now c id else c, message_id id)
after_send qos id (c, false) = (whole_sent c, refused)

-- Each round but the first sends a byte at least of what the first leaves, so these rounds are
-- enough.
abbrev pub send_made : Option (List ℕ) → ℕ → ℕ → Client × Option ℕ → Client × Reply
send_made content len qos (c, none) = (c, refused)
send_made content len qos (c, some id) =
    let d = c.connection in
    if is_connected c.state
    then after_send qos id
        (send_loop (suc (pos_part (left_behind d (pos len)))) c (bytes_of content) (pos len))
    else (whole_sent c, if ltb 0 qos then message_id id else refused)

unfoldable pub esp_mqtt_client_publish :
    Heap → Client → Option (List ℕ) → Option (List ℕ) → ℕ → ℕ → ℕ → Option (Client × Reply)
esp_mqtt_client_publish h c topic content given_len qos retain =
    let len = payload_len content given_len in
    let config = c.config in
    if ltb 0 config.outbox_limit
      && ltb 0 qos
      && ltb config.outbox_limit (add64 len (outbox_get_size c.outbox))
    then some (c, outbox_full)
    else (do
      m ← mqtt_client_enqueue_publish h c topic content len qos retain false
      some (send_made content len qos m))

-- An id of 0 tells of a message that was not stored.
abbrev pub enqueue_reply : Bool → Client × Option ℕ → Client × Reply
enqueue_reply store (c, none) = (c, refused)
enqueue_reply store (c, some id) = (c, if (id == 0) && not store then refused else message_id id)

unfoldable pub esp_mqtt_client_enqueue :
    Heap → Client → Option (List ℕ) → Option (List ℕ) → ℕ → ℕ → ℕ → Bool → Option (Client × Reply)
esp_mqtt_client_enqueue h c topic content given_len qos retain store =
    let len = payload_len content given_len in
    let config = c.config in
    if ltb 0 config.outbox_limit && ltb config.outbox_limit (add64 len (outbox_get_size c.outbox))
    then some (c, outbox_full)
    else (do
      m ← mqtt_client_enqueue_publish h c topic content len qos retain store
      some (enqueue_reply store m))
