-- ===== src/Contract/Receive.antt =====
-- `emqtt_receive_into` of runtime/emqtt_receive_internal.h and `emqtt_receive` of
-- runtime/emqtt_contract.c: the reassembly of a message from the fragments of MQTT_EVENT_DATA. A
-- pointer is an `Option`; an `int` is an integer; a char array is the list of its bytes.
pub mod Safety
pub mod Pieces
pub mod Reassembly
use esp_mqtt.Base.{
  ℕ, zero, suc, ◌+◌, ◌%◌, replicate, Bool, true, false, ◌&&◌, ◌||◌, not, Option, none, some, List,
  [], ◌∷◌, ltb, ◌==◌, if◌then◌else◌, length, take, overwrite,
}
use esp_mqtt.Base.Int.{ℤ, pos, ◌-ℤ◌, pos_part, ltb_ℤ, is_negative}
use esp_mqtt.Contract.Topic.{emqtt_topic_valid}

abbrev pub payload_max : ℕ
payload_max = 4096

-- `emqtt_fragment_t`
pub record Fragment : Type 0 where
  pub topic : Option (List ℕ)
  pub topic_length : ℤ
  pub content : Option (List ℕ)
  pub data_length : ℤ
  pub total_length : ℤ
  pub offset : ℤ
  pub message_id : ℤ
  pub qos : ℤ
  pub retain : Bool
  pub duplicate : Bool

-- `emqtt_message_info_t`
pub record MessageInfo : Type 0 where
  pub topic : List ℕ
  pub len : ℕ
  pub message_id : ℕ
  pub qos : ℕ
  pub retain : Bool
  pub duplicate : Bool

-- `emqtt_receive_state_t`
pub record ReceiveState : Type 0 where
  pub received : ℕ
  pub active : Bool

pub data RxResult : Type 0 where
  rx_more rx_complete rx_rejected : RxResult

-- What `emqtt_receive_into` works on, the objects behind its pointers.
pub record Receiver : Type 0 where
  pub state : ReceiveState
  pub info : MessageInfo
  pub payload : List ℕ

-- `strlen` of a char array.
unfoldable pub strlen : List ℕ → ℕ
strlen [] = 0
strlen (c ∷ rest) = if c == 0 then 0 else suc (strlen rest)

-- `memcmp` with the answer "equal".
unfoldable pub same_bytes : ℕ → List ℕ → List ℕ → Bool
same_bytes zero xs ys = true
same_bytes (suc n) [] ys = false
same_bytes (suc n) (x ∷ xs) [] = false
same_bytes (suc n) (x ∷ xs) (y ∷ ys) = (x == y) && same_bytes n xs ys

abbrev is_zero : ℤ → Bool
is_zero z = not (ltb_ℤ z (pos 0)) && not (ltb_ℤ (pos 0) z)

abbrev pub same_int : ℤ → ℤ → Bool
same_int a b = not (ltb_ℤ a b) && not (ltb_ℤ b a)

abbrev same_bool : Bool → Bool → Bool
same_bool true b = b
same_bool false b = not b

abbrev is_null : Option (List ℕ) → Bool
is_null none = true
is_null (some _) = false

-- The first test: the lengths and the offset of a fragment, then its data pointer, QoS and id.
unfoldable pub bad_lengths : ℕ → ℤ → ℤ → ℤ → ℤ → Bool
bad_lengths capacity topic_length data_length total_length offset =
    is_negative topic_length
    || is_negative data_length
    || is_negative total_length
    || is_negative offset
    || ltb_ℤ (pos payload_max) total_length
    || ltb capacity (pos_part total_length)
    || ltb_ℤ total_length offset
    || ltb_ℤ (total_length -ℤ offset) data_length

unfoldable pub bad_ids : Fragment → Bool
bad_ids f =
    (not (is_zero f.data_length) && is_null f.content)
    || is_negative f.qos
    || ltb_ℤ (pos 1) f.qos
    || is_negative f.message_id
    || ltb_ℤ (pos 65535) f.message_id
    || (same_int f.qos (pos 1) && is_zero f.message_id)
    || (is_zero f.qos && not (is_zero f.message_id))

unfoldable pub malformed : ℕ → Fragment → Bool
malformed capacity f =
    bad_lengths capacity f.topic_length f.data_length f.total_length f.offset || bad_ids f

abbrev pointee : Option (List ℕ) → List ℕ
pointee none = []
pointee (some xs) = xs

-- `goto reject`
abbrev reject : Receiver → Receiver × RxResult
reject r = (record r { state = record { received = 0; active = false } }, rx_rejected)

-- The first fragment's header goes into the message.
unfoldable pub start : Receiver → Fragment → Receiver
start r f =
    let n = pos_part f.topic_length in
    record r {
      info = record {
        topic = overwrite (overwrite r.info.topic 0 (take n (pointee f.topic))) n (0 ∷ []);
        len = pos_part f.total_length;
        message_id = pos_part f.message_id;
        qos = pos_part f.qos % 256;
        retain = f.retain;
        duplicate = f.duplicate;
      };
      state = record { received = 0; active = true };
    }

-- A later fragment may repeat the topic, and then it has to be the same.
unfoldable pub other_topic : Receiver → Fragment → Bool
other_topic r f =
    not (is_zero f.topic_length)
    && (is_null f.topic
        || not (pos_part f.topic_length == strlen r.info.topic)
        || not (same_bytes (pos_part f.topic_length) (pointee f.topic) r.info.topic))

-- The header of a fragment against the message under way.
unfoldable pub out_of_step : Receiver → Fragment → Bool
out_of_step r f =
    not (pos_part f.offset == r.state.received)
    || not (pos_part f.total_length == r.info.len)
    || not (same_int f.message_id (pos r.info.message_id))
    || not (same_int f.qos (pos r.info.qos))
    || not (same_bool f.retain r.info.retain)
    || not (same_bool f.duplicate r.info.duplicate)
    || (is_zero f.data_length && not (is_zero f.offset))

-- The `memcpy` behind the bytes that are there.
unfoldable pub copy : Receiver → Fragment → List ℕ
copy r f =
    if is_zero f.data_length
    then r.payload
    else overwrite r.payload r.state.received (take (pos_part f.data_length) (pointee f.content))

unfoldable pub finish : Receiver → Receiver × RxResult
finish r =
    if r.state.received == r.info.len
    then (record r { state = record { received = r.state.received; active = false } }, rx_complete)
    else (r, rx_more)

unfoldable pub accept : Receiver → Fragment → Receiver × RxResult
accept r f = finish (record r {
  payload = copy r f;
  state = record { received = r.state.received + pos_part f.data_length; active = r.state.active };
})

-- A fragment while a message is under way, and one that has to begin a message.
unfoldable pub resume : Receiver → Fragment → Receiver × RxResult
resume r f = if other_topic r f then reject r else if out_of_step r f then reject r else accept r f

unfoldable pub begin : Receiver → Fragment → Receiver × RxResult
begin r f =
    let s = start r f in
    if not (is_zero f.offset) || not (emqtt_topic_valid f.topic (pos_part f.topic_length) false)
    then reject r
    else if out_of_step s f
    then reject s
    else accept s f

unfoldable pub emqtt_receive_into : ℕ → Receiver → Option Fragment → Receiver × RxResult
emqtt_receive_into capacity r none = reject r
emqtt_receive_into capacity r (some f) =
    if malformed capacity f then reject r else if r.state.active then resume r f else begin r f

-- `emqtt_message_t`, whose payload is an array of 4096 bytes, and `emqtt_receiver_t`.
pub record Message : Type 0 where
  pub info : MessageInfo
  pub payload : List ℕ

pub record MessageReceiver : Type 0 where
  pub message : Option Message
  pub received : ℕ
  pub active : Bool

unfoldable pub emqtt_receive_reset : Option MessageReceiver → Option MessageReceiver
emqtt_receive_reset none = none
emqtt_receive_reset (some r) = some (record r { active = false; received = 0 })

-- `emqtt_message_info_t info = {0}`
abbrev pub zero_info : MessageInfo
zero_info = record {
  topic = replicate 257 0;
  len = 0;
  message_id = 0;
  qos = 0;
  retain = false;
  duplicate = false;
}

-- What is copied back: the info stays as it was where the fragment is rejected.
abbrev store : MessageReceiver → Message → Receiver × RxResult → MessageReceiver × RxResult
store r m (x, rx_rejected) = (
  record r {
    message = some (record m { payload = x.payload });
    received = x.state.received;
    active = x.state.active;
  },
  rx_rejected,
)
store r m (x, result) = (
  record r {
    message = some (record { info = x.info; payload = x.payload });
    received = x.state.received;
    active = x.state.active;
  },
  result,
)

unfoldable pub receive_message :
    MessageReceiver → Option Message → Option Fragment → MessageReceiver × RxResult
receive_message r none f = (record r { active = false; received = 0 }, rx_rejected)
receive_message r (some m) f = store r m (
    emqtt_receive_into payload_max
      (record {
        state = record { received = r.received; active = r.active };
        info = if r.active then m.info else zero_info;
        payload = m.payload;
      })
      f)

unfoldable pub emqtt_receive :
    Option MessageReceiver → Option Fragment → Option MessageReceiver × RxResult
unfolding receive_message
emqtt_receive none f = (none, rx_rejected)
emqtt_receive (some r) f = let p = receive_message r r.message f in (some p.0, p.1)
