-- ===== src/Msg/Types.antt =====
-- The types and the byte accessors of lib/include/mqtt_msg.h. A buffer is the list of its bytes, a
-- pointer into it an offset; masks and shifts are written as `%`, `/` and `*`.
use Prim.Native.Nat.{bit_or}
use esp_mqtt.Base.{ℕ, ◌/◌, ◌%◌, List, get_or, set}

-- Where message ids come from: the counter `last_message_id` (MQTT_MSG_ID_INCREMENTAL), or else the
-- answers that `platform_random` is going to give.
pub data IdSource : Type 0 where
  incremental : ℕ → IdSource
  random : List ℕ → IdSource

-- `mqtt_connection_t` with its `mqtt_message_t`; `start` is `outbound_message.data - buffer`.
pub record Connection : Type 0 where
  pub start : ℕ
  pub len : ℕ
  pub fragmented_msg_total_length : ℕ
  pub fragmented_msg_data_offset : ℕ
  pub ids : IdSource
  pub buffer : List ℕ
  pub buffer_length : ℕ

abbrev pub max_fixed_header_size : ℕ
max_fixed_header_size = 5

-- The numbers of `enum mqtt_message_type`.
pub data MessageType : Type 0 where
  connect connack publish puback pubrec pubrel pubcomp subscribe : MessageType
  suback unsubscribe unsuback pingreq pingresp disconnect : MessageType

abbrev pub type_number : MessageType → ℕ
type_number connect = 1
type_number connack = 2
type_number publish = 3
type_number puback = 4
type_number pubrec = 5
type_number pubrel = 6
type_number pubcomp = 7
type_number subscribe = 8
type_number suback = 9
type_number unsubscribe = 10
type_number unsuback = 11
type_number pingreq = 12
type_number pingresp = 13
type_number disconnect = 14

abbrev pub byte_at : List ℕ → ℕ → ℕ
byte_at buffer i = get_or buffer i 0

unfoldable pub mqtt_get_type : List ℕ → ℕ
mqtt_get_type buffer = byte_at buffer 0 / 16 % 16

unfoldable pub mqtt_get_dup : List ℕ → ℕ
mqtt_get_dup buffer = byte_at buffer 0 / 8 % 2

unfoldable pub mqtt_get_qos : List ℕ → ℕ
mqtt_get_qos buffer = byte_at buffer 0 / 2 % 4

unfoldable pub mqtt_get_retain : List ℕ → ℕ
mqtt_get_retain buffer = byte_at buffer 0 % 2

unfoldable pub mqtt_get_connect_session_present : List ℕ → ℕ
mqtt_get_connect_session_present buffer = byte_at buffer 2 % 2

unfoldable pub mqtt_get_connect_return_code : List ℕ → ℕ
mqtt_get_connect_return_code buffer = byte_at buffer 3

unfoldable pub mqtt_set_dup : List ℕ → List ℕ
mqtt_set_dup buffer = set buffer 0 (bit_or (byte_at buffer 0) 8)
