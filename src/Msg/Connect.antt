-- ===== src/Msg/Connect.antt =====
-- `mqtt_msg_connect` and `mqtt_msg_buffer_init` of lib/mqtt_msg.c. A `char *` is the memory
-- behind it, NULL is `none`; `keepalive` is not negative.
use Prim.Native.Nat.{bit_or}
use esp_mqtt.Base.{
  ℕ, ◌+◌, ◌*◌, ◌/◌, ◌%◌, Bool, true, false, Option, none, some, List, [], ◌∷◌, ◌++◌, ltb,
  if◌then◌else◌, replicate, set, length,
}
use esp_mqtt.Base.Bytes.{add32}
use esp_mqtt.Base.Text.{c_string}
use esp_mqtt.Msg.Types.{Connection, byte_at, max_fixed_header_size, connect}
use esp_mqtt.Msg.Build.{
  ◌>>=◌, put_bytes, append_string, set_message_header_size, fail_message, fini_message,
}

-- `esp_mqtt_protocol_ver_t`, of which one value is asked for.
pub data ProtocolVersion : Type 0 where
  v_3_1 v_3_1_1 : ProtocolVersion

-- `mqtt_connect_info_t`
pub record ConnectInfo : Type 0 where
  pub client_id : Option (List ℕ)
  pub username : Option (List ℕ)
  pub password : Option (List ℕ)
  pub will_topic : Option (List ℕ)
  pub will_message : List ℕ
  pub keepalive : ℕ
  pub will_length : ℕ
  pub will_qos : ℕ
  pub will_retain : Bool
  pub clean_session : Bool
  pub protocol_ver : ProtocolVersion

abbrev unless_empty : List ℕ → Option (List ℕ)
unless_empty [] = none
unless_empty (c ∷ cs) = some (c ∷ cs)

-- `string != NULL && string[0] != '\0'`, with the characters of the string.
abbrev given : Option (List ℕ) → Option (List ℕ)
given none = none
given (some string) = unless_empty (c_string string)

-- The variable header up to the flags, the flags being 0, and the keep-alive.
abbrev pub protocol_field : ProtocolVersion → List ℕ
protocol_field v_3_1 = 0 ∷ 6 ∷ b'M' ∷ b'Q' ∷ b'I' ∷ b's' ∷ b'd' ∷ b'p' ∷ 3 ∷ []
protocol_field v_3_1_1 = 0 ∷ 4 ∷ b'M' ∷ b'Q' ∷ b'T' ∷ b'T' ∷ 4 ∷ []

abbrev pub flags_offset : ProtocolVersion → ℕ
flags_offset v_3_1 = 9
flags_offset v_3_1_1 = 7

abbrev header_len : ProtocolVersion → ℕ
header_len v_3_1 = 12
header_len v_3_1_1 = 10

abbrev pub variable_header : ConnectInfo → List ℕ
variable_header info =
    protocol_field info.protocol_ver ++ (0 ∷ info.keepalive / 256 % 256 ∷ info.keepalive % 256 ∷ [])

-- `variable_header[flags_offset] |= flag`
abbrev pub or_flags : ConnectInfo → ℕ → Connection → Connection
or_flags info flags c =
    let i = max_fixed_header_size + flags_offset info.protocol_ver in
    record c { buffer = set c.buffer i (bit_or (byte_at c.buffer i) flags) }

abbrev pub or_flag_if : ConnectInfo → Bool → ℕ → Connection → Connection
or_flag_if info test flags c = if test then or_flags info flags c else c

-- One optional string and the flags it sets.
unfoldable pub append_client_id : ConnectInfo → Connection → Option Connection
append_client_id info c = elim (given info.client_id) [
  | none ↦ append_string c [] 0
  | some client_id ↦ append_string c client_id (length client_id)
]

unfoldable pub append_will : ConnectInfo → Connection → Option Connection
append_will info c = elim (given info.will_topic) [
  | none ↦ some c
  | some will_topic ↦ do
    d ← append_string c will_topic (length will_topic)
    e ← append_string d info.will_message info.will_length
    some (
        or_flags info (info.will_qos % 4 * 8)
          (or_flag_if info info.will_retain 32 (or_flags info 4 e)))
]

unfoldable pub append_username : ConnectInfo → Connection → Option Connection
append_username info c = elim (given info.username) [
  | none ↦ some c
  | some username ↦ do d ← append_string c username (length username); some (or_flags info 128 d)
]

-- A password without a username is preceded by an empty username.
unfoldable pub empty_username : ConnectInfo → Connection → Option Connection
empty_username info c = elim (given info.username) [
  | none ↦ do d ← append_string c [] 0; some (or_flags info 128 d)
  | some username ↦ some c
]

unfoldable pub append_password : ConnectInfo → Connection → Option Connection
append_password info c = elim (given info.password) [
  | none ↦ some c
  | some password ↦ do
    d ← empty_username info c
    e ← append_string d password (length password)
    some (or_flags info 64 e)
]

-- What stands behind the keep-alive; the bytes that a failed step leaves behind the packet's end
-- are not modelled.
unfoldable pub append_fields : ConnectInfo → Connection → Option Connection
append_fields info c = do
  d ← append_client_id info c
  e ← append_will info d
  f ← append_username info e
  append_password info f

unfoldable pub mqtt_msg_connect : Connection → ConnectInfo → Option Connection
mqtt_msg_connect c info =
    let d = set_message_header_size c in
    if ltb d.buffer_length (add32 d.len (header_len info.protocol_ver))
    then some (fail_message d)
    else (elim (append_fields info
        (or_flag_if info info.clean_session 2 (put_bytes d (variable_header info)))) [
          | none ↦ some (fail_message d)
          | some e ↦ fini_message e connect 0 0 0
        ])

-- `mqtt_msg_buffer_init`; `allocated` is the answer of `heap_caps_calloc`. The result is ESP_OK or
-- not.
unfoldable pub mqtt_msg_buffer_init : Bool → Connection → ℕ → Connection × Bool
mqtt_msg_buffer_init allocated c buffer_size =
    let cleared : Connection = record c {
      start = 0;
      len = 0;
      fragmented_msg_total_length = 0;
      fragmented_msg_data_offset = 0;
    } in
    if allocated
    then (record cleared { buffer = replicate buffer_size 0; buffer_length = buffer_size }, true)
    else (record cleared { buffer = [] }, false)
