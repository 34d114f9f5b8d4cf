-- ===== src/Client/State.antt =====
-- The state of mqtt_client.c for MQTT 3.1 and 3.1.1, its transport and its events. The transport is
-- not part of the repository: what its calls are going to answer is a script in the state, so a
-- stream of bytes may arrive in pieces of any size with timeouts and errors in between.
use esp_mqtt.Base.{
  ◌||◌, ℕ, ◌^◌, Bool, true, false, not, Option, List, [], ◌∷◌, ◌++◌, ltb, ◌==◌, take, drop,
}
use esp_mqtt.Base.Bytes.{add64, sub64}
use esp_mqtt.Msg.Types.{Connection}
use esp_mqtt.Msg.Connect.{ConnectInfo}
use esp_mqtt.Msg.Read.{mqtt_get_id}
use esp_mqtt.Outbox.{Outbox}

-- What `esp_transport_read` finds: bytes, of which it takes what is asked for, nothing in time
-- (ERR_TCP_TRANSPORT_CONNECTION_TIMEOUT), or a closed or broken connection.
pub data Arrival : Type 0 where
  bytes : List ℕ → Arrival
  timed_out broken : Arrival

-- What `esp_transport_write` answers: `takes n`, at least one byte and `n` more, but at most all;
-- `takes_none`, 0; `refuses`, a negative value.
pub data Writing : Type 0 where
  takes : ℕ → Writing
  takes_none refuses : Writing

-- `mqtt_client_state_t`
pub data ClientState : Type 0 where
  state_init state_disconnected state_connected state_wait_reconnect : ClientState

-- `esp_mqtt_event_id_t`
pub data EventId : Type 0 where
  event_error event_connected event_disconnected event_subscribed event_unsubscribed : EventId
  event_published event_data event_before_connect event_deleted : EventId

-- `esp_mqtt_error_type_t`
pub data ErrorType : Type 0 where
  error_none error_tcp_transport error_connection_refused error_subscribe_failed : ErrorType

-- `esp_mqtt_event_t`, with the two fields of its error handle that the code decides by; the rest of
-- the error handle comes from the TLS library. A pointer is the bytes behind it when it was set.
pub record ClientEvent : Type 0 where
  pub event_id : EventId
  pub content : Option (List ℕ)
  pub data_len : ℕ
  pub total_data_len : ℕ
  pub current_data_offset : ℕ
  pub topic : Option (List ℕ)
  pub topic_len : ℕ
  pub msg_id : ℕ
  pub qos : ℕ
  pub retain : ℕ
  pub dup : ℕ
  pub session_present : ℕ
  pub error_type : ErrorType
  pub connect_return_code : ℕ

-- `mqtt_config_storage_t`, as far as the task reads it.
pub record Config : Type 0 where
  pub auto_reconnect : Bool
  pub network_timeout_ms : ℕ
  pub refresh_connection_after_ms : ℕ
  pub reconnect_timeout_ms : ℕ
  pub message_retransmit_timeout : ℕ
  pub outbox_limit : ℕ

-- `struct esp_mqtt_client` with its `mqtt_state_t`; `events` are those dispatched so far, `sent` the
-- bytes that the transport has taken, and `reads`, `writes` and `ticks` the answers still to come of
-- the transport and of `platform_tick_get_ms`.
pub record Client : Type 0 where
  pub in_buffer : List ℕ
  pub in_buffer_length : ℕ
  pub message_length : ℕ
  pub in_buffer_read_len : ℕ
  pub connection : Connection
  pub pending_msg_id : ℕ
  pub pending_msg_type : ℕ
  pub pending_publish_qos : ℕ
  pub information : ConnectInfo
  pub config : Config
  pub outbox : Outbox
  pub state : ClientState
  pub event : ClientEvent
  pub events : List ClientEvent
  pub wait_for_ping_resp : Bool
  pub keepalive_tick : ℕ
  pub refresh_connection_tick : ℕ
  pub reconnect_tick : ℕ
  pub wait_timeout_ms : ℕ
  pub reconnect_bit : Bool
  pub disconnect_bit : Bool
  pub run : Bool
  pub ticks : List ℕ
  pub reads : List Arrival
  pub writes : List Writing
  pub sent : List ℕ

-- `platform_tick_get_ms`, of the platform: the next reading of the clock, and the client behind it.
abbrev head_or_zero : List ℕ → ℕ
head_or_zero [] = 0
head_or_zero (t ∷ ts) = t

abbrev pub now : Client → ℕ
now c = head_or_zero c.ticks

abbrev pub tick_read : Client → Client
tick_read c = record c { ticks = drop 1 c.ticks }

-- `esp_mqtt_dispatch_event`: the handlers see a copy of the event.
abbrev pub esp_mqtt_dispatch_event : Client → Client
esp_mqtt_dispatch_event c = record c { events = c.events ++ (c.event ∷ []) }

-- `esp_mqtt_dispatch_event_with_msgid`
unfoldable pub esp_mqtt_dispatch_event_with_msgid : Client → Client
esp_mqtt_dispatch_event_with_msgid c =
    let id = mqtt_get_id c.in_buffer c.in_buffer_length in
    let event : ClientEvent = record c.event { msg_id = id } in
    esp_mqtt_dispatch_event (record c { event = event })

abbrev pub set_event_id : Client → EventId → Client
set_event_id c id =
    let event : ClientEvent = record c.event { event_id = id } in record c { event = event }

unfoldable pub esp_mqtt_client_dispatch_transport_error : Client → Client
esp_mqtt_client_dispatch_transport_error c =
    let event : ClientEvent = record c.event {
      event_id = event_error;
      error_type = error_tcp_transport;
      connect_return_code = 0;
    } in
    esp_mqtt_dispatch_event_with_msgid (record c { event = event })

-- The answer of `mqtt_message_receive`: -2, -1, 0 and 1.
pub data Received : Type 0 where
  receive_error mid_message nothing message : Received

-- `esp_mqtt_handle_transport_read_error`, for a timeout and for the negative answers.
unfoldable pub handle_timeout : Client → Bool → Client × Received
handle_timeout c true = (c, mid_message)
handle_timeout c false = (c, nothing)

unfoldable pub handle_broken : Client → Client × Received
handle_broken c = (esp_mqtt_client_dispatch_transport_error c, receive_error)

-- `esp_transport_read`: what is taken, and what is left to arrive.
pub data Taken : Type 0 where
  taken : List ℕ → List Arrival → Taken
  no_time no_connection : List Arrival → Taken

abbrev pub behind : List ℕ → List Arrival → List Arrival
behind [] later = later
behind (b ∷ bs) later = bytes (b ∷ bs) ∷ later

unfoldable pub esp_transport_read : List Arrival → ℕ → Taken
esp_transport_read [] want = no_time []
esp_transport_read (timed_out ∷ later) want = no_time later
esp_transport_read (broken ∷ later) want = no_connection later
esp_transport_read (bytes [] ∷ later) want = no_time later
esp_transport_read (bytes (b ∷ bs) ∷ later) want =
    taken (take want (b ∷ bs)) (behind (drop want (b ∷ bs)) later)

-- `mqtt_reset_pending_message`
unfoldable pub mqtt_reset_pending_message : Client → Client
mqtt_reset_pending_message c =
    let d : Connection = record c.connection {
      fragmented_msg_total_length = 0;
      fragmented_msg_data_offset = 0;
    } in
    record c { pending_msg_id = 0; pending_msg_type = 0; pending_publish_qos = 0; connection = d }

-- `has_timed_out` at the time `now`: the difference is read as a signed 64-bit value.
unfoldable pub has_timed_out : ℕ → ℕ → ℕ → Bool
has_timed_out now last_tick timeout =
    let left = sub64 (add64 last_tick timeout) now in left == 0 || not (ltb left (2 ^ 63))
