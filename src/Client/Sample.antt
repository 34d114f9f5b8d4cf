-- ===== src/Client/Sample.antt =====
-- Data for the runs of mqtt_client.c: a connected client.
use esp_mqtt.Base.{
  ℕ, ◌+◌, ◌≡◌, ◌↔◌, inl, inr, refl, true, false, Option, none, some, List, [], ◌∷◌, ◌++◌, ◌≤◌,
  length, take, drop, replicate, arith, if◌then◌else◌, ltb,
}
use esp_mqtt.Msg.Types.{incremental, Connection}
use esp_mqtt.Msg.Connect.{ConnectInfo, v_3_1_1}
use esp_mqtt.Msg.Layout.{Ready}
use esp_mqtt.Outbox.{Item, transmitted}
use esp_mqtt.Client.State.{
  Arrival, takes, Client, ClientEvent, Config, state_connected, event_error, error_none,
}

abbrev pub no_event : ClientEvent
no_event = record {
  event_id = event_error;
  content = none;
  data_len = 0;
  total_data_len = 0;
  current_data_offset = 0;
  topic = none;
  topic_len = 0;
  msg_id = 0;
  qos = 0;
  retain = 0;
  dup = 0;
  session_present = 0;
  error_type = error_none;
  connect_return_code = 0;
}

abbrev pub output : Connection
output = record {
  start = 0;
  len = 0;
  fragmented_msg_total_length = 0;
  fragmented_msg_data_offset = 0;
  ids = incremental 7;
  buffer = replicate 32 0;
  buffer_length = 32;
}

pub output-Ready : Ready output
output-Ready = record { room = omega arith; block = refl; bound = omega arith; whole = refl }

abbrev pub information : ConnectInfo
information = record {
  client_id = some (b'c' ∷ []);
  username = none;
  password = none;
  will_topic = none;
  will_message = [];
  keepalive = 120;
  will_length = 0;
  will_qos = 0;
  will_retain = false;
  clean_session = true;
  protocol_ver = v_3_1_1;
}

abbrev pub config : Config
config = record {
  auto_reconnect = true;
  network_timeout_ms = 10000;
  refresh_connection_after_ms = 0;
  reconnect_timeout_ms = 10000;
  message_retransmit_timeout = 1000;
  outbox_limit = 0;
}

-- A PUBLISH with QoS 2 waits for its acknowledgement.
abbrev pub waiting : Item
waiting = record {
  addr = 64;
  buffer = replicate 12 1;
  len = 12;
  msg_id = 500;
  msg_type = 3;
  msg_qos = 2;
  tick = esp_mqtt.Base.Int.pos 0;
  pending = transmitted;
}

-- A connected client with `n` bytes held in its input buffer of 32 bytes.
abbrev pub connected : List ℕ → List Arrival → Client
connected held reads = record {
  in_buffer = held ++ replicate 20 0;
  in_buffer_length = length held + 20;
  message_length = 0;
  in_buffer_read_len = length held;
  connection = output;
  pending_msg_id = 0;
  pending_msg_type = 0;
  pending_publish_qos = 0;
  information = information;
  config = config;
  outbox = record { size = 12; items = waiting ∷ [] };
  state = state_connected;
  event = no_event;
  events = [];
  wait_for_ping_resp = false;
  keepalive_tick = 0;
  refresh_connection_tick = 0;
  reconnect_tick = 0;
  wait_timeout_ms = 0;
  reconnect_bit = false;
  disconnect_bit = false;
  run = true;
  ticks = [];
  reads = reads;
  writes = takes 0 ∷ takes 9 ∷ takes 0 ∷ takes 0 ∷ [];
  sent = [];
}
