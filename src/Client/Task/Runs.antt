-- ===== src/Client/Task/Runs.antt =====
-- Runs of mqtt_client.c on concrete clients: sending a large payload, and the rounds of the task.
use esp_mqtt.Base.{
  ℕ, ◌+◌, ◌≡◌, ◌↔◌, inl, inr, refl, true, false, Option, none, some, List, [], ◌∷◌, ◌++◌, ◌≤◌,
  length, take, drop, replicate, arith, if◌then◌else◌, ltb,
}
use esp_mqtt.Msg.Types.{incremental, Connection, type_number, publish}
use esp_mqtt.Msg.Connect.{
  mqtt_msg_connect, append_client_id, append_will, append_username, append_password, append_fields,
  empty_username,
}
use esp_mqtt.Msg.Build.{append_string, fini_message, encode_lens}
use esp_mqtt.Msg.Read.{mqtt_has_valid_msg_hdr}
use esp_mqtt.Msg.Layout.{packet}
use esp_mqtt.Msg.Length.{remaining_length}
use esp_mqtt.Msg.Publish.{publish_packet}
use esp_mqtt.Outbox.{Heap, outbox_delete_expired, sweep}
use esp_mqtt.Client.State.{
  Arrival, bytes, timed_out, takes, takes_none, Client, ClientEvent, Config, state_connected,
  state_init, state_wait_reconnect, event_error, error_none, message, nothing,
  mqtt_reset_pending_message,
}
use esp_mqtt.Client.Write.{write_bytes, write_loop}
use esp_mqtt.Base.Bytes.{sub32, sub64}
use esp_mqtt.Client.Keepalive.Silence.{Noticed, quiet, process_keepalive-silence}
use esp_mqtt.Client.Task.{Outside, Task, task_round, round_wait, round_init}
use esp_mqtt.Client.Task.Connecting.{Settled, round_init-Settled}
use esp_mqtt.Base.Int.{pos}
use esp_mqtt.Base.Text.{c_string}
use esp_mqtt.Client.Send.{Reply, message_id, send_loop, esp_mqtt_client_publish}
use esp_mqtt.Client.Send.Whole.{esp_mqtt_client_publish-whole}
use esp_mqtt.Client.Send.Pieces.{Begun, Sent, send_loop-Sent}
use esp_mqtt.Client.Connect.{esp_mqtt_connect}
use esp_mqtt.Client.Task.Machine.{Move, task_round-Move}
use esp_mqtt.Client.Sample.{output, output-Ready, connected}

-- Keep-alive on, half of the time over at the first reading, all of it at the second.
keepalive_silence_example :
    (d : Client) × ((e : Client) × Noticed (quiet (connected [] []) 60000 120001 []) d e)
keepalive_silence_example =
    process_keepalive-silence (connected [] []) 60000 120001 [] (omega arith) output-Ready tt
      (omega arith) (omega arith) (omega arith) (omega arith)

-- The reconnection is due.
abbrev waiting_task : Task
waiting_task = record {
  client = record (connected [] []) {
    state = state_wait_reconnect;
    outbox = record { size = 0; items = [] };
    ticks = 7 ∷ 20000 ∷ 20001 ∷ [];
    wait_timeout_ms = 10000;
  };
  last_retransmit = 5;
}

abbrev retrying_task : Task
retrying_task = record {
  client = record (connected [] []) {
    state = state_init;
    outbox = record { size = 0; items = [] };
    ticks = [];
    wait_timeout_ms = 10000;
    reconnect_tick = 20001;
  };
  last_retransmit = 5;
}

abbrev reachable : Outside
reachable = record { has_transport = true; connects = true; polls = true }

waiting_retries : task_round reachable waiting_task ≡ some retrying_task
unfolding task_round round_wait outbox_delete_expired sweep sub64
waiting_retries = refl

task_round-Move_example : Move state_wait_reconnect state_init
task_round-Move_example = task_round-Move reachable waiting_task retrying_task waiting_retries

-- Six bytes of output buffer: four of a header, and two of the ten bytes of a payload.
abbrev begun : Client
begun = record (connected [] []) {
  connection = record output {
    len = 6;
    fragmented_msg_total_length = 14;
    fragmented_msg_data_offset = 4;
    buffer = 48 ∷ 12 ∷ 0 ∷ 0 ∷ 1 ∷ 2 ∷ [];
    buffer_length = 6;
  };
  writes = replicate 14 (takes 0);
}

abbrev ten_bytes : List ℕ
ten_bytes = 1 ∷ 2 ∷ 3 ∷ 4 ∷ 5 ∷ 6 ∷ 7 ∷ 8 ∷ 9 ∷ 10 ∷ []

begun-Begun : Begun begun ten_bytes 2 8
unfolding packet sub32
begun-Begun = record {
  block = refl;
  room = omega arith;
  size = refl;
  part_bound = omega arith;
  bound = omega arith;
  whole = refl;
  willing = tt;
}

send_loop-Sent_example :
    Sent begun
      (send_loop 9 begun ten_bytes (pos 10))
      (48 ∷ 12 ∷ 0 ∷ 0 ∷ 1 ∷ 2 ∷ 3 ∷ 4 ∷ 5 ∷ 6 ∷ 7 ∷ 8 ∷ 9 ∷ 10 ∷ [])
unfolding packet
send_loop-Sent_example = send_loop-Sent 9 begun ten_bytes 2 8 (omega arith) begun-Begun

-- A PUBLISH of QoS 0 that fits: the packet, and nothing behind it, is on the stream, although the
-- offset of the payload is 2 ^ 32 - 3.
abbrev ready_to_publish : Client
ready_to_publish = record (connected [] []) { writes = replicate 14 (takes 0) }

abbrev no_heap : Heap
no_heap = record { calloc = none; malloc = λ n. none }

abbrev sent_after : Option (Client × Reply) → List ℕ
sent_after none = []
sent_after (some (c, reply)) = c.sent

esp_mqtt_client_publish-whole_example :
    (e : Client) × ((esp_mqtt_client_publish no_heap ready_to_publish
          (some (b'a' ∷ []))
          (some (1 ∷ 2 ∷ 3 ∷ []))
          3
          0
          0
        ≡ some (e, message_id 0))
      × (e.sent ≡ publish_packet (b'a' ∷ []) (1 ∷ 2 ∷ 3 ∷ []) 0 0 0))
unfolding publish_packet remaining_length sub32
esp_mqtt_client_publish-whole_example =
    esp_mqtt_client_publish-whole no_heap ready_to_publish b'a' [] 1 (2 ∷ 3 ∷ []) 0 refl
      output-Ready (omega arith) (omega arith, tt) (omega arith) (omega arith) (omega arith) tt

short_publish_run :
    sent_after (
      esp_mqtt_client_publish no_heap ready_to_publish
        (some (b'a' ∷ []))
        (some (1 ∷ 2 ∷ 3 ∷ []))
        3
        0
        0)
    ≡ 48 ∷ 6 ∷ 0 ∷ 1 ∷ b'a' ∷ 1 ∷ 2 ∷ 3 ∷ []
unfolding esp_mqtt_client_publish esp_mqtt.Client.Send.mqtt_client_enqueue_publish
    esp_mqtt.Client.Send.make_publish esp_mqtt.Msg.Build.mqtt_msg_publish
    esp_mqtt.Msg.Build.publish_to c_string append_string esp_mqtt.Base.Bytes.add32
    esp_mqtt.Msg.Build.publish_body esp_mqtt.Msg.Build.publish_id fini_message
    esp_mqtt.Msg.Build.announced encode_lens esp_mqtt.Msg.Build.put_payload sub32
    esp_mqtt.Msg.Build.put_header send_loop write_bytes write_loop packet
short_publish_run = refl

-- The broker accepts the connection.
abbrev starting : Client
starting = record (connected [] (bytes (32 ∷ 2 ∷ 0 ∷ 0 ∷ []) ∷ [])) {
  state = state_init;
  writes = takes 40 ∷ [];
  ticks = 1 ∷ 2 ∷ 3 ∷ 4 ∷ [];
}

abbrev client_or : Client → Option Client → Client
client_or c none = c
client_or c (some d) = d

abbrev started : Client
started = client_or starting (round_init reachable starting)

starting_connects : round_init reachable starting ≡ some started
unfolding round_init esp_mqtt_connect mqtt_reset_pending_message mqtt_msg_connect append_string
    append_client_id append_will append_username append_password append_fields empty_username
    fini_message encode_lens esp_mqtt.Client.State.esp_mqtt_dispatch_event_with_msgid
    esp_mqtt.Base.Bytes.add32 sub32 c_string esp_mqtt.Msg.Build.announced
    esp_mqtt.Msg.Build.put_header write_bytes write_loop packet esp_mqtt.Client.Connect.connack_loop
    esp_mqtt.Client.Receive.mqtt_message_receive esp_mqtt.Client.Receive.read_first
    esp_mqtt.Client.Receive.read_into esp_mqtt.Client.State.esp_transport_read
    mqtt_has_valid_msg_hdr esp_mqtt.Msg.Types.mqtt_get_type esp_mqtt.Client.Receive.read_length
    esp_mqtt.Client.Receive.length_loop esp_mqtt.Client.Receive.read_body
    esp_mqtt.Client.Receive.read_rest esp_mqtt.Msg.Read.mqtt_get_id
    esp_mqtt.Msg.Read.mqtt_get_total_length esp_mqtt.Msg.Read.total_loop
    esp_mqtt.Msg.Types.mqtt_get_connect_return_code
    esp_mqtt.Msg.Types.mqtt_get_connect_session_present esp_mqtt.Msg.Types.mqtt_get_qos
    esp_mqtt.Msg.Types.mqtt_get_dup
starting_connects = refl

round_init-Settled_example : Settled reachable starting (some started)
round_init-Settled_example = round_init-Settled reachable starting started starting_connects

-- A CONNACK that ends behind its fixed header: the return code is read behind its end,
-- where the buffer holds a 0, and the client counts as connected.
short_connack_run :
    (let short : Client = record starting {
      reads = bytes (32 ∷ 0 ∷ []) ∷ [];
      in_buffer = replicate 20 0;
      in_buffer_length = 20;
    } in
      let d = client_or starting (round_init reachable short) in d.state)
    ≡ state_connected
unfolding round_init esp_mqtt_connect mqtt_reset_pending_message mqtt_msg_connect append_string
    append_client_id append_will append_username append_password append_fields empty_username
    fini_message encode_lens esp_mqtt.Client.State.esp_mqtt_dispatch_event_with_msgid
    esp_mqtt.Base.Bytes.add32 sub32 c_string esp_mqtt.Msg.Build.announced
    esp_mqtt.Msg.Build.put_header write_bytes write_loop packet esp_mqtt.Client.Connect.connack_loop
    esp_mqtt.Client.Receive.mqtt_message_receive esp_mqtt.Client.Receive.read_first
    esp_mqtt.Client.Receive.read_into esp_mqtt.Client.State.esp_transport_read
    mqtt_has_valid_msg_hdr esp_mqtt.Msg.Types.mqtt_get_type esp_mqtt.Client.Receive.read_length
    esp_mqtt.Client.Receive.length_loop esp_mqtt.Client.Receive.read_body
    esp_mqtt.Client.Receive.read_rest esp_mqtt.Msg.Read.mqtt_get_id
    esp_mqtt.Msg.Read.mqtt_get_total_length esp_mqtt.Msg.Read.total_loop
    esp_mqtt.Msg.Types.mqtt_get_connect_return_code
    esp_mqtt.Msg.Types.mqtt_get_connect_session_present esp_mqtt.Msg.Types.mqtt_get_qos
    esp_mqtt.Msg.Types.mqtt_get_dup
short_connack_run = refl
