-- ===== src/Client/Runs.antt =====
-- Runs of mqtt_client.c on concrete clients: receiving, writing and answering.
use esp_mqtt.Base.{ℕ, some, replicate, ◌≡◌, ◌↔◌, inr, refl, List, [], ◌∷◌, ◌++◌, ◌≤◌, take, arith}
use esp_mqtt.Msg.Types.{incremental, Connection, type_number, publish}
use esp_mqtt.Msg.Length.{remaining_length}
use esp_mqtt.Outbox.{outbox_delete, outbox_set_pending, acknowledged}
use esp_mqtt.Client.State.{bytes, takes, takes_none, Client, message, nothing}
use esp_mqtt.Client.Receive.Whole.{Answers}
use esp_mqtt.Client.Receive.Resume.{mqtt_message_receive-resumed}
use esp_mqtt.Client.Receive.Overread.{mqtt_message_receive-overread}
use esp_mqtt.Client.Write.{write_bytes, all_written, write_loop}
use esp_mqtt.Client.Write.Stream.{write_bytes-Willing, write_bytes-sent}
use esp_mqtt.Client.Process.Partial.{stalled, AnsweredInPart, process_message-stalled}
use esp_mqtt.Msg.Types.{mqtt_get_type, mqtt_get_qos}
use esp_mqtt.Msg.Read.{
  mqtt_get_id, publish_packet_id, skip_loop, mqtt_get_publish_topic, mqtt_get_publish_data,
  total_loop, payload_offset,
}
use esp_mqtt.Outbox.{esp_ok}
use esp_mqtt.Client.Process.{process_message, is_ok, mqtt_process_receive}
use esp_mqtt.Client.Process.Acks.{ToFinished, ToContinued}
use esp_mqtt.Client.Process.Handshake.{mqtt_process_receive-finished, mqtt_process_receive-pubrec}
use esp_mqtt.Client.Sample.{output-Ready, connected}

-- Six of nine bytes are held, and two arrive.
publish_resumed_example :
    Answers
      (connected (48 ∷ 7 ∷ 0 ∷ 3 ∷ 97 ∷ 47 ∷ []) (bytes (98 ∷ 1 ∷ []) ∷ []))
      nothing
      (48 ∷ 7 ∷ 0 ∷ 3 ∷ 97 ∷ 47 ∷ 98 ∷ 1 ∷ [])
      []
      []
      9
unfolding remaining_length
publish_resumed_example =
    mqtt_message_receive-resumed
      (connected (48 ∷ 7 ∷ 0 ∷ 3 ∷ 97 ∷ 47 ∷ []) (bytes (98 ∷ 1 ∷ []) ∷ [])) 48 7
      (0 ∷ 3 ∷ 97 ∷ 47 ∷ []) 98 (1 ∷ []) [] 3 refl (omega arith) (omega arith) (omega arith)
      (record { count = refl; held = refl; block = refl; arriving = refl })

-- PUBACK with the id 51350, and a further packet behind it.
puback_overread_example :
    Answers
      (connected (64 ∷ 2 ∷ 200 ∷ []) (bytes (150 ∷ 64 ∷ 2 ∷ []) ∷ []))
      message
      (64 ∷ 2 ∷ 200 ∷ 150 ∷ 64 ∷ [])
      (2 ∷ [])
      []
      4
puback_overread_example =
    mqtt_message_receive-overread (connected (64 ∷ 2 ∷ 200 ∷ []) (bytes (150 ∷ 64 ∷ 2 ∷ []) ∷ []))
      64 200 150 64 (2 ∷ []) [] (omega arith) (omega arith) (omega arith) (omega arith)
      (omega arith) (omega arith)
      (record { count = refl; held = refl; block = refl; arriving = refl })

write_willing_example : write_bytes (connected [] []) (1 ∷ 2 ∷ 3 ∷ []) ≡ (
  record (connected [] []) {
    writes = (write_loop (connected [] []).writes (1 ∷ 2 ∷ 3 ∷ [])).writes;
    sent = 1 ∷ 2 ∷ 3 ∷ [];
  },
  all_written,
)
write_willing_example = write_bytes-Willing (connected [] []) (1 ∷ 2 ∷ 3 ∷ []) tt

-- The transport takes two of three bytes, and then nothing.
abbrev halting : Client
halting = record (connected [] []) { writes = takes 1 ∷ takes_none ∷ [] }

write_sent_example :
    (k : ℕ) × ((k ≤ 3)
      × ((write_bytes halting (1 ∷ 2 ∷ 3 ∷ [])).0.sent ≡ [] ++ take k (1 ∷ 2 ∷ 3 ∷ []))
      × (((write_bytes halting (1 ∷ 2 ∷ 3 ∷ [])).1 ≡ all_written) ↔ (k ≡ 3)))
write_sent_example = write_bytes-sent halting (1 ∷ 2 ∷ 3 ∷ [])

abbrev topic : List ℕ
topic = b'a' ∷ []

abbrev content : List ℕ
content = 1 ∷ 2 ∷ []

abbrev publish_bytes : List ℕ
publish_bytes = 50 ∷ 7 ∷ 0 ∷ 1 ∷ b'a' ∷ 0 ∷ 8 ∷ 1 ∷ 2 ∷ []

-- A packet of four bytes for the id 500, which waits in the outbox.
abbrev answered_by : ℕ → Client
answered_by first = connected [] (bytes (first ∷ 2 ∷ 1 ∷ 244 ∷ []) ∷ [])

pubcomp_finished_example :
    ToFinished
      (mqtt_process_receive (answered_by 112))
      (connected [] [])
      (outbox_delete (answered_by 112).outbox 500 (type_number publish)).0
      (is_ok (outbox_delete (answered_by 112).outbox 500 (type_number publish)).1)
      500
pubcomp_finished_example =
    mqtt_process_receive-finished (answered_by 112) 112 500 [] [] (inr refl) (omega arith)
      (omega arith) (record { count = refl; held = refl; block = refl; arriving = refl })

pubrec_continued_example :
    ToContinued
      (mqtt_process_receive (answered_by 80))
      (connected [] [])
      (outbox_set_pending (answered_by 80).outbox 500 acknowledged).0
      98
      500
pubrec_continued_example =
    mqtt_process_receive-pubrec (answered_by 80) 500 [] [] (omega arith) (omega arith) (omega arith)
      (record { count = refl; held = refl; block = refl; arriving = refl }) output-Ready
      (omega arith) tt

-- Twenty of 42 bytes have arrived, thirteen of them payload.
abbrev part_held : Client
part_held = record (connected [] []) {
  in_buffer = 50 ∷ 40 ∷ 0 ∷ 1 ∷ b'a' ∷ 0 ∷ 8 ∷ replicate 13 7;
  in_buffer_read_len = 20;
  message_length = 42;
}

publish_stalled_example :
    (d : Client) × ((process_message (stalled part_held (bytes (7 ∷ []) ∷ [])) ≡ some (d, esp_ok))
      × AnsweredInPart part_held d (bytes (7 ∷ []) ∷ []) 8)
unfolding mqtt_get_type mqtt_get_qos mqtt_get_id publish_packet_id skip_loop mqtt_get_publish_topic
    mqtt_get_publish_data total_loop payload_offset
publish_stalled_example =
    process_message-stalled part_held (bytes (7 ∷ []) ∷ []) 4 1 7 13 8 refl refl refl refl refl
      (omega arith) (omega arith) (omega arith) (omega arith) (omega arith) output-Ready
      (omega arith) tt
