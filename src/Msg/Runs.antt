-- ===== src/Msg/Runs.antt =====
-- Runs of the builders and the readers of lib/mqtt_msg.c on concrete packets.
use esp_mqtt.Base.{
  ℕ, ◌+◌, ◌-◌, ◌^◌, ◌≤◌, ◌<◌, ◌≡◌, ◌↔◌, refl, Option, some, List, [], ◌∷◌, length, replicate, take,
  drop, arith, true,
}
use esp_mqtt.Base.Text.{c_string}
use esp_mqtt.Msg.Types.{
  incremental, Connection, publish, mqtt_get_type, mqtt_get_qos, mqtt_get_dup, mqtt_get_retain,
  type_number,
}
use esp_mqtt.Msg.Build.{
  mqtt_msg_publish, mqtt_msg_puback, mqtt_msg_pubrec, mqtt_msg_pubrel, mqtt_msg_pubcomp, next_id,
  encode_lens, fini_message, announced,
}
use esp_mqtt.Msg.Read.{
  mqtt_get_total_length, mqtt_get_publish_topic, mqtt_get_publish_data, mqtt_get_id,
  mqtt_has_valid_msg_hdr,
}
use esp_mqtt.Msg.Length.{
  remaining_length, with_length, header_size, encode_lens_lem, fini_message-overrun,
  mqtt_get_total_length_lem,
}
use esp_mqtt.Msg.Layout.{Ready, packet}
use esp_mqtt.Msg.Ids.{next_id-incremental}
use esp_mqtt.Msg.Publish.{publish_packet, mqtt_msg_publish-packet}
use esp_mqtt.Msg.RoundTrip.{
  Fits, mqtt_get_publish_topic-publish, mqtt_get_publish_data-publish, mqtt_get_id-publish,
  publish-header,
}
use esp_mqtt.Msg.Acks.{Acknowledges, acknowledgements_read_back}

abbrev fresh : Connection
fresh = record {
  start = 0;
  len = 0;
  fragmented_msg_total_length = 0;
  fragmented_msg_data_offset = 0;
  ids = incremental 7;
  buffer = replicate 32 0;
  buffer_length = 32;
}

fresh-Ready : Ready fresh
fresh-Ready = record { room = omega arith; block = refl; bound = omega arith; whole = refl }

abbrev topic : List ℕ
topic = b'a' ∷ b'/' ∷ b'b' ∷ []

abbrev content : List ℕ
content = 1 ∷ 2 ∷ 3 ∷ []

topic-Fits : Fits topic content 1 8
topic-Fits = record {
  some_topic = omega arith;
  topic_fits = omega arith;
  whole_fits = omega arith;
  qos_valid = omega arith;
  id_fits = omega arith;
}

eight : next_id 0 (incremental 7) ≡ some (8, incremental 8)
unfolding next_id esp_mqtt.Msg.Build.count_up
eight = refl

publish_run :
    publish_packet topic content 1 0 8
    ≡ 50 ∷ 10 ∷ 0 ∷ 3 ∷ b'a' ∷ b'/' ∷ b'b' ∷ 0 ∷ 8 ∷ 1 ∷ 2 ∷ 3 ∷ []
unfolding publish_packet remaining_length
publish_run = refl

mqtt_msg_publish-packet_example :
    (d : Connection) × ((mqtt_msg_publish fresh (some topic) (some content) 3 1 0
        ≡ some (record { connection = d; message_id = some 8 }))
      × (packet d ≡ publish_packet topic content 1 0 8))
mqtt_msg_publish-packet_example =
    mqtt_msg_publish-packet fresh b'a' (b'/' ∷ b'b' ∷ []) content 1 0 8 fresh-Ready
      (omega arith, (omega arith, (omega arith, tt))) (omega arith) (omega arith) (omega arith)
      (incremental 8, eight) (omega arith)

mqtt_get_publish_topic-publish_example :
    (o : ℕ) × ((mqtt_get_publish_topic
          (publish_packet topic content 1 0 8)
          (length (publish_packet topic content 1 0 8))
        ≡ some (o, 3))
      × (take 3 (drop o (publish_packet topic content 1 0 8)) ≡ topic))
mqtt_get_publish_topic-publish_example =
    mqtt_get_publish_topic-publish topic content 1 0 8 topic-Fits

mqtt_get_publish_data-publish_example :
    (j : ℕ) × ((mqtt_get_publish_data
          (publish_packet topic content 1 0 8)
          (length (publish_packet topic content 1 0 8))
        ≡ (some j, 3))
      × (drop j (publish_packet topic content 1 0 8) ≡ content))
mqtt_get_publish_data-publish_example =
    mqtt_get_publish_data-publish topic content 1 0 8 topic-Fits (omega arith)

mqtt_get_id-publish_example :
    mqtt_get_id (publish_packet topic content 1 0 8) (length (publish_packet topic content 1 0 8))
    ≡ 8
mqtt_get_id-publish_example = mqtt_get_id-publish topic content 0 0 8 topic-Fits

publish-header_example :
    let built = publish_packet topic content 1 0 8 in
    (mqtt_has_valid_msg_hdr built (length built) ≡ true)
    × ((mqtt_get_type built ≡ type_number publish)
        × ((mqtt_get_qos built ≡ 1)
            × ((mqtt_get_dup built ≡ 0)
                × ((mqtt_get_retain built ≡ 0)
                    × ((mqtt_get_total_length built (length built)).0 ≡ length built)))))
publish-header_example = publish-header topic content 1 0 8 topic-Fits

encode_lens_lem_example : encode_lens 4 321 ≡ some (remaining_length 321)
encode_lens_lem_example = encode_lens_lem 321 (omega arith)

-- The first fragment of a message of 2 ^ 28 bytes behind its header.
abbrev large : Connection
large = record fresh { len = 32; fragmented_msg_total_length = 268435461 }

fini_message-overrun_example :
    (fini_message large publish 0 1 0 ≡ Option.none)
    ↔ ((2 ^ 28 ≤ announced large) × (announced large < 2 ^ 31))
fini_message-overrun_example = fini_message-overrun large publish 0 1 0

large_run : fini_message large publish 0 1 0 ≡ Option.none
unfolding fini_message announced encode_lens esp_mqtt.Base.Bytes.sub32
large_run = refl

-- A negative length: one byte.
negative_run : encode_lens 4 (2 ^ 32 - 5) ≡ some (251 ∷ [])
unfolding encode_lens
negative_run = refl

-- A topic ends at its first NUL.
cut_topic_run :
    (let p = mqtt_msg_publish fresh (some (b'a' ∷ 0 ∷ b'b' ∷ [])) (some content) 3 0 0 in
      let q = mqtt_msg_publish fresh (some (b'a' ∷ [])) (some content) 3 0 0 in p ≡ q)
unfolding mqtt_msg_publish c_string
cut_topic_run = refl

three_hundred : length (remaining_length 321) ≡ 2
unfolding remaining_length
three_hundred = refl

mqtt_get_total_length_lem_example :
    mqtt_get_total_length (with_length 48 321 []) 3 ≡ (321 + header_size 321, header_size 321)
mqtt_get_total_length_lem_example =
    mqtt_get_total_length_lem 48 321 [] 3 (omega arith) (omega (arith, three_hundred))

acknowledgements_read_back_example :
    Acknowledges (mqtt_msg_puback fresh 513) 64 513
    × (Acknowledges (mqtt_msg_pubrec fresh 513) 80 513
        × (Acknowledges (mqtt_msg_pubrel fresh 513) 98 513
            × Acknowledges (mqtt_msg_pubcomp fresh 513) 112 513))
acknowledgements_read_back_example =
    acknowledgements_read_back fresh 513 fresh-Ready (omega arith) (omega arith) (omega arith)

next_id-incremental_example : next_id 0 (incremental 65535) ≡ some (1, incremental 1)
next_id-incremental_example = next_id-incremental 65535 (omega arith)
