-- ===== src/Client/Send/Whole.antt =====
-- `esp_mqtt_client_publish` of mqtt_client.c on a message of QoS 0 that fits in the output buffer.
use mathlib.Core.Path.{subst}
use esp_mqtt.Base.{
  ℕ, suc, ◌+◌, ◌^◌, ◌≤◌, ◌<◌, ◌≡◌, refl, sym, ap, ◌∙◌, ◌&&◌, Bool, true, false, Option, some, none,
  List, [], ◌∷◌, ◌++◌, ltb, ◌==◌, if◌then◌else◌, length, All, arith, if_cases, length-overwrite,
  drop_all,
}
use mathlib.Core.List.{append-nil}
use esp_mqtt.Base.Bytes.{add32, sub32}
use esp_mqtt.Base.Int.{pos, pos_part}
use esp_mqtt.Base.Text.{IsChar}
use esp_mqtt.Msg.Types.{Connection, publish}
use esp_mqtt.Msg.Build.{
  put_bytes, append_string, publish_id, publish_body, fini_message, put_header, first_byte,
  encode_lens, mqtt_msg_publish,
}
use esp_mqtt.Msg.Length.{remaining_length, length-remaining_length, encode_lens_lem}
use esp_mqtt.Msg.Layout.{
  Ready, Writing, packet, set_message_header_size-Writing, append_string-Writing, announced-body,
  finished, put_header-packet, text_field,
}
use esp_mqtt.Msg.Publish.{publish_packet, stored, put_payload-Writing, put_together, with_topic}
use esp_mqtt.Outbox.{Heap}
use esp_mqtt.Client.State.{Client, state_connected}
use esp_mqtt.Client.Write.Stream.{Willing}
use esp_mqtt.Client.Send.{
  refused, is_connected, whole_sent, left_behind, message_id, send_made, after_send, make_publish,
  mqtt_client_enqueue_publish, send_loop, esp_mqtt_client_publish,
}
use esp_mqtt.Client.Send.Pieces.{Begun, Sent, send_loop-Sent}

abbrev offset_or : Connection → Option Connection → ℕ
offset_or c none = c.fragmented_msg_data_offset
offset_or c (some d) = d.fragmented_msg_data_offset

-- Appending a string leaves the offset of the payload.
append_string-offset :
    (c d : Connection) (string : List ℕ) (len : ℕ)
    → append_string c string len ≡ some d
    → d.fragmented_msg_data_offset ≡ c.fragmented_msg_data_offset
unfolding append_string
append_string-offset c d string len =
    if_cases (λ r. r ≡ some d → d.fragmented_msg_data_offset ≡ c.fragmented_msg_data_offset)
      (ltb c.buffer_length (add32 (add32 c.len len) 2)) _ _ (λ _ e. absurd cc)
      (λ _ e. sym (ap (offset_or c) e))

-- The connection behind `mqtt_msg_publish`, from the one behind the topic.
abbrev holding : Connection → List ℕ → Connection
holding d content = record (put_bytes d content) { fragmented_msg_total_length = 0 }

abbrev closed : Connection → List ℕ → ℕ → ℕ → Connection
closed d content n retain =
    put_header (holding d content) (first_byte publish 0 0 retain) (remaining_length n)

holding-Writing :
    (d : Connection) (body content : List ℕ)
    → Writing d body
    → d.len + length content ≤ d.buffer_length
    → Writing (holding d content) (body ++ content)
holding-Writing d body content w h =
    subst (λ e. Writing e (body ++ content)) (stored d content w.bound h)
      (put_payload-Writing d body content w h)

unnumbered : (c : Connection) → publish_id c 0 ≡ some (c, 0)
unfolding publish_id
unnumbered c = refl

publish_body-closed :
    (d : Connection) (body content : List ℕ) (retain : ℕ)
    → Writing d body
    → d.len + length content ≤ d.buffer_length
    → publish_body d (some content) (length content) 0 retain
      ≡ some (record {
        connection = closed d content (length (body ++ content)) retain;
        message_id = some 0;
      })
publish_body-closed d body content retain w h =
    let v = holding-Writing d body content w h in
    let n = length (body ++ content) in
    let e =
      ap (encode_lens 4) (announced-body (holding d content) (body ++ content) v)
      ∙ encode_lens_lem n (omega (arith, v.size, v.room, v.bound)) in
    put_together d d _ content 0 retain 0 (unnumbered d) refl (
      ap (λ x. fini_message x publish 0 0 retain) (stored d content w.bound h)
      ∙ finished (holding d content) publish 0 0 retain (remaining_length n) e
          (length-remaining_length n))

-- What the loop of `esp_mqtt_client_publish` takes for sent.
closed-part :
    (d : Connection) (body content : List ℕ) (retain : ℕ)
    → Writing d body
    → d.len + length content ≤ d.buffer_length
    → sub32 0 d.fragmented_msg_data_offset < 2 ^ 30
    → (let e = closed d content (length (body ++ content)) retain in
        let part = sub32 e.len e.fragmented_msg_data_offset in
        (length content ≤ part) × (part < 2 ^ 31))
unfolding put_header sub32
closed-part d body content retain w h k =
    let small = length-remaining_length (length (body ++ content)) in
    (omega (arith, w.size, h, w.bound, small, k), omega (arith, w.size, h, w.bound, small, k))

closed-Begun :
    (c : Client) (d : Connection) (body content : List ℕ) (retain : ℕ)
    → Writing d body
    → d.len + length content ≤ d.buffer_length
    → sub32 0 d.fragmented_msg_data_offset < 2 ^ 30
    → (let e = closed d content (length (body ++ content)) retain in
        Willing c.writes (length (packet e))
        → Begun (record c { connection = e }) content (sub32 e.len e.fragmented_msg_data_offset) 0)
unfolding put_header
closed-Begun c d body content retain w h k willing =
    let v = holding-Writing d body content w h in
    let p = closed-part d body content retain w h k in
    let n = length (body ++ content) in
    let e = closed d content n retain in
    record {
      block = length-overwrite _ _ _ ∙ v.block;
      room = omega (arith, w.size, h);
      size = refl;
      part_bound = p.1;
      bound = omega (arith, p.0, p.1);
      whole = omega (arith, p.0);
      willing = subst (Willing c.writes) (omega arith) willing;
    }

never : (a b : Bool) → (a && false && b) ≡ false
never true b = refl
never false b = refl

-- A message of QoS 0 is not stored, and no limit of the outbox holds for it.
published :
    (h : Heap) (c : Client) (topic : Option (List ℕ)) (b : ℕ) (bs : List ℕ) (retain : ℕ)
    (e : Connection)
    → mqtt_msg_publish c.connection topic (some (b ∷ bs)) (length (b ∷ bs)) 0 retain
      ≡ some (record { connection = e; message_id = some 0 })
    → (e.len == 0) ≡ false
    → esp_mqtt_client_publish h c topic (some (b ∷ bs)) (length (b ∷ bs)) 0 retain
      ≡ some (send_made (some (b ∷ bs)) (length (b ∷ bs)) 0 (record c { connection = e }, some 0))
unfolding esp_mqtt_client_publish mqtt_client_enqueue_publish make_publish
published h c topic b bs retain e made size = rw (never, made, size) refl

closed-size :
    (d : Connection) (content : List ℕ) (n retain : ℕ)
    → (let e = closed d content n retain in e.len == 0) ≡ false
unfolding put_header
closed-size d content n retain = ground arith

abbrev rounds_for : Connection → ℕ → ℕ
rounds_for d len = suc (pos_part (left_behind d (pos len)))

-- A connected client goes into the loop.
looped :
    (c : Client) (content : List ℕ) (len : ℕ)
    → c.state ≡ state_connected
    → send_made (some content) len 0 (c, some 0)
      ≡ after_send 0 0 (send_loop (rounds_for c.connection len) c content (pos len))
looped c content len up =
    ap
      (λ s.
        if is_connected s
        then after_send 0 0 (send_loop (rounds_for c.connection len) c content (pos len))
        else (whole_sent c, refused))
      up

-- What the answer is when the loop has ended with success.
replied :
    (c : Client) (bytes : List ℕ) (r : Client × Bool)
    → Sent c r bytes
    → (e : Client) × ((after_send 0 0 r ≡ (e, message_id 0)) × (e.sent ≡ c.sent ++ bytes))
replied c bytes r s = (s.0, (ap (after_send 0 0) s.1.0, s.1.1))

-- The loop on the connection that holds the message.
whole_loop :
    (c : Client) (d : Connection) (body content : List ℕ) (retain rounds : ℕ)
    → 0 < rounds
    → Writing d body
    → d.len + length content ≤ d.buffer_length
    → sub32 0 d.fragmented_msg_data_offset < 2 ^ 30
    → Willing c.writes (length (packet (closed d content (length (body ++ content)) retain)))
    → (let e = closed d content (length (body ++ content)) retain in
        let f : Client = record c { connection = e } in
        Sent f (send_loop rounds f content (pos (length content))) (packet e))
whole_loop c d body content retain rounds some_round w h k willing =
    let e = closed d content (length (body ++ content)) retain in
    let f : Client = record c { connection = e } in
    let part = sub32 e.len e.fragmented_msg_data_offset in
    let p = closed-part d body content retain w h k in
    subst (λ l. Sent f (send_loop rounds f content (pos (length content))) l)
      (ap (λ l. packet e ++ l) (drop_all part content p.0) ∙ append-nil (packet e))
      (send_loop-Sent rounds f content part 0 some_round
        (closed-Begun c d body content retain w h k willing))

-- `esp_mqtt_client_publish` with QoS 0, end to end: the client is connected, its output buffer has a
-- known length below 2 ^ 28 and no fragmented message under way, the offset of the payload that the
-- messages before have left is 0 or less than 2 ^ 30 below 0, as a wrapping size; the topic is not
-- empty, has no NUL in it and is shorter than 65536 bytes, the retain flag is 0 or 1, the payload is
-- not empty, and topic and payload fit in the buffer with seven bytes more; and the transport takes something at each
-- write, for as many writes as the packet has bytes. Then the call answers with the id 0, and what it
-- has put on the stream is exactly the PUBLISH packet of the standard, once and with nothing behind
-- it, whatever the heap answers and whatever the limit of the outbox is.
pub esp_mqtt_client_publish-whole :
    (h : Heap) (c : Client) (t : ℕ) (ts : List ℕ) (b : ℕ) (bs : List ℕ) (retain : ℕ)
    → c.state ≡ state_connected
    → Ready c.connection
    → (let d = c.connection in sub32 0 d.fragmented_msg_data_offset < 2 ^ 30)
    → All IsChar (t ∷ ts)
    → length (t ∷ ts) < 65536
    → retain < 2
    → (let d = c.connection in 7 + length (t ∷ ts) + length (b ∷ bs) ≤ d.buffer_length)
    → Willing c.writes (length (publish_packet (t ∷ ts) (b ∷ bs) 0 retain 0))
    → (e : Client) × ((esp_mqtt_client_publish h c
            (some (t ∷ ts))
            (some (b ∷ bs))
            (length (b ∷ bs))
            0
            retain
          ≡ some (e, message_id 0))
        × (e.sent ≡ c.sent ++ publish_packet (t ∷ ts) (b ∷ bs) 0 retain 0))
unfolding publish_packet
esp_mqtt_client_publish-whole h c t ts b bs retain up r k text _ _ room willing =
    let topic = t ∷ ts in
    let content = b ∷ bs in
    let d0 = c.connection in
    let w = set_message_header_size-Writing d0 r in
    let a = append_string-Writing _ [] topic w (omega arith) in
    let d = a.0 in
    let body = text_field topic in
    let held : Writing d body = a.1.1.0 in
    let fits : d.len + length content ≤ d.buffer_length =
      omega (arith, a.1.1.1.1.0, a.1.1.1.1.1, room) in
    let same = append_string-offset _ d topic (length topic) a.1.0 in
    let low : sub32 0 d.fragmented_msg_data_offset < 2 ^ 30 =
      subst (λ n. sub32 0 n < 2 ^ 30) (sym same) k in
    let n = length (body ++ content) in
    let e = closed d content n retain in
    let bytes =
      put_header-packet (holding d content) (body ++ content) _ (remaining_length n)
        (holding-Writing d body content held fits) (length-remaining_length n) in
    let f : Client = record c { connection = e } in
    let made =
      with_topic d0 d t ts _ _ 0 retain text a.1.0
      ∙ publish_body-closed d body content retain held fits in
    let s = replied f _ _ (
      whole_loop c d body content retain (rounds_for e (length content)) (omega arith) held fits low
        (subst (λ l. Willing c.writes (length l)) (sym bytes) willing)) in
    (
      s.0,
      (
        published h c (some topic) b bs retain e made (closed-size d content n retain)
            ∙ ap some (looped f content (length content) up ∙ s.1.0),
        s.1.1 ∙ ap (λ l. c.sent ++ l) bytes,
      ),
    )
