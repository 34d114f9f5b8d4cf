-- ===== src/Client/Receive/Overread.antt =====
-- `mqtt_message_receive` of mqtt_client.c called again for a packet of which fewer than six bytes
-- have arrived: what decides whether the remaining length is complete is the last byte held.
use esp_mqtt.Base.{
  ℕ, ◌-◌, ◌≤◌, ◌<◌, ◌≡◌, refl, ap, ◌∙◌, true, ◌||◌, List, [], ◌∷◌, ◌==◌, if◌then◌else◌, length,
  arith, not-lt→ltb,
}
use esp_mqtt.Msg.Length.{remaining_length}
use esp_mqtt.Client.State.{Arrival, Client, message}
use esp_mqtt.Client.Receive.{
  goes_on, returns, ◌>>=◌, read_into, more_length, length_loop, read_length, read_rest, read_body,
  result, mqtt_message_receive,
}
use esp_mqtt.Client.Receive.Holding.{Holding}
use esp_mqtt.Client.Receive.Pieces.{Reached, length_loop-Reached, more_length_high}
use esp_mqtt.Client.Receive.Whole.{
  Ends, Answers, answers-Ends, read_body-rest, counted, counted-Holding, last, buffer_same,
}
use esp_mqtt.Client.Receive.Resume.{read_first_later}

read_rest_held :
    (c : Client) (got coming : List ℕ) (later : List Arrival) (total : ℕ)
    → Holding c got coming later
    → c.message_length ≡ total
    → total ≤ length got
    → Ends c (read_rest c total) message got coming later total
unfolding read_rest
read_rest_held c got coming later total h m enough = record {
  client = c;
  ends =
      ap
        (λ b.
          if b
          then read_into c (total - c.in_buffer_read_len) true >>= last total
          else returns c message)
        (not-lt→ltb c.in_buffer_read_len total (omega (arith, h.count)));
  holding = h;
  untouched = ap (λ t. record c { message_length = t }) m;
}

read_length_again :
    (c : Client) (first len hi lo next : ℕ) (more : List ℕ) (later : List Arrival)
    → 128 ≤ hi
    → hi < 256
    → 128 ≤ lo
    → lo < 256
    → next < 128
    → 6 ≤ c.in_buffer_length
    → Holding c (first ∷ len ∷ hi ∷ []) (lo ∷ next ∷ more) later
    → Reached c (read_length c) (first ∷ len ∷ hi ∷ lo ∷ next ∷ []) more later
unfolding read_length
read_length_again c first len hi lo next more later a b d e low room h =
    let r =
      length_loop-Reached 5 (lo ∷ next ∷ []) c (first ∷ len ∷ hi ∷ []) more later (d, e, low)
        (omega arith) (omega arith) (omega arith) h in
    let high =
      more_length_high c (first ∷ len ∷ []) hi (lo ∷ next ∷ more) later h a b (omega arith) in
    let test : (c.in_buffer_read_len == 1 || more_length c) ≡ true = ground (arith, high) in
    record {
      client = r.client;
      goes = ap (λ t. if t then length_loop 5 c else goes_on c) test ∙ r.goes;
      holding = r.holding;
      untouched = r.untouched;
    }

-- Three bytes of a packet of four are held, with the remaining length 2, and the third is 128 or
-- more; its fourth byte `lo`, which also is 128 or more, arrives with the packet behind it, whose
-- first byte `next` is below 128. Then the call takes both bytes for bytes of the remaining length:
-- it answers `message` with the right size 4, but five bytes are held, and `next` is not left to
-- arrive.
pub mqtt_message_receive-overread :
    (c : Client) (first hi lo next : ℕ) (more : List ℕ) (later : List Arrival)
    → 128 ≤ hi
    → hi < 256
    → 128 ≤ lo
    → lo < 256
    → next < 128
    → 6 ≤ c.in_buffer_length
    → Holding c (first ∷ 2 ∷ hi ∷ []) (lo ∷ next ∷ more) later
    → Answers c message (first ∷ 2 ∷ hi ∷ lo ∷ next ∷ []) more later 4
unfolding mqtt_message_receive remaining_length
mqtt_message_receive-overread c first hi lo next more later a b d e low room h =
    let got = first ∷ 2 ∷ hi ∷ lo ∷ next ∷ [] in
    let c0 = counted c 0 in
    let h0 = counted-Holding c 0 _ _ later h in
    let r = read_length_again c0 first 2 hi lo next more later a b d e low room h0 in
    let room_r = buffer_same c0 r.client r.untouched in
    let f = counted r.client 4 in
    let ends =
      read_rest_held f got more later 4 (counted-Holding r.client 4 _ _ later r.holding) refl
        (omega arith) in
    let goes : mqtt_message_receive c ≡ result (read_rest f 4) =
      ap (λ p. result (p >>= (λ (d : Client). read_length d >>= read_body)))
        (read_first_later c0 (omega (arith, h.count)))
      ∙ ap (λ p. result (p >>= read_body)) r.goes
      ∙ ap result (
          read_body-rest r.client first 2 (hi ∷ lo ∷ next ∷ []) more later (omega arith)
            (omega (arith, room_r)) r.holding) in
    answers-Ends c f (read_rest f 4) message _ _ later 4 goes
      (ap (λ (x : Client). counted x 4) r.untouched) ends
