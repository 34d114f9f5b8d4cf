-- ===== src/Client/Receive/Resume.antt =====
-- `mqtt_message_receive` of mqtt_client.c called again for a packet of which it holds a part.
use mathlib.Core.Path.{subst}
use esp_mqtt.Base.{
  ℕ, ◌+◌, ◌≤◌, ◌<◌, ◌^◌, ◌≡◌, refl, sym, ap, ◌∙◌, false, ◌||◌, List, ◌∷◌, ◌++◌, ltb, ltb→lt, ◌==◌,
  if◌then◌else◌, length, take, drop, arith, length-take, length-append, Bool-cases, inl, inr,
  take_all, drop_all, take-append-drop,
}
use esp_mqtt.Msg.Length.{remaining_length, with_length, header_size}
use esp_mqtt.Client.State.{Arrival, Client, Received, nothing, message}
use esp_mqtt.Client.Receive.{
  goes_on, ◌>>=◌, read_first, more_length, length_loop, read_length, read_rest, read_body, result,
  mqtt_message_receive,
}
use esp_mqtt.Client.Receive.Holding.{Holding}
use esp_mqtt.Client.Receive.Whole.{
  Ends, Answers, answers-Ends, read_rest-Ends, read_rest_waits, read_body-rest, counted,
  counted-Holding,
}

pub read_first_later : (c : Client) → 0 < c.in_buffer_read_len → read_first c ≡ goes_on c
unfolding read_first
read_first_later c h = let e : (c.in_buffer_read_len == 0) ≡ false = ground arith in rw e refl

read_length_later : (c : Client) → 6 ≤ c.in_buffer_read_len → read_length c ≡ goes_on c
unfolding read_length
read_length_later c h =
    let e : (c.in_buffer_read_len == 1 || more_length c) ≡ false = ground arith in
    ap (λ b. if b then length_loop 5 c else goes_on c) e

abbrev answer : ℕ → List ℕ → Received
answer want chunk = if ltb (length chunk) want then nothing else message

rest-Ends :
    (c : Client) (got : List ℕ) (b : ℕ) (bs : List ℕ) (later : List Arrival) (want total : ℕ)
    → Holding c got (b ∷ bs) later
    → c.message_length ≡ total
    → total ≡ length got + want
    → total ≤ c.in_buffer_length
    → Ends c
        (read_rest c total)
        (answer want (b ∷ bs))
        (got ++ take want (b ∷ bs))
        (drop want (b ∷ bs))
        later
        total
rest-Ends c got b bs later want total h m size fits =
    let chunk = b ∷ bs in
    elim (Bool-cases (ltb (length chunk) want)) [
      | inl short ↦
          let less = ltb→lt (length chunk) want short in
          rw
            (
              short,
              take_all want chunk (omega (arith, less)),
              drop_all want chunk (omega (arith, less)),
            )
            (read_rest_waits c got b bs later total h m (omega (arith, less)) fits)
      | inr long ↦
          let enough : want ≤ length chunk = ground arith in
          rw long (
            read_rest-Ends c got (take want chunk) (drop want chunk) later total
              (subst (λ l. Holding c got l later) (sym (take-append-drop want chunk)) h) m
              (omega (arith, length-take want chunk)) fits)
    ]

-- A packet with a body of `n` bytes, below 2 ^ 28, that fits the input buffer; its fixed header and
-- `part` of its body are held, six bytes or more. When a chunk of any size arrives, a call takes
-- what is wanted of it, at most the rest of the packet, and appends it to the bytes held. The
-- answer is `nothing` while the packet is incomplete and `message` once it is complete; what stands
-- behind the packet is left to arrive, and nothing else of the client changes but the message's
-- length.
pub mqtt_message_receive-resumed :
    (c : Client) (first n : ℕ) (part : List ℕ) (b : ℕ) (bs : List ℕ) (later : List Arrival)
    (want : ℕ)
    → n ≡ length part + want
    → n < 2 ^ 28
    → n + header_size n ≤ c.in_buffer_length
    → 6 ≤ header_size n + length part
    → Holding c (with_length first n part) (b ∷ bs) later
    → Answers c
        (if ltb (length (b ∷ bs)) want then nothing else message)
        (with_length first n part ++ take want (b ∷ bs))
        (drop want (b ∷ bs))
        later
        (n + header_size n)
unfolding mqtt_message_receive
mqtt_message_receive-resumed c first n part b bs later want split small fits six h =
    let got = with_length first n part in
    let total = n + header_size n in
    let size = length-append (remaining_length n) part in
    let c0 = counted c 0 in
    let d = counted c total in
    let e =
      rest-Ends d got b bs later want total (counted-Holding c total got _ later h) refl
        (omega (arith, size, split)) fits in
    let goes : mqtt_message_receive c ≡ result (read_rest d total) =
      ap (λ p. result (p >>= (λ (d : Client). read_length d >>= read_body)))
        (read_first_later c0 (omega (arith, h.count, size)))
      ∙ ap (λ p. result (p >>= read_body))
          (read_length_later c0 (omega (arith, h.count, size, six)))
      ∙ ap result (
          read_body-rest c0 first n part (b ∷ bs) later small fits
            (counted-Holding c 0 got _ later h)) in
    answers-Ends c d (read_rest d total) (answer want (b ∷ bs)) _ _ later total goes refl e
