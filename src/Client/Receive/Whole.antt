-- ===== src/Client/Receive/Whole.antt =====
-- A packet that `mqtt_message_receive` of mqtt_client.c finds complete, and one whose end has still
-- to arrive.
use mathlib.Core.Path.{subst}
use mathlib.Core.List.{append_assoc, append-nil}
use esp_mqtt.Base.{
  ℕ, ◌+◌, ◌-◌, ◌≤◌, ◌<◌, ◌^◌, ◌≡◌, refl, sym, ap, ◌∙◌, true, false, ◌||◌, List, [], ◌∷◌, ◌++◌, ltb,
  ◌==◌, if◌then◌else◌, length, take, drop, arith, length-append, lt→ltb, not-lt→ltb,
  take-length_append, drop-length_append, take_all, drop_all,
}
use esp_mqtt.Msg.Types.{mqtt_get_type, mqtt_get_qos, mqtt_get_dup}
use esp_mqtt.Msg.Read.{mqtt_has_valid_msg_hdr, mqtt_get_total_length}
use esp_mqtt.Msg.Length.{
  remaining_length, remaining_length-IsLength, IsLength, length-remaining_length, with_length,
  header_size, mqtt_get_total_length_lem,
}
use esp_mqtt.Client.State.{Arrival, Client, Received, nothing, message, behind}
use esp_mqtt.Client.Receive.{
  Phase, goes_on, returns, ◌>>=◌, read_into, read_first, check_first, more_length, length_loop,
  read_length, read_large, read_rest, read_body, result, mqtt_message_receive,
}
use esp_mqtt.Client.Receive.Holding.{
  Holding, stored, read_into-stored, stored-Holding, held-in_buffer,
}
use esp_mqtt.Client.Receive.Pieces.{Untouched, Untouched-trans, Reached, length_loop-Reached}

valid_first :
    (first : ℕ) (rest : List ℕ)
    → mqtt_has_valid_msg_hdr (first ∷ rest) 1 ≡ mqtt_has_valid_msg_hdr (first ∷ []) 1
unfolding mqtt_has_valid_msg_hdr mqtt_get_type mqtt_get_qos mqtt_get_dup
valid_first first rest = refl

read_first-Reached :
    (c : Client) (first : ℕ) (rest : List ℕ) (later : List Arrival)
    → mqtt_has_valid_msg_hdr (first ∷ []) 1 ≡ true
    → 1 ≤ c.in_buffer_length
    → Holding c [] (first ∷ rest) later
    → Reached c (read_first c) (first ∷ []) rest later
unfolding read_first
read_first-Reached c first rest later valid fits h =
    let d = stored c 1 (first ∷ rest) later in
    let k = stored-Holding c [] (first ∷ rest) later 1 h fits in
    let checked : check_first d ≡ goes_on d =
      rw
        (ap (λ b. mqtt_has_valid_msg_hdr b 1) (held-in_buffer d _ rest later k)
          ∙ valid_first first _
          ∙ valid)
        refl in
    record {
      client = d;
      goes =
          ap (λ n. if n == 0 then read_into c 1 false >>= check_first else goes_on c) h.count
          ∙ ap (λ p. p >>= check_first) (read_into-stored c [] first rest later 1 false h)
          ∙ checked;
      holding = k;
      untouched = refl;
    }

read_length-Reached :
    (c : Client) (first : ℕ) (ls rest : List ℕ) (later : List Arrival)
    → length ls ≤ 4
    → 1 + length ls ≤ c.in_buffer_length
    → Holding c (first ∷ []) (ls ++ rest) later
    → IsLength ls
    → Reached c (read_length c) (first ∷ ls) rest later
unfolding read_length
read_length-Reached c first ls rest later few fits h v =
    let r =
      length_loop-Reached 5 ls c (first ∷ []) rest later v (omega arith) (omega arith) (omega arith)
        h in
    record {
      client = r.client;
      goes =
          ap (λ n. if n == 1 || more_length c then length_loop 5 c else goes_on c) h.count ∙ r.goes;
      holding = r.holding;
      untouched = r.untouched;
    }

-- How the function ends: with the message counted, of which `got` is held.
pub record Ends (c : Client) (p : Phase) (r : Received) (got coming : List ℕ) (later : List Arrival)
    (total : ℕ) : Type 0 where
  pub client : Client
  pub ends : p ≡ returns client r
  pub holding : Holding client got coming later
  pub untouched : client ≡ record c {
    in_buffer = client.in_buffer;
    in_buffer_read_len = client.in_buffer_read_len;
    message_length = total;
    reads = client.reads;
  }

abbrev pub last : ℕ → Client → Phase
last total d = if ltb d.in_buffer_read_len total then returns d nothing else returns d message

-- The function goes on reading once the fixed header is held.
pub read_rest-Ends :
    (c : Client) (got rest more : List ℕ) (later : List Arrival) (total : ℕ)
    → Holding c got (rest ++ more) later
    → c.message_length ≡ total
    → total ≡ length got + length rest
    → total ≤ c.in_buffer_length
    → Ends c (read_rest c total) message (got ++ rest) more later total
unfolding read_rest
read_rest-Ends c got [] more later total h m size fits = record {
  client = c;
  ends =
      ap
        (λ b.
          if b
          then read_into c (total - c.in_buffer_read_len) true >>= last total
          else returns c message)
        (not-lt→ltb c.in_buffer_read_len total (omega (arith, h.count, size)));
  holding = subst (λ g. Holding c g more later) (sym (append-nil got)) h;
  untouched = ap (λ t. record c { message_length = t }) m;
}
read_rest-Ends c got (b ∷ bs) more later total h m size fits =
    let coming = b ∷ (bs ++ more) in
    let want = total - c.in_buffer_read_len in
    let exact : want ≡ length (b ∷ bs) = omega (arith, h.count, size) in
    let d = stored c want coming later in
    let k = stored-Holding c got coming later want h (omega (arith, h.count, size, fits)) in
    let front = ap (λ w. take w coming) exact ∙ take-length_append (b ∷ bs) more in
    let back = ap (λ w. drop w coming) exact ∙ drop-length_append (b ∷ bs) more in
    let holding =
      subst (λ l. Holding d (got ++ (b ∷ bs)) l later) back
        (subst (λ g. Holding d (got ++ g) (drop want coming) later) front k) in
    record {
      client = d;
      ends =
          ap (λ t. if t then read_into c want true >>= last total else returns c message)
            (lt→ltb c.in_buffer_read_len total (omega (arith, h.count, size)))
          ∙ ap (λ p. p >>= last total) (read_into-stored c got b (bs ++ more) later want true h)
          ∙ ap (λ t. if t then returns d nothing else returns d message)
              (not-lt→ltb d.in_buffer_read_len total
                (omega (arith, holding.count, size, length-append got (b ∷ bs))));
      holding = holding;
      untouched = ap (λ t. record d { message_length = t }) m;
    }

pub read_rest_waits :
    (c : Client) (got : List ℕ) (b : ℕ) (bs : List ℕ) (later : List Arrival) (total : ℕ)
    → Holding c got (b ∷ bs) later
    → c.message_length ≡ total
    → length got + length (b ∷ bs) < total
    → total ≤ c.in_buffer_length
    → Ends c (read_rest c total) nothing (got ++ (b ∷ bs)) [] later total
unfolding read_rest
read_rest_waits c got b bs later total h m size fits =
    let want = total - c.in_buffer_read_len in
    let short : length (b ∷ bs) ≤ want = omega (arith, h.count, size) in
    let d = stored c want (b ∷ bs) later in
    let k = stored-Holding c got (b ∷ bs) later want h (omega (arith, h.count, size, fits)) in
    let holding =
      subst (λ l. Holding d (got ++ (b ∷ bs)) l later) (drop_all want (b ∷ bs) short)
        (subst (λ g. Holding d (got ++ g) (drop want (b ∷ bs)) later) (take_all want (b ∷ bs) short)
          k) in
    record {
      client = d;
      ends =
          ap (λ t. if t then read_into c want true >>= last total else returns c message)
            (lt→ltb c.in_buffer_read_len total (omega (arith, h.count, size)))
          ∙ ap (λ p. p >>= last total) (read_into-stored c got b bs later want true h)
          ∙ ap (λ t. if t then returns d nothing else returns d message)
              (lt→ltb d.in_buffer_read_len total
                (omega (arith, holding.count, size, length-append got (b ∷ bs))));
      holding = holding;
      untouched = ap (λ t. record d { message_length = t }) m;
    }

abbrev from_total : Client → ℕ × ℕ → Phase
from_total c total =
    let d : Client = record c { message_length = total.0 } in
    if ltb d.in_buffer_length total.0 then read_large d total.1 else read_rest d total.0

-- With the fixed header held, the body is read up to the length that the header tells.
pub read_body-rest :
    (c : Client) (first n : ℕ) (part coming : List ℕ) (later : List Arrival)
    → n < 2 ^ 28
    → n + header_size n ≤ c.in_buffer_length
    → Holding c (with_length first n part) coming later
    → read_body c ≡ read_rest (record c { message_length = n + header_size n }) (n + header_size n)
unfolding read_body
read_body-rest c first n part coming later small fits h =
    let header = with_length first n part in
    let behind_it = drop (length header) c.in_buffer in
    let d : Client = record c { message_length = n + header_size n } in
    let size : length (remaining_length n) < c.in_buffer_read_len =
      omega (arith, h.count, length-append (remaining_length n) part) in
    let total : mqtt_get_total_length c.in_buffer c.in_buffer_read_len
        ≡ (n + header_size n, header_size n) =
      ap (λ l. mqtt_get_total_length l c.in_buffer_read_len)
        (held-in_buffer c header coming later h
          ∙ ap (◌∷◌ first) (append_assoc (remaining_length n) part behind_it))
      ∙ mqtt_get_total_length_lem first n (part ++ behind_it) c.in_buffer_read_len small size in
    ap (from_total c) total
    ∙ ap (λ b. if b then read_large d (header_size n) else read_rest d (n + header_size n))
        (not-lt→ltb c.in_buffer_length (n + header_size n) fits)

pub buffer_same : (c d : Client) → Untouched c d → d.in_buffer_length ≡ c.in_buffer_length
buffer_same c d u = ap (λ (x : Client). x.in_buffer_length) u

abbrev pub counted : Client → ℕ → Client
counted c total = record c { message_length = total }

pub counted-Holding :
    (c : Client) (total : ℕ) (got coming : List ℕ) (later : List Arrival)
    → Holding c got coming later
    → Holding (counted c total) got coming later
counted-Holding c total got coming later h = record {
  count = h.count;
  held = h.held;
  block = h.block;
  arriving = h.arriving;
}

-- What `mqtt_message_receive` answers, with the bytes held and those left to arrive.
abbrev pub Answers : Client → Received → List ℕ → List ℕ → List Arrival → ℕ → Type 0
Answers c r got coming later total =
    (d : Client) × ((mqtt_message_receive c ≡ (d, r))
      × Holding d got coming later
      × (d ≡ record c {
        in_buffer = d.in_buffer;
        in_buffer_read_len = length got;
        message_length = total;
        reads = behind coming later;
      }))

-- `d` with what the function may change taken from `e`.
abbrev with_input : Client → Client → ℕ → Client
with_input d e total = record d {
  in_buffer = e.in_buffer;
  in_buffer_read_len = e.in_buffer_read_len;
  message_length = total;
  reads = e.reads;
}

pub answers-Ends :
    (c d : Client) (p : Phase) (r : Received) (got coming : List ℕ) (later : List Arrival)
    (total : ℕ)
    → mqtt_message_receive c ≡ result p
    → d ≡ with_input c d d.message_length
    → Ends d p r got coming later total
    → Answers c r got coming later total
answers-Ends c d p r got coming later total runs same e =
    let f = e.client in
    (
      f,
      (
        runs ∙ ap result e.ends,
        e.holding,
        e.untouched
            ∙ ap (λ (x : Client). with_input x f total) same
            ∙ ap (λ k. with_input c (record f { in_buffer_read_len = k }) total) e.holding.count
            ∙ ap
                (λ rs.
                  with_input c (record f { in_buffer_read_len = length got; reads = rs }) total)
                e.holding.arriving,
      ),
    )

pub mqtt_message_receive-whole :
    (c : Client) (first : ℕ) (body more : List ℕ) (later : List Arrival)
    → mqtt_has_valid_msg_hdr (first ∷ []) 1 ≡ true
    → length body < 2 ^ 28
    → length body + header_size (length body) ≤ c.in_buffer_length
    → Holding c [] (with_length first (length body) body ++ more) later
    → Answers c message
        (with_length first (length body) body)
        more
        later
        (length body + header_size (length body))
unfolding mqtt_message_receive
mqtt_message_receive-whole c first body more later valid small fits h =
    let n = length body in
    let ls = remaining_length n in
    let c0 : Client = record c { message_length = 0 } in
    let h0 =
      subst (λ l. Holding c0 [] (first ∷ l) later) (append_assoc ls body more)
        (counted-Holding c 0 [] _ later h) in
    let a = read_first-Reached c0 first (ls ++ (body ++ more)) later valid (omega arith) h0 in
    let room_a = buffer_same c0 a.client a.untouched in
    let b =
      read_length-Reached a.client first ls (body ++ more) later (length-remaining_length n)
        (omega (arith, room_a)) a.holding (remaining_length-IsLength n small) in
    let room_b = buffer_same a.client b.client b.untouched in
    let hb =
      subst (λ l. Holding b.client (first ∷ l) (body ++ more) later) (sym (append-nil ls))
        b.holding in
    let total = n + header_size n in
    let e =
      read_rest-Ends (counted b.client total) (with_length first n []) body more later total
        (counted-Holding b.client total _ _ later hb) refl (omega (arith, length-append ls []))
        (omega (arith, room_a, room_b)) in
    let goes : mqtt_message_receive c ≡ result (read_rest (counted b.client total) total) =
      ap (λ p. result (p >>= (λ (d : Client). read_length d >>= read_body))) a.goes
      ∙ ap (λ p. result (p >>= read_body)) b.goes
      ∙ ap result (
          read_body-rest b.client first n [] (body ++ more) later small
            (omega (arith, room_a, room_b)) hb) in
    let same =
      ap (λ (x : Client). counted x total)
        (Untouched-trans c0 a.client b.client a.untouched b.untouched) in
    let answer =
      answers-Ends c (counted b.client total) (read_rest (counted b.client total) total) message _
        more later total goes same e in
    subst (λ g. Answers c message (first ∷ (g ++ body)) more later total) (append-nil ls) answer
