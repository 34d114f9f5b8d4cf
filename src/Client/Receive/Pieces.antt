-- ===== src/Client/Receive/Pieces.antt =====
-- A message that arrives at `mqtt_message_receive` of mqtt_client.c in pieces.
use mathlib.Core.Path.{subst}
use mathlib.Core.List.{append_assoc}
use esp_mqtt.Base.{
  ℕ, zero, suc, ◌+◌, ◌-◌, ◌≤◌, ◌<◌, ◌≡◌, refl, ap, ◌∙◌, true, false, List, [], ◌∷◌, ◌++◌, length,
  drop, arith, length-append, get_or-append, lt→ltb,
}
use esp_mqtt.Msg.Types.{byte_at}
use esp_mqtt.Msg.Length.{IsLength}
use esp_mqtt.Client.State.{Arrival, Client}
use esp_mqtt.Client.Receive.{Phase, goes_on, ◌>>=◌, again, more_length, length_loop}
use esp_mqtt.Client.Receive.Holding.{
  Holding, stored, read_into-stored, stored-Holding, held-in_buffer,
}

-- Only the input side of the client differs.
abbrev pub Untouched : Client → Client → Type 0
Untouched c d = d ≡ record c {
  in_buffer = d.in_buffer;
  in_buffer_read_len = d.in_buffer_read_len;
  reads = d.reads;
}

pub Untouched-trans : (c d e : Client) → Untouched c d → Untouched d e → Untouched c e
Untouched-trans c d e p q =
    q
    ∙ ap
        (λ (x : Client). record x {
          in_buffer = e.in_buffer;
          in_buffer_read_len = e.in_buffer_read_len;
          reads = e.reads;
        })
        p

-- The last byte held is the one in front of `buf`.
last_held :
    (c : Client) (got : List ℕ) (b : ℕ) (coming : List ℕ) (later : List Arrival)
    → Holding c (got ++ (b ∷ [])) coming later
    → byte_at c.in_buffer (c.in_buffer_read_len - 1) ≡ b
last_held c got b coming later h =
    let tail = drop (length (got ++ (b ∷ []))) c.in_buffer in
    let size : c.in_buffer_read_len - 1 ≡ length got + 0 =
      omega (arith, h.count, length-append got (b ∷ [])) in
    ap (λ k. byte_at c.in_buffer k) size
    ∙ ap (λ l. byte_at l (length got + 0))
        (held-in_buffer c _ coming later h ∙ append_assoc got (b ∷ []) tail)
    ∙ get_or-append got (b ∷ tail) 0 0

pub more_length_high :
    (c : Client) (got : List ℕ) (b : ℕ) (coming : List ℕ) (later : List Arrival)
    → Holding c (got ++ (b ∷ [])) coming later
    → 128 ≤ b
    → b < 256
    → length got < 5
    → more_length c ≡ true
more_length_high c got b coming later h low high few =
    let last = last_held c got b coming later h in
    let size = length-append got (b ∷ []) in
    rw (lt→ltb c.in_buffer_read_len 6 (omega (arith, h.count, size))) (rw last (ground arith))

more_length_low :
    (c : Client) (got : List ℕ) (b : ℕ) (coming : List ℕ) (later : List Arrival)
    → Holding c (got ++ (b ∷ [])) coming later
    → b < 128
    → more_length c ≡ false
more_length_low c got b coming later h low = rw (last_held c got b coming later h) (ground arith)

-- What a run of reads leads to.
pub record Reached (c : Client) (p : Phase) (got coming : List ℕ) (later : List Arrival)
    : Type 0 where
  pub client : Client
  pub goes : p ≡ goes_on client
  pub holding : Holding client got coming later
  pub untouched : Untouched c client

length_loop_last :
    (rounds : ℕ) (c : Client) (got : List ℕ) (l : ℕ) (rest : List ℕ) (later : List Arrival)
    → Holding c got (l ∷ rest) later
    → l < 128
    → length got + 1 ≤ c.in_buffer_length
    → Reached c (length_loop (suc rounds) c) (got ++ (l ∷ [])) rest later
unfolding length_loop
length_loop_last rounds c got l rest later h low fits =
    let d = stored c 1 (l ∷ rest) later in
    let k = stored-Holding c got (l ∷ rest) later 1 h fits in
    record {
      client = d;
      goes =
          ap (λ p. p >>= again (length_loop rounds)) (read_into-stored c got l rest later 1 true h)
          ∙ rw (more_length_low d got l rest later k low) refl;
      holding = k;
      untouched = refl;
    }

length_loop_more :
    (rounds : ℕ) (c : Client) (got : List ℕ) (l : ℕ) (rest : List ℕ) (later : List Arrival)
    → Holding c got (l ∷ rest) later
    → 128 ≤ l
    → l < 256
    → length got < 5
    → length got + 1 ≤ c.in_buffer_length
    → length_loop (suc rounds) c ≡ length_loop rounds (stored c 1 (l ∷ rest) later)
unfolding length_loop
length_loop_more rounds c got l rest later h low high few fits =
    let d = stored c 1 (l ∷ rest) later in
    let k = stored-Holding c got (l ∷ rest) later 1 h fits in
    ap (λ p. p >>= again (length_loop rounds)) (read_into-stored c got l rest later 1 true h)
    ∙ rw (more_length_high d got l rest later k low high few) refl

pub length_loop-Reached :
    (rounds : ℕ) (ls : List ℕ) (c : Client) (got rest : List ℕ) (later : List Arrival)
    → IsLength ls
    → length ls ≤ rounds
    → length got + length ls ≤ 5
    → length got + length ls ≤ c.in_buffer_length
    → Holding c got (ls ++ rest) later
    → Reached c (length_loop rounds c) (got ++ ls) rest later
length_loop-Reached rounds [] c got rest later v room few fits h = elim v [ ]
length_loop-Reached zero (l ∷ []) c got rest later v room few fits h = absurd (omega arith)
length_loop-Reached (suc rounds) (l ∷ []) c got rest later v room few fits h =
    length_loop_last rounds c got l rest later h v (omega arith)
length_loop-Reached zero (l ∷ m ∷ ls) c got rest later v room few fits h = absurd (omega arith)
length_loop-Reached (suc rounds) (l ∷ m ∷ ls) c got rest later (low, high, v) room few fits h =
    let coming = l ∷ m ∷ (ls ++ rest) in
    let d = stored c 1 coming later in
    let k = stored-Holding c got coming later 1 h (omega arith) in
    let size = length-append got (l ∷ []) in
    let r =
      length_loop-Reached rounds (m ∷ ls) d (got ++ (l ∷ [])) rest later v (omega arith)
        (omega (arith, size)) (omega (arith, size)) k in
    record {
      client = r.client;
      goes =
          length_loop_more rounds c got l (m ∷ (ls ++ rest)) later h low high (omega arith)
            (omega arith)
          ∙ r.goes;
      holding =
          subst (λ g. Holding r.client g rest later) (append_assoc got (l ∷ []) (m ∷ ls)) r.holding;
      untouched = Untouched-trans c d r.client refl r.untouched;
    }
