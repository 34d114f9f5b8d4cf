-- ===== src/Client/Send/Pieces.antt =====
-- What the loop of `esp_mqtt_client_publish` of mqtt_client.c puts on the stream.
use mathlib.Core.Path.{subst}
use mathlib.Core.List.{append-nil, append_assoc}
use native.Mathlib.Nat.{zero-add, suc-add}
use esp_mqtt.Base.{
  ℕ, zero, suc, ◌+◌, ◌-◌, ◌^◌, ◌≤◌, ◌<◌, ◌≡◌, sym, ap, ◌∙◌, Bool, true, List, [], ◌∷◌, ◌++◌, ltb,
  if◌then◌else◌, length, take, drop, arith, length-take, length-drop, length-overwrite,
  take-append-drop, take-overwrite_front, drop_all, ltb→lt, Bool-cases, inl, inr,
}
use esp_mqtt.Base.Bytes.{sub32}
use esp_mqtt.Base.Int.{ℤ, pos, pos_part, as_int, ltb_ℤ, ◌-ℤ◌}
use esp_mqtt.Msg.Types.{Connection}
use esp_mqtt.Msg.Layout.{packet}
use esp_mqtt.Client.State.{Writing, takes, takes_none, refuses, Client}
use esp_mqtt.Client.Write.{write_loop}
use esp_mqtt.Client.Write.Stream.{Willing, Willing-le, write_bytes-Willing}
use esp_mqtt.Client.Send.{data_sent, next_piece, all_sent, after_write, send_loop}

-- A write uses an answer for a byte at least.
write_loop-Willing :
    (writes : List Writing) (bytes : List ℕ) (m : ℕ)
    → Willing writes (length bytes + m)
    → Willing (write_loop writes bytes).writes m
unfolding write_loop
write_loop-Willing writes [] m w = subst (Willing writes) (zero-add m) w
write_loop-Willing [] (b ∷ bs) m w = elim (subst (Willing []) (suc-add (length bs) m) w) [ ]
write_loop-Willing (takes k ∷ writes) (b ∷ bs) m w = write_loop-Willing writes (drop k bs) m (
    Willing-le writes (length (drop k bs) + m) (length bs + m) (omega (arith, length-drop k bs))
      (subst (Willing (takes k ∷ writes)) (suc-add (length bs) m) w))
write_loop-Willing (takes_none ∷ writes) (b ∷ bs) m w =
    elim (subst (Willing (takes_none ∷ writes)) (suc-add (length bs) m) w) [ ]
write_loop-Willing (refuses ∷ writes) (b ∷ bs) m w =
    elim (subst (Willing (refuses ∷ writes)) (suc-add (length bs) m) w) [ ]

-- What the loop takes the message in the output buffer for: it holds the first `part` bytes of the
-- payload, and `left` are missing. A message that is not fragmented holds the whole payload, and
-- `part` is more than its length, since the offset is below 0.
pub record Begun (c : Client) (payload : List ℕ) (part left : ℕ) : Type 0 where
  pub block : (let d = c.connection in length d.buffer ≡ d.buffer_length)
  pub room : (let d = c.connection in 0 < d.buffer_length)
  pub size : (let d = c.connection in sub32 d.len d.fragmented_msg_data_offset ≡ part)
  pub part_bound : part < 2 ^ 31
  pub bound : length payload < 2 ^ 31
  pub whole : length payload - part ≡ left
  pub willing : Willing c.writes (length (packet c.connection) + left)

abbrev pub Sent : Client → Client × Bool → List ℕ → Type 0
Sent c r bytes = (e : Client) × ((r ≡ (e, true)) × (e.sent ≡ c.sent ++ bytes))

abbrev wrote : Client → Client
wrote c = record c {
  writes = (write_loop c.writes (packet c.connection)).writes;
  sent = c.sent ++ packet c.connection;
}

-- The next piece is the front of what is left.
abbrev piece_size : Connection → ℕ → ℕ
piece_size d left = if ltb d.buffer_length left then d.buffer_length else left

piece_size-bounds :
    (d : Connection) (left : ℕ)
    → 0 < d.buffer_length
    → 0 < left
    → (0 < piece_size d left) × (piece_size d left ≤ d.buffer_length) × (piece_size d left ≤ left)
piece_size-bounds d left room some_left = (ground arith, ground arith, ground arith)

next_piece-packet :
    (c : Client) (rest : List ℕ) (left : ℕ)
    → (let d = c.connection in length d.buffer ≡ d.buffer_length)
    → (let d = c.connection in 0 < d.buffer_length)
    → 0 < left
    → length rest ≡ left
    → packet (let e = next_piece c rest left in e.connection)
      ≡ take (piece_size c.connection left) rest
unfolding packet
next_piece-packet c rest left block room some_left size =
    let d = c.connection in
    let b = piece_size-bounds d left room some_left in
    take-overwrite_front (piece_size d left) d.buffer rest (omega (arith, b.1, block))
      (omega (arith, b.2, size))

next_piece-Begun :
    (c : Client) (rest : List ℕ) (left : ℕ)
    → (let d = c.connection in length d.buffer ≡ d.buffer_length)
    → (let d = c.connection in 0 < d.buffer_length)
    → 0 < left
    → length rest ≡ left
    → left < 2 ^ 31
    → Willing c.writes left
    → Begun
        (next_piece c rest left)
        rest
        (piece_size c.connection left)
        (left - piece_size c.connection left)
unfolding sub32
next_piece-Begun c rest left block room some_left size bound w =
    let d = c.connection in
    let n = piece_size d left in
    let b = piece_size-bounds d left room some_left in
    let sent : length (packet (let e = next_piece c rest left in e.connection)) + (left - n)
        ≡ left =
      omega (
        arith,
        ap length (next_piece-packet c rest left block room some_left size),
        length-take n rest,
        size,
        b.2,
      ) in
    record {
      block = length-overwrite d.buffer 0 (take n rest) ∙ block;
      room = room;
      size = omega (arith, b.2, bound);
      part_bound = omega (arith, b.2, bound);
      bound = omega (arith, size, bound);
      whole = omega (arith, size, b.2);
      willing = subst (Willing c.writes) (sym sent) w;
    }

-- One write of the loop.
abbrev go_on : ℕ → Client → List ℕ → ℤ → Client × Bool
go_on rounds w rest left =
    if ltb_ℤ (pos 0) left
    then send_loop rounds (next_piece w rest (pos_part left)) rest left
    else (all_sent w, true)

as_int-pos : (n : ℕ) → n < 2 ^ 31 → as_int n ≡ pos n
as_int-pos n h = ground arith

written :
    (rounds : ℕ) (c : Client) (payload : List ℕ) (part left : ℕ)
    → Begun c payload part left
    → send_loop (suc rounds) c payload (pos (length payload))
      ≡ go_on rounds (wrote c) (drop part payload) (pos (length payload) -ℤ pos part)
unfolding send_loop
written rounds c payload part left b =
    let d = c.connection in
    let bytes = packet d in
    let sent : data_sent d ≡ pos part = ap as_int b.size ∙ as_int-pos part b.part_bound in
    ap (after_write (send_loop rounds) payload (pos (length payload))) (
      write_bytes-Willing c bytes
        (Willing-le c.writes (length bytes) (length bytes + left) (omega arith) b.willing))
    ∙ ap (λ z. go_on rounds (wrote c) (drop (pos_part z) payload) (pos (length payload) -ℤ z)) sent

-- The test of the loop, when something is left and when nothing is.
some_left :
    (rounds : ℕ) (w : Client) (rest : List ℕ) (len part left : ℕ)
    → len - part ≡ left
    → 0 < left
    → go_on rounds w rest (pos len -ℤ pos part)
      ≡ send_loop rounds (next_piece w rest left) rest (pos left)
some_left rounds w rest len part left e h =
    let z : pos len -ℤ pos part ≡ pos left = ground arith in
    ap (go_on rounds w rest) z ∙ ground arith

none_left :
    (rounds : ℕ) (w : Client) (rest : List ℕ) (len part : ℕ)
    → len ≤ part
    → go_on rounds w rest (pos len -ℤ pos part) ≡ (all_sent w, true)
none_left rounds w rest len part h = ground arith

-- The loop of `esp_mqtt_client_publish` on a message in the output buffer, fragmented or not. The
-- length of the message less its offset, as wrapping sizes, is `part`, below 2 ^ 31, and `left` is the
-- length of the payload less `part`, or 0 where `part` is more. The payload is shorter than 2 ^ 31
-- bytes, the buffer is not empty, the transport takes something at each write, for as many writes as
-- there are bytes in the message and in `left`, and there are more rounds than `left`. Then the loop
-- ends with success, and what it puts on the stream is exactly the message in the buffer and, behind
-- it, what the payload has behind its first `part` bytes, however often the buffer must be filled for
-- it: nothing, if `part` is not below the length of the payload.
pub send_loop-Sent :
    (rounds : ℕ) (c : Client) (payload : List ℕ) (part left : ℕ)
    → left < rounds
    → Begun c payload part left
    → Sent c
        (send_loop rounds c payload (pos (length payload)))
        (packet c.connection ++ drop part payload)
send_loop-Sent zero c payload part left h b = absurd (omega arith)
send_loop-Sent (suc rounds) c payload part left h b =
    let step = written rounds c payload part left b in
    let rest = drop part payload in
    let len = length payload in
    let size : length rest ≡ left = omega (arith, length-drop part payload, b.whole) in
    elim (Bool-cases (ltb 0 left)) [
      | inl more ↦
          let h_left = ltb→lt 0 left more in
          let w = wrote c in
          let willing = write_loop-Willing c.writes (packet c.connection) left b.willing in
          let n = piece_size c.connection left in
          let bounds = piece_size-bounds c.connection left b.room h_left in
          let ih =
            send_loop-Sent rounds (next_piece w rest left) rest n (left - n)
              (omega (arith, bounds.0))
              (next_piece-Begun w rest left b.block b.room h_left size
                (omega (arith, b.whole, b.bound)) willing) in
          let front = next_piece-packet w rest left b.block b.room h_left size in
          (
            ih.0,
            (
              step
                  ∙ some_left rounds w rest len part left b.whole h_left
                  ∙ ap (λ k. send_loop rounds (next_piece w rest left) rest (pos k)) (sym size)
                  ∙ ih.1.0,
              ih.1.1
                  ∙ ap (λ l. w.sent ++ (l ++ drop n rest)) front
                  ∙ ap (λ l. w.sent ++ l) (take-append-drop n rest)
                  ∙ append_assoc c.sent (packet c.connection) rest,
            ),
          )
      | inr done ↦
          let h_none : len ≤ part = ground (arith, b.whole) in
          let w = wrote c in
          (
            all_sent w,
            (
              step ∙ none_left rounds w rest len part h_none,
              ap (λ l. c.sent ++ l)
                  (sym (append-nil (packet c.connection))
                    ∙ ap (λ l. packet c.connection ++ l) (sym (drop_all part payload h_none))),
            ),
          )
    ]
