-- ===== src/Client/Write/Stream.antt =====
-- What `esp_mqtt_write` of mqtt_client.c puts on the stream.
use esp_mqtt.Base.{
  ℕ, zero, suc, ◌+◌, ◌≤◌, ◌≡◌, ◌↔◌, refl, ap, ◌∙◌, sym, List, [], ◌∷◌, ◌++◌, length, take, drop,
  arith, length-drop, length-take, take_further, take-append-drop,
}
use esp_mqtt.Client.State.{
  Writing, takes, takes_none, refuses, Client, esp_mqtt_client_dispatch_transport_error,
  esp_mqtt_dispatch_event_with_msgid,
}
use esp_mqtt.Client.Write.{
  Written, all_written, write_failed, write_timeout, write_loop, write_bytes, finish_write, account,
}

-- The first `n` answers of the transport take something.
abbrev pub Willing : List Writing → ℕ → Type 0
Willing writes zero = Unit
Willing [] (suc n) = ⊥
Willing (takes k ∷ writes) (suc n) = Willing writes n
Willing (takes_none ∷ writes) (suc n) = ⊥
Willing (refuses ∷ writes) (suc n) = ⊥

pub Willing-le : (writes : List Writing) (m n : ℕ) → m ≤ n → Willing writes n → Willing writes m
Willing-le writes zero n h w = tt
Willing-le writes (suc m) zero h w = absurd (omega arith)
Willing-le [] (suc m) (suc n) h w = elim w [ ]
Willing-le (takes k ∷ writes) (suc m) (suc n) h w = Willing-le writes m n (omega arith) w
Willing-le (takes_none ∷ writes) (suc m) (suc n) h w = elim w [ ]
Willing-le (refuses ∷ writes) (suc m) (suc n) h w = elim w [ ]

abbrev Done : List Writing → List ℕ → Type 0
Done writes bytes =
    ((write_loop writes bytes).sent ≡ bytes) × ((write_loop writes bytes).outcome ≡ all_written)

write_loop-Done :
    (writes : List Writing) (bytes : List ℕ) → Willing writes (length bytes) → Done writes bytes
unfolding write_loop
write_loop-Done writes [] w = (refl, refl)
write_loop-Done [] (b ∷ bs) w = elim w [ ]
write_loop-Done (takes k ∷ writes) (b ∷ bs) w =
    let fewer : length (drop k bs) ≤ length bs = omega (arith, length-drop k bs) in
    let ih = write_loop-Done writes (drop k bs) (Willing-le writes _ _ fewer w) in
    (ap (λ l. (b ∷ take k bs) ++ l) ih.0 ∙ ap (◌∷◌ b) (take-append-drop k bs), ih.1)
write_loop-Done (takes_none ∷ writes) (b ∷ bs) w = elim w [ ]
write_loop-Done (refuses ∷ writes) (b ∷ bs) w = elim w [ ]

-- When the transport's answers all take something, however little, for as many answers as the
-- message has bytes, the write ends with ESP_OK, and what the transport has taken is exactly the
-- message, in order; nothing else of the client changes but the answers used up.
pub write_bytes-Willing :
    (c : Client) (bytes : List ℕ)
    → Willing c.writes (length bytes)
    → write_bytes c bytes ≡ (
      record c { writes = (write_loop c.writes bytes).writes; sent = c.sent ++ bytes },
      all_written,
    )
unfolding write_bytes
write_bytes-Willing c bytes w =
    let done = write_loop-Done c.writes bytes w in
    let s = write_loop c.writes bytes in
    ap (finish_write (account c s)) done.1
    ∙ ap (λ l. (record c { writes = s.writes; sent = c.sent ++ l }, all_written)) done.0

-- The bytes sent are the first `k` of the message, which is all of it exactly on ESP_OK.
abbrev Prefix : List ℕ → List ℕ → Written → Type 0
Prefix bytes sent outcome =
    (k : ℕ) × ((k ≤ length bytes)
      × (sent ≡ take k bytes)
      × ((outcome ≡ all_written) ↔ (k ≡ length bytes)))

write_loop-Prefix :
    (writes : List Writing) (bytes : List ℕ)
    → Prefix bytes (write_loop writes bytes).sent (write_loop writes bytes).outcome
unfolding write_loop
write_loop-Prefix writes [] = (0, (omega arith, refl, ((λ e. refl), (λ e. refl))))
write_loop-Prefix [] (b ∷ bs) = (0, (omega arith, refl, ((λ e. cc), (λ e. absurd (omega arith)))))
write_loop-Prefix (takes k ∷ writes) (b ∷ bs) =
    let ih = write_loop-Prefix writes (drop k bs) in
    let front = length-take k bs in
    let back = length-drop k bs in
    let j = suc (length (take k bs) + ih.0) in
    (
      j,
      (
        omega (arith, front, back, ih.1.0),
        ap (λ l. b ∷ (take k bs ++ l)) ih.1.1 ∙ ap (◌∷◌ b) (sym (take_further k ih.0 bs)),
        (
          (λ e. let n = ih.1.2.0 e in omega (arith, front, back, n)),
          (λ e. ih.1.2.1 (omega (arith, front, back, e, ih.1.0))),
        ),
      ),
    )
write_loop-Prefix (takes_none ∷ writes) (b ∷ bs) =
    (0, (omega arith, refl, ((λ e. cc), (λ e. absurd (omega arith)))))
write_loop-Prefix (refuses ∷ writes) (b ∷ bs) =
    (0, (omega arith, refl, ((λ e. cc), (λ e. absurd (omega arith)))))

finish_write-sent :
    (c : Client) (w : Written) → ((finish_write c w).0.sent ≡ c.sent) × ((finish_write c w).1 ≡ w)
unfolding esp_mqtt_client_dispatch_transport_error esp_mqtt_dispatch_event_with_msgid
finish_write-sent c all_written = (refl, refl)
finish_write-sent c write_failed = (refl, refl)
finish_write-sent c write_timeout = (refl, refl)

-- Whatever the transport answers, a write puts the first `k` bytes of the message on the stream, in
-- order and behind what was sent before, and nothing else; and it ends with ESP_OK exactly when
-- these are all bytes of the message.
pub write_bytes-sent :
    (c : Client) (bytes : List ℕ)
    → (k : ℕ) × ((k ≤ length bytes)
        × ((write_bytes c bytes).0.sent ≡ c.sent ++ take k bytes)
        × (((write_bytes c bytes).1 ≡ all_written) ↔ (k ≡ length bytes)))
unfolding write_bytes
write_bytes-sent c bytes =
    let s = write_loop c.writes bytes in
    let p = write_loop-Prefix c.writes bytes in
    let f = finish_write-sent (account c s) s.outcome in
    (
      p.0,
      (
        p.1.0,
        f.0 ∙ ap (λ l. c.sent ++ l) p.1.1,
        ((λ e. p.1.2.0 (sym f.1 ∙ e)), (λ e. f.1 ∙ p.1.2.1 e)),
      ),
    )
