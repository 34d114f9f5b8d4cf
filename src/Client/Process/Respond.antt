-- ===== src/Client/Process/Respond.antt =====
-- The responses that `mqtt_process_receive` of mqtt_client.c writes.
use esp_mqtt.Base.{
  ℕ, ◌<◌, ◌≡◌, sym, ap, ◌∙◌, false, some, List, ◌∷◌, ◌++◌, ◌==◌, if◌then◌else◌, length, drop, arith,
  length-take,
}
use mathlib.Core.Path.{subst}
use esp_mqtt.Msg.Types.{Connection}
use esp_mqtt.Msg.Layout.{packet, two_bytes}
use esp_mqtt.Outbox.{Outbox, esp_ok, esp_fail}
use esp_mqtt.Client.State.{Client}
use esp_mqtt.Client.Write.{all_written, write_loop, esp_mqtt_write}
use esp_mqtt.Client.Write.Stream.{Willing, write_bytes-Willing}
use esp_mqtt.Client.Process.{respond, respond_anyway, of_write}

-- The client behind a response of four bytes, all written.
abbrev pub responded : Client → Connection → ℕ → ℕ → Client
responded c d first id = record c {
  connection = d;
  writes = (write_loop c.writes (packet d)).writes;
  sent = c.sent ++ (first ∷ 2 ∷ two_bytes id);
}

pub packet-not_empty :
    (d : Connection) (b : ℕ) (bs : List ℕ) → packet d ≡ b ∷ bs → (d.len == 0) ≡ false
unfolding packet
packet-not_empty d b bs e =
    let size = ap length e in
    let short = length-take d.len (drop d.start d.buffer) in
    let some_bytes : 0 < d.len = omega (arith, size, short) in ground arith

written :
    (c : Client) (d : Connection) (first id : ℕ)
    → packet d ≡ first ∷ 2 ∷ two_bytes id
    → Willing c.writes 4
    → esp_mqtt_write (record c { connection = d }) ≡ (responded c d first id, all_written)
written c d first id e w =
    write_bytes-Willing (record c { connection = d }) (packet d)
      (subst (λ bs. Willing c.writes (length bs)) (sym e) w)
    ∙ ap (λ bs. (record (responded c d first id) { sent = c.sent ++ bs }, all_written)) e

pub respond-written :
    (c : Client) (d : Connection) (first id : ℕ)
    → packet d ≡ first ∷ 2 ∷ two_bytes id
    → Willing c.writes 4
    → respond c (some d) ≡ some (responded c d first id, esp_ok)
respond-written c d first id e w =
    let f : Client = record c { connection = d } in
    ap (λ b. some (if b then (f, esp_fail) else of_write (esp_mqtt_write f)))
      (packet-not_empty d _ _ e)
    ∙ ap (λ p. some (of_write p)) (written c d first id e w)

pub respond_anyway-written :
    (c : Client) (change : Outbox → Outbox) (d : Connection) (first id : ℕ)
    → packet d ≡ first ∷ 2 ∷ two_bytes id
    → Willing c.writes 4
    → respond_anyway c change (some d)
      ≡ some (responded (record c { outbox = change c.outbox }) d first id, esp_ok)
respond_anyway-written c change d first id e w =
    let f : Client = record c { connection = d } in
    let g : Client = record f { outbox = change f.outbox } in
    ap (λ b. some (if b then (f, esp_fail) else ((esp_mqtt_write g).0, esp_ok)))
      (packet-not_empty d _ _ e)
    ∙ ap (λ p. some (p.0, esp_ok)) (written (record c { outbox = change c.outbox }) d first id e w)
