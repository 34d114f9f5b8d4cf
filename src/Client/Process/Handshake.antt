-- ===== src/Client/Process/Handshake.antt =====
-- `mqtt_process_receive` of mqtt_client.c in the handshakes of QoS 1 and QoS 2.
use mathlib.Core.Path.{subst}
use esp_mqtt.Base.{ℕ, ◌≤◌, ◌<◌, ◌≡◌, ◌⊎◌, inl, inr, refl, sym, ap, ◌∙◌, Option, List, [], ◌∷◌, ◌++◌}
use esp_mqtt.Msg.Types.{Connection, publish, mqtt_get_type, type_number}
use esp_mqtt.Msg.Build.{mqtt_msg_pubrel, mqtt_msg_pubcomp}
use esp_mqtt.Msg.Layout.{Ready, two_bytes}
use esp_mqtt.Msg.Acks.{acknowledgements_read_back, Acknowledges}
use esp_mqtt.Outbox.{Outbox, outbox_delete, outbox_set_pending, acknowledged}
use esp_mqtt.Client.State.{Arrival, Client, behind}
use esp_mqtt.Client.Receive.Holding.{Holding}
use esp_mqtt.Client.Write.Stream.{Willing}
use esp_mqtt.Client.Process.{
  Step, is_ok, handle_message, close_message, mqtt_process_receive, respond_anyway,
}
use esp_mqtt.Client.Process.Respond.{responded, respond_anyway-written}
use esp_mqtt.Client.Process.Acks.{
  IsAck, Answers, ToFinished, ToContinued, holds_ack, removes, puback_removes, pubcomp_removes,
  valid_ack, switched, finishes,
}

-- PUBACK (64) or PUBCOMP (112) with an id of 16 bits arrives in one piece at a client that holds
-- nothing before, with an input buffer of four bytes at least: the call ends with ESP_OK, the outbox is what
-- `outbox_delete` of the PUBLISH with this id leaves, and MQTT_EVENT_PUBLISHED with the
-- id is dispatched once if that found the message, and not at all otherwise; nothing is sent, and
-- the input buffer is empty.
pub mqtt_process_receive-finished :
    (c : Client) (first id : ℕ) (more : List ℕ) (later : List Arrival)
    → (first ≡ 64) ⊎ (first ≡ 112)
    → id < 65536
    → 4 ≤ c.in_buffer_length
    → Holding c [] (first ∷ 2 ∷ (two_bytes id ++ more)) later
    → ToFinished
        (mqtt_process_receive c)
        (record c { reads = behind more later })
        (outbox_delete c.outbox id (type_number publish)).0
        (is_ok (outbox_delete c.outbox id (type_number publish)).1)
        id
mqtt_process_receive-finished c first id more later (inl e) small room h =
    finishes c first id more later (inl e) (valid_ack first (inl e)) small room h
      (subst (λ f. Answers f removes) (sym e) puback_removes)
mqtt_process_receive-finished c first id more later (inr e) small room h =
    finishes c first id more later (inr (inr (inr e))) (valid_ack first (inr (inr (inr e)))) small
      room h (subst (λ f. Answers f removes) (sym e) pubcomp_removes)

abbrev sends_pubrel : Client → ℕ → Step
sends_pubrel l i =
    respond_anyway l (λ o. (outbox_set_pending o i acknowledged).0) (mqtt_msg_pubrel l.connection i)

abbrev sends_pubcomp : Client → ℕ → Step
sends_pubcomp l i = respond_anyway l (λ o. o) (mqtt_msg_pubcomp l.connection i)

pubrec_answers : Answers 80 sends_pubrel
unfolding handle_message mqtt_get_type
pubrec_answers l q i = refl

-- A response written ends the call.
continues :
    (l : Client) (change : Outbox → Outbox) (built : Option Connection) (first id : ℕ)
    → Acknowledges built first id
    → Willing l.writes 4
    → ToContinued (close_message (respond_anyway l change built)) l (change l.outbox) first id
continues l change built first id a w =
    let o = record l { outbox = change l.outbox } in
    (
      record (responded o a.0 first id) { in_buffer_read_len = 0 },
      (
        ap (λ b. close_message (respond_anyway l change b)) a.1.0
            ∙ ap close_message (respond_anyway-written l change a.0 first id a.1.1.0 w),
        record { kept = refl; events = refl; sent = refl; state = refl; read_len = refl },
      ),
    )

-- PUBREC (80) with an id that is not 0 arrives in one piece at a client that holds nothing before,
-- with an input buffer of four bytes at least, an output buffer that is ready for seven bytes, and a
-- transport that takes something at each of the next four writes: the call ends with ESP_OK, the
-- outbox is what `outbox_set_pending` makes of it with ACKNOWLEDGED for this id, and exactly PUBREL
-- with the id is sent; no event is dispatched, and the input buffer is empty.
pub mqtt_process_receive-pubrec :
    (c : Client) (id : ℕ) (more : List ℕ) (later : List Arrival)
    → 0 < id
    → id < 65536
    → 4 ≤ c.in_buffer_length
    → Holding c [] (80 ∷ 2 ∷ (two_bytes id ++ more)) later
    → Ready c.connection
    → 7 ≤ c.connection.buffer_length
    → Willing c.writes 4
    → ToContinued
        (mqtt_process_receive c)
        (record c { reads = behind more later })
        (outbox_set_pending c.outbox id acknowledged).0
        98
        id
mqtt_process_receive-pubrec c id more later z small room h r seven w =
    let kind : IsAck 80 = inr (inl refl) in
    let p =
      switched c 80 id more later kind (valid_ack 80 kind) small room h sends_pubrel
        pubrec_answers in
    let l = holds_ack (record c { reads = behind more later }) 80 id p.0 in
    let a =
      continues l (λ o. (outbox_set_pending o id acknowledged).0) (mqtt_msg_pubrel l.connection id)
        98 id (acknowledgements_read_back c.connection id r seven z small).1.1.0 w in
    (
      a.0,
      (
        p.1 ∙ a.1.0,
        record {
          kept = a.1.1.kept;
          events = a.1.1.events;
          sent = a.1.1.sent;
          state = a.1.1.state;
          read_len = a.1.1.read_len;
        },
      ),
    )
