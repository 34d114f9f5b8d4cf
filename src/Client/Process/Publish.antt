-- ===== src/Client/Process/Publish.antt =====
-- `mqtt_process_receive` of mqtt_client.c on a PUBLISH packet, from the bytes to the response.
use mathlib.Core.List.{append-nil}
use esp_mqtt.Base.{
  ℕ, zero, suc, ◌≤◌, ◌<◌, ◌≡◌, refl, sym, ap, ◌∙◌, some, List, [], ◌∷◌, ◌++◌, arith,
}
use esp_mqtt.Msg.Layout.{Ready, two_bytes}
use esp_mqtt.Msg.Behind.{id_read}
use esp_mqtt.Msg.Acks.{acknowledgements_read_back}
use esp_mqtt.Outbox.{esp_ok}
use esp_mqtt.Client.State.{Client}
use esp_mqtt.Client.Receive.Holding.{Holding}
use esp_mqtt.Client.Deliver.{deliver_publish}
use esp_mqtt.Client.Deliver.Whole.{message_event, delivered}
use esp_mqtt.Client.Write.Stream.{Willing}
use esp_mqtt.Client.Process.{Step, acknowledge, handle_message, close_message, respond}
use esp_mqtt.Client.Process.Respond.{responded, respond-written}

-- The response that a PUBLISH asks for: none, PUBACK or PUBREC.
abbrev pub response : ℕ → ℕ → List ℕ
response zero id = []
response (suc zero) id = 64 ∷ 2 ∷ two_bytes id
response (suc (suc qos)) id = 80 ∷ 2 ∷ two_bytes id

-- The client behind a PUBLISH packet: the message delivered, the response written.
pub record Handled (c d : Client) (topic content : List ℕ) (qos retain id : ℕ) : Type 0 where
  pub events : d.events ≡ c.events ++ (message_event c.event topic content qos retain id ∷ [])
  pub sent : d.sent ≡ c.sent ++ response qos id
  pub outbox : d.outbox ≡ c.outbox
  pub state : d.state ≡ c.state
  pub read_len : d.in_buffer_read_len ≡ 0
  pub reads : d.reads ≡ c.reads

abbrev pub Outcome : Client → Step → List ℕ → List ℕ → ℕ → ℕ → ℕ → Type 0
Outcome c step topic content qos retain id =
    (d : Client) × ((step ≡ some (d, esp_ok)) × Handled c d topic content qos retain id)

-- The last part: the response to a message that was delivered.
answered :
    (c : Client) (topic content : List ℕ) (qos retain id : ℕ)
    → qos < 3
    → Ready c.connection
    → 7 ≤ c.connection.buffer_length
    → 0 < id
    → id < 65536
    → Willing c.writes 4
    → Outcome c
        (close_message (
          acknowledge qos
            (id_read qos id)
            (delivered c (message_event c.event topic content qos retain id), esp_ok)))
        topic
        content
        qos
        retain
        id
answered c topic content zero retain id q r room z k w =
    let d = delivered c (message_event c.event topic content zero retain id) in
    (
      record d { in_buffer_read_len = 0 },
      (
        refl,
        record {
          events = refl;
          sent = sym (append-nil c.sent);
          outbox = refl;
          state = refl;
          read_len = refl;
          reads = refl;
        },
      ),
    )
answered c topic content (suc zero) retain id q r room z k w =
    let d = delivered c (message_event c.event topic content 1 retain id) in
    let a = (acknowledgements_read_back c.connection id r room z k).0 in
    (
      record (responded d a.0 64 id) { in_buffer_read_len = 0 },
      (
        ap (λ o. close_message (respond d o)) a.1.0
            ∙ ap close_message (respond-written d a.0 64 id a.1.1.0 w),
        record {
          events = refl;
          sent = refl;
          outbox = refl;
          state = refl;
          read_len = refl;
          reads = refl;
        },
      ),
    )
answered c topic content (suc (suc zero)) retain id q r room z k w =
    let d = delivered c (message_event c.event topic content 2 retain id) in
    let a = (acknowledgements_read_back c.connection id r room z k).1.0 in
    (
      record (responded d a.0 80 id) { in_buffer_read_len = 0 },
      (
        ap (λ o. close_message (respond d o)) a.1.0
            ∙ ap close_message (respond-written d a.0 80 id a.1.1.0 w),
        record {
          events = refl;
          sent = refl;
          outbox = refl;
          state = refl;
          read_len = refl;
          reads = refl;
        },
      ),
    )
answered c topic content (suc (suc (suc qos))) retain id q r room z k w = absurd (omega arith)

pub is_publish :
    (c : Client) (qos id : ℕ) → handle_message c 3 qos id ≡ acknowledge qos id (deliver_publish c)
unfolding handle_message
is_publish c qos id = refl
