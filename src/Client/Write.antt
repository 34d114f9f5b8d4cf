-- ===== src/Client/Write.antt =====
-- `esp_mqtt_write` of mqtt_client.c.
pub mod Stream
use esp_mqtt.Base.{
  ℕ, suc, ◌+◌, ◌≤◌, ◌<◌, ◌≡◌, refl, ap, ◌∙◌, sym, List, [], ◌∷◌, ◌++◌, length, take, drop, arith,
}
use esp_mqtt.Msg.Layout.{packet}
use esp_mqtt.Client.State.{
  Writing, takes, takes_none, refuses, Client, esp_mqtt_client_dispatch_transport_error,
}

-- ESP_OK, ESP_FAIL and ESP_ERR_TIMEOUT.
pub data Written : Type 0 where
  all_written write_failed write_timeout : Written

pub record Sending : Type 0 where
  pub writes : List Writing
  pub sent : List ℕ
  pub outcome : Written

abbrev before : List ℕ → Sending → Sending
before bytes s = record s { sent = bytes ++ s.sent }

abbrev stopped : List Writing → Written → Sending
stopped writes outcome = record { writes = writes; sent = []; outcome = outcome }

-- The loop of `esp_mqtt_write` over the answers of the transport. When none is left, it answers 0.
unfoldable pub write_loop : List Writing → List ℕ → Sending
write_loop writes [] = stopped writes all_written
write_loop [] (b ∷ bs) = stopped [] write_timeout
write_loop (refuses ∷ writes) (b ∷ bs) = stopped writes write_failed
write_loop (takes_none ∷ writes) (b ∷ bs) = stopped writes write_timeout
write_loop (takes n ∷ writes) (b ∷ bs) =
    before (take (suc n) (b ∷ bs)) (write_loop writes (drop (suc n) (b ∷ bs)))

abbrev pub account : Client → Sending → Client
account c s = record c { writes = s.writes; sent = c.sent ++ s.sent }

abbrev pub finish_write : Client → Written → Client × Written
finish_write c write_failed = (esp_mqtt_client_dispatch_transport_error c, write_failed)
finish_write c all_written = (c, all_written)
finish_write c write_timeout = (c, write_timeout)

-- `esp_mqtt_write` for a message that stands at `outbound_message.data`.
unfoldable pub write_bytes : Client → List ℕ → Client × Written
write_bytes c bytes = let s = write_loop c.writes bytes in finish_write (account c s) s.outcome

abbrev pub esp_mqtt_write : Client → Client × Written
esp_mqtt_write c = write_bytes c (packet c.connection)
