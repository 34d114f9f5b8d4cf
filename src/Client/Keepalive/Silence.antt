-- ===== src/Client/Keepalive/Silence.antt =====
-- `process_keepalive` of mqtt_client.c against a broker that says nothing.
use mathlib.Core.Path.{subst}
use esp_mqtt.Base.{
  ℕ, ◌+◌, ◌/◌, ◌^◌, ◌≤◌, ◌<◌, ◌≡◌, refl, sym, ap, ◌∙◌, true, false, some, List, [], ◌∷◌, ◌++◌, ltb,
  if◌then◌else◌, length, arith,
}
use esp_mqtt.Base.Bytes.{add64, sub64}
use esp_mqtt.Msg.Types.{Connection, pingreq}
use esp_mqtt.Msg.Build.{set_message_header_size, mqtt_msg_pingreq}
use esp_mqtt.Msg.Length.{remaining_length}
use esp_mqtt.Msg.Layout.{Ready, packet, set_message_header_size-Writing, fini_message-packet}
use esp_mqtt.Outbox.{esp_ok, esp_fail}
use esp_mqtt.Client.State.{
  Client, ClientEvent, event_disconnected, state_wait_reconnect, has_timed_out, now, tick_read,
  esp_mqtt_dispatch_event_with_msgid,
}
use esp_mqtt.Client.Write.{all_written, write_loop, esp_mqtt_write}
use esp_mqtt.Client.Write.Stream.{Willing, write_bytes-Willing}
use esp_mqtt.Client.Abort.{esp_mqtt_abort_connection}
use esp_mqtt.Client.Send.{was_written}
use esp_mqtt.Client.Request.{ping_built, esp_mqtt_client_ping}
use esp_mqtt.Client.Process.Respond.{packet-not_empty}
use esp_mqtt.Client.Keepalive.{
  keepalive_ms, while_waiting, while_quiet, after_ping, process_keepalive,
}

pub timed_out_yes :
    (t last timeout : ℕ) → t < 2 ^ 63 → last + timeout ≤ t → has_timed_out t last timeout ≡ true
unfolding has_timed_out sub64 add64
timed_out_yes t last timeout h k = ground arith

pub timed_out_no :
    (t last timeout : ℕ)
    → last + timeout < 2 ^ 63
    → t < last + timeout
    → has_timed_out t last timeout ≡ false
unfolding has_timed_out sub64 add64
timed_out_no t last timeout h k = ground arith

-- PINGREQ
abbrev pub ping_bytes : List ℕ
ping_bytes = 192 ∷ 0 ∷ []

pingreq-packet :
    (c : Connection)
    → Ready c
    → (d : Connection) × ((mqtt_msg_pingreq c ≡ some d) × (packet d ≡ ping_bytes))
unfolding mqtt_msg_pingreq remaining_length
pingreq-packet c r =
    fini_message-packet (set_message_header_size c) [] pingreq 0 0 0
      (set_message_header_size-Writing c r)

abbrev pinged : Client → Connection → Client
pinged c d = record c {
  connection = d;
  writes = (write_loop c.writes ping_bytes).writes;
  sent = c.sent ++ ping_bytes;
}

ping_sent :
    (c : Client)
    → Ready c.connection
    → Willing c.writes 2
    → (d : Connection) × (esp_mqtt_client_ping c ≡ some (pinged c d, esp_ok))
unfolding esp_mqtt_client_ping
ping_sent c r w =
    let p = pingreq-packet c.connection r in
    let d = p.0 in
    let e : Client = record c { connection = d } in
    let wrote : esp_mqtt_write e ≡ (pinged c d, all_written) =
      write_bytes-Willing e (packet d) (subst (λ bs. Willing c.writes (length bs)) (sym p.1.1) w)
      ∙ ap
          (λ bs. (
            record e { writes = (write_loop c.writes bs).writes; sent = c.sent ++ bs },
            all_written,
          ))
          p.1.1 in
    (
      d,
      ap (ping_built c) p.1.0
          ∙ ap
              (λ b. some (
                if b then (e, esp_fail) else (
                  (esp_mqtt_write e).0,
                  if was_written (esp_mqtt_write e).1 then esp_ok else esp_fail,
                )))
              (packet-not_empty d 192 (0 ∷ []) p.1.1)
          ∙ ap (λ x. some (x.0, if was_written x.1 then esp_ok else esp_fail)) wrote,
    )

abbrev pub event_id_of : ClientEvent → esp_mqtt.Client.State.EventId
event_id_of e = e.event_id

-- A client that waits for no PINGRESP, with the next two readings of its clock.
abbrev pub quiet : Client → ℕ → ℕ → List ℕ → Client
quiet c t u ticks = record c { wait_for_ping_resp = false; ticks = t ∷ u ∷ ticks }

-- A first call that pings, with the client `d` behind it, and a second one that gives up.
pub record Noticed (c : Client) (d e : Client) : Type 0 where
  pub pinged_first : process_keepalive c ≡ some (d, esp_ok)
  pub ping : d.sent ≡ c.sent ++ ping_bytes
  pub waiting : d.wait_for_ping_resp ≡ true
  pub given_up : process_keepalive d ≡ some (e, esp_fail)
  pub state : e.state ≡ state_wait_reconnect
  pub told : e.events ≡ c.events ++ (e.event ∷ [])
  pub event : event_id_of e.event ≡ event_disconnected
  pub not_waiting : e.wait_for_ping_resp ≡ false

enabled :
    (c : Client) → 0 < keepalive_ms c → (let info = c.information in ltb 0 info.keepalive) ≡ true
enabled c h = ground arith

-- Keep-alive is on, the output buffer is ready, and the transport takes something at each of the
-- next two writes. When half the keep-alive time since the last sign of the broker is over at the
-- reading `t` of the clock, and all of it at the reading `u` (both and the end of the time below
-- 2 ^ 63), the first call of `process_keepalive` sends exactly PINGREQ and waits; and the second
-- call, with no PINGRESP in between, fails: the connection is given up with one
-- MQTT_EVENT_DISCONNECTED, and the client waits for a reconnection and no longer for PINGRESP.
pub process_keepalive-silence :
    (c : Client) (t u : ℕ) (ticks : List ℕ)
    → 0 < keepalive_ms c
    → Ready c.connection
    → Willing c.writes 2
    → t < 2 ^ 63
    → u < 2 ^ 63
    → c.keepalive_tick + keepalive_ms c / 2 ≤ t
    → c.keepalive_tick + keepalive_ms c ≤ u
    → (d : Client) × ((e : Client) × Noticed (quiet c t u ticks) d e)
unfolding process_keepalive esp_mqtt_abort_connection esp_mqtt_dispatch_event_with_msgid
process_keepalive-silence c t u ticks on r w small large half whole =
    let q = quiet c t u ticks in
    let p = ping_sent (tick_read q) r w in
    let d : Client = record (pinged (tick_read q) p.0) { wait_for_ping_resp = true } in
    let e : Client = record (esp_mqtt_abort_connection (tick_read d)) {
      wait_for_ping_resp = false;
    } in
    let on_q = enabled c on in
    (
      d,
      (
        e,
        record {
          pinged_first =
              ap (λ b. if b then while_quiet q else some (q, esp_ok)) on_q
              ∙ ap
                  (λ b.
                    if b
                    then after_ping (esp_mqtt_client_ping (tick_read q))
                    else some (tick_read q, esp_ok))
                  (timed_out_yes t c.keepalive_tick (keepalive_ms c / 2) small half)
              ∙ ap after_ping p.1;
          ping = refl;
          waiting = refl;
          given_up =
              ap (λ b. if b then some (while_waiting d) else some (d, esp_ok)) on_q
              ∙ ap (λ b. some (if b then (e, esp_fail) else (tick_read d, esp_ok)))
                  (timed_out_yes u c.keepalive_tick (keepalive_ms c) large whole);
          state = refl;
          told = refl;
          event = refl;
          not_waiting = refl;
        },
      ),
    )
