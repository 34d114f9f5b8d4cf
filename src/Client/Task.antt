-- ===== src/Client/Task.antt =====
-- One round of the loop of `esp_mqtt_task` of mqtt_client.c, with MQTT_REPORT_DELETED_MESSAGES off,
-- which is the default. The rounds are taken one by one, with no call of the application between
-- their steps; what the transport layer answers to the set-up is an argument.
pub mod Receiving
pub mod Handling
pub mod Live
pub mod Machine
pub mod Connecting
mod Runs
use esp_mqtt.Base.{
  ℕ, ◌+◌, ◌/◌, Bool, true, false, not, ◌&&◌, Option, none, some, ltb, ◌==◌, if◌then◌else◌,
}
use esp_mqtt.Base.Bytes.{sub64}
use esp_mqtt.Base.Int.{ℤ, pos, pos_part}
use esp_mqtt.Msg.Types.{publish, type_number, mqtt_get_connect_session_present}
use esp_mqtt.Outbox.{
  Item, Outbox, EspErr, esp_ok, esp_fail, queued, transmitted, acknowledged, outbox_dequeue,
  outbox_delete_item, outbox_delete_expired, outbox_delete_all_items, outbox_set_tick,
  outbox_set_pending,
}
use esp_mqtt.Client.State.{
  Client, ClientState, ClientEvent, state_init, state_disconnected, state_connected,
  state_wait_reconnect, event_error, event_connected, event_before_connect, error_tcp_transport,
  set_event_id, has_timed_out, now, tick_read, esp_mqtt_dispatch_event_with_msgid,
  esp_mqtt_client_dispatch_transport_error,
}
use esp_mqtt.Client.Abort.{esp_mqtt_abort_connection}
use esp_mqtt.Client.Send.{is_connected}
use esp_mqtt.Client.Request.{send_disconnect_msg}
use esp_mqtt.Client.Resend.{mqtt_resend_queued, mqtt_resend_pubrel}
use esp_mqtt.Client.Connect.{esp_mqtt_connect}
use esp_mqtt.Client.Keepalive.{process_keepalive}
use esp_mqtt.Client.Process.{mqtt_process_receive}

-- OUTBOX_EXPIRED_TIMEOUT_MS and MQTT_RECON_DEFAULT_MS
abbrev pub outbox_expired_timeout_ms : ℕ
outbox_expired_timeout_ms = 30000

abbrev pub recon_default_ms : ℕ
recon_default_ms = 10000

-- The answers of the transport layer: whether there is a transport, whether
-- `esp_transport_connect` and `esp_transport_poll_read` succeed.
pub record Outside : Type 0 where
  pub has_transport : Bool
  pub connects : Bool
  pub polls : Bool

-- The client with the local variable `last_retransmit`.
pub record Task : Type 0 where
  pub client : Client
  pub last_retransmit : ℕ

abbrev pub delete_expired : Client → Client
delete_expired c = tick_read (record c {
  outbox = (outbox_delete_expired c.outbox (pos (now c)) (pos outbox_expired_timeout_ms)).0;
})

-- `esp_mqtt_client_dispatch_start_error`
abbrev pub start_error : Client → Client
start_error c =
    let event : ClientEvent = record c.event {
      event_id = event_error;
      error_type = error_tcp_transport;
      connect_return_code = 0;
    } in
    esp_mqtt_dispatch_event_with_msgid (record c { event = event })

-- The connection is up: two readings of the clock.
abbrev pub enter_connected : Client → Client
enter_connected c =
    let event : ClientEvent = record c.event {
      event_id = event_connected;
      session_present = mqtt_get_connect_session_present c.in_buffer;
    } in
    let d =
      esp_mqtt_dispatch_event_with_msgid (record c { event = event; state = state_connected }) in
    let e : Client = tick_read (record d { refresh_connection_tick = now d }) in
    tick_read (record e { keepalive_tick = now e })

abbrev pub after_connect : Option (Client × EspErr) → Option Client
after_connect none = none
after_connect (some (c, esp_fail)) = some (esp_mqtt_abort_connection c)
after_connect (some (c, esp_ok)) = some (enter_connected c)

-- MQTT_STATE_INIT
abbrev pub cleared : Client → Client
cleared c = record c { reconnect_bit = false; disconnect_bit = false }

abbrev pub before_connect : Client → Client
before_connect c =
    esp_mqtt_dispatch_event_with_msgid (set_event_id (cleared c) event_before_connect)

unfoldable pub round_init : Outside → Client → Option Client
round_init o c =
    let d = before_connect c in
    if o.has_transport
    then (if o.connects
        then after_connect (esp_mqtt_connect d)
        else some (esp_mqtt_abort_connection (esp_mqtt_client_dispatch_transport_error d)))
    else some (record (start_error (cleared c)) { run = false })

-- A message that was sent again: one of QoS 0 is dropped, another waits for its answer.
abbrev pub after_queued : Item → Client × EspErr → Client
after_queued item (c, esp_fail) = c
after_queued item (c, esp_ok) =
    let o = (outbox_set_tick c.outbox c.pending_msg_id (pos (now c))).0 in
    if (c.pending_msg_type == type_number publish) && (c.pending_publish_qos == 0)
    then record c { outbox = (outbox_delete_item c.outbox item.addr).0 }
    else tick_read (record c { outbox = (outbox_set_pending o c.pending_msg_id transmitted).0 })

abbrev pub overdue : Client → ℕ → ℤ → Bool
overdue c last_retransmit msg_tick =
    let config = c.config in
    ltb config.message_retransmit_timeout (sub64 last_retransmit (pos_part msg_tick))

-- The oldest message that was sent, and the oldest PUBREC that was answered.
abbrev pub resend_transmitted : ℕ → Client → Option (Item × ℤ) → Client
resend_transmitted last c none = c
resend_transmitted last c (some (item, tick)) =
    if overdue c last tick then (mqtt_resend_queued c item).0 else c

abbrev pub client_of : Option (Client × EspErr) → Option Client
client_of none = none
client_of (some p) = some p.0

abbrev pub resend_acknowledged : ℕ → Client → Option (Item × ℤ) → Option Client
resend_acknowledged last c none = some c
resend_acknowledged last c (some (item, tick)) =
    if overdue c last tick then client_of (mqtt_resend_pubrel c item) else some c

abbrev pub with_last : ℕ → Option Client → Option Task
with_last last none = none
with_last last (some c) = some (record { client = c; last_retransmit = last })

unfoldable pub resend_old : Client → ℕ → Option Task
resend_old c last =
    let config = c.config in
    let d = tick_read c in
    let e = tick_read d in
    let f = resend_transmitted (now d) e (outbox_dequeue e.outbox transmitted) in
    if has_timed_out (now c) last config.message_retransmit_timeout
    then with_last (now d) (resend_acknowledged (now d) f (outbox_dequeue f.outbox acknowledged))
    else some (record { client = d; last_retransmit = last })

-- All messages that were never sent come first, one in each round.
abbrev pub resend : Client → ℕ → Option (Item × ℤ) → Option Task
resend c last none = resend_old c last
resend c last (some (item, tick)) =
    some (record { client = after_queued item (mqtt_resend_queued c item); last_retransmit = last })

-- `refresh_connection_after_ms`
abbrev pub refresh : Client → Client
refresh c =
    let config = c.config in
    if ltb 0 config.refresh_connection_after_ms
    then (if has_timed_out (now c) c.refresh_connection_tick config.refresh_connection_after_ms
        then record (esp_mqtt_abort_connection (tick_read c)) { state = state_init }
        else tick_read c)
    else c

abbrev pub after_keepalive : ℕ → Option (Client × EspErr) → Option Task
after_keepalive last none = none
after_keepalive last (some (c, esp_fail)) = some (record { client = c; last_retransmit = last })
after_keepalive last (some (c, esp_ok)) =
    some (record { client = refresh c; last_retransmit = last })

abbrev pub after_resending : Option Task → Option Task
after_resending none = none
after_resending (some t) = after_keepalive t.last_retransmit (process_keepalive t.client)

-- The first time in this state nothing is sent again at once.
abbrev pub first_time : Client → ℕ → Option Task
first_time c last =
    let t = if last == 0 then now c else last in
    let d = if last == 0 then tick_read c else c in
    after_resending (resend d t (outbox_dequeue d.outbox queued))

abbrev pub after_process : ℕ → Option (Client × EspErr) → Option Task
after_process last none = none
after_process last (some (c, esp_fail)) =
    some (record { client = esp_mqtt_abort_connection c; last_retransmit = last })
after_process last (some (c, esp_ok)) = first_time c last

abbrev pub after_goodbye : ℕ → Option (Client × EspErr) → Option Task
after_goodbye last none = none
after_goodbye last (some (c, r)) =
    some (record { client = esp_mqtt_abort_connection c; last_retransmit = last })

-- MQTT_STATE_CONNECTED
unfoldable pub round_connected : Task → Option Task
round_connected t =
    let c = t.client in
    if c.disconnect_bit
    then after_goodbye t.last_retransmit (send_disconnect_msg (record c { disconnect_bit = false }))
    else after_process t.last_retransmit (mqtt_process_receive c)

-- MQTT_STATE_WAIT_RECONNECT
unfoldable pub round_wait : Client → Client
round_wait c =
    let config = c.config in
    let d = tick_read c in
    if config.auto_reconnect
    then (if ltb c.wait_timeout_ms (sub64 (now c) c.reconnect_tick)
        then tick_read (record d { state = state_init; reconnect_tick = now d })
        else d)
    else if c.reconnect_bit
    then record c { reconnect_bit = false; state = state_init; wait_timeout_ms = recon_default_ms }
    else c

abbrev pub round_of : Outside → Task → ClientState → Option Task
round_of o t state_disconnected = some t
round_of o t state_init = with_last t.last_retransmit (round_init o t.client)
round_of o t state_connected = round_connected t
round_of o t state_wait_reconnect =
    some (record { client = round_wait t.client; last_retransmit = t.last_retransmit })

-- Behind the `switch`, a connection whose poll fails is given up.
abbrev pub poll : Outside → Option Task → Option Task
poll o none = none
poll o (some t) =
    let c = t.client in
    if is_connected c.state && not o.polls
    then some (record { client = esp_mqtt_abort_connection c; last_retransmit = t.last_retransmit })
    else some t

unfoldable pub task_round : Outside → Task → Option Task
task_round o t =
    let d : Task = record {
      client = delete_expired t.client;
      last_retransmit = t.last_retransmit;
    } in
    let c = t.client in poll o (round_of o d c.state)

-- Behind the loop.
unfoldable pub task_end : Client → Client
task_end c = record c { outbox = outbox_delete_all_items c.outbox; state = state_disconnected }
