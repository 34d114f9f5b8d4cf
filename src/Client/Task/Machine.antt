-- ===== src/Client/Task/Machine.antt =====
-- The states of the client through one round of `esp_mqtt_task` of mqtt_client.c.
use mathlib.Core.Path.{subst}
use esp_mqtt.Base.{
  ℕ, ◌≡◌, refl, sym, ap, ◌∙◌, inl, inr, false, not, ◌&&◌, Option, none, some, ltb, ◌==◌,
  if◌then◌else◌, if_cases,
}
use esp_mqtt.Base.Bytes.{sub64}
use esp_mqtt.Outbox.{EspErr, esp_ok, esp_fail, queued, outbox_dequeue}
use esp_mqtt.Client.State.{
  Client, ClientState, state_init, state_disconnected, state_connected, state_wait_reconnect,
  has_timed_out, now, tick_read, esp_mqtt_dispatch_event_with_msgid,
}
use esp_mqtt.Client.Abort.{esp_mqtt_abort_connection}
use esp_mqtt.Client.Send.{is_connected}
use esp_mqtt.Client.Request.{send_disconnect_msg}
use esp_mqtt.Client.Connect.{esp_mqtt_connect}
use esp_mqtt.Client.Keepalive.{process_keepalive}
use esp_mqtt.Client.Process.{mqtt_process_receive}
use esp_mqtt.Client.Task.{
  Outside, Task, delete_expired, before_connect, after_connect, round_init, with_last, resend,
  refresh, after_keepalive, after_resending, first_time, after_process, after_goodbye,
  round_connected, round_wait, round_of, poll, task_round,
}
use esp_mqtt.Client.Task.Handling.{Keeps, mqtt_process_receive-Keeps}
use esp_mqtt.Client.Task.Live.{Live, LiveStep, LiveTask, resend-Live, process_keepalive-Live}

-- The moves between the four states that the client's design allows.
pub data Move : ClientState → ClientState → Type 0 where
  stays : (s : ClientState) → Move s s
  comes_up : Move state_init state_connected
  fails : Move state_init state_wait_reconnect
  goes_down : Move state_connected state_wait_reconnect
  refreshes : Move state_connected state_init
  tries_again : Move state_wait_reconnect state_init

-- A round leads along the moves, if it gives a result.
abbrev Moves : ClientState → Option Task → Type 0
Moves s none = Unit
Moves s (some t) = let c = t.client in Move s c.state

abbrev MovesClient : ClientState → Option Client → Type 0
MovesClient s none = Unit
MovesClient s (some c) = Move s c.state

Live-Move : (c : Client) → Live c → Move state_connected c.state
Live-Move c (inl h) = subst (Move state_connected) (sym h) (stays state_connected)
Live-Move c (inr h) = subst (Move state_connected) (sym h) goes_down

abbrev MoveTo : ClientState → Client → Type 0
MoveTo s c = Move s c.state

refresh-Moves : (c : Client) → Live c → Move state_connected (let d = refresh c in d.state)
refresh-Moves c h =
    let config = c.config in
    if_cases (MoveTo state_connected) (ltb 0 config.refresh_connection_after_ms) _ _
      (λ _.
        if_cases (MoveTo state_connected)
          (has_timed_out (now c) c.refresh_connection_tick config.refresh_connection_after_ms) _ _
          (λ _. refreshes) (λ _. Live-Move c h))
      (λ _. Live-Move c h)

after_keepalive-Moves :
    (last : ℕ) (s : Option (Client × EspErr))
    → LiveStep s
    → Moves state_connected (after_keepalive last s)
after_keepalive-Moves last none h = tt
after_keepalive-Moves last (some (c, esp_fail)) h = Live-Move c h
after_keepalive-Moves last (some (c, esp_ok)) h = refresh-Moves c h

after_resending-Moves : (o : Option Task) → LiveTask o → Moves state_connected (after_resending o)
after_resending-Moves none h = tt
after_resending-Moves (some t) h =
    after_keepalive-Moves t.last_retransmit (process_keepalive t.client)
      (process_keepalive-Live t.client h)

first_time-Moves : (c : Client) (last : ℕ) → Live c → Moves state_connected (first_time c last)
first_time-Moves c last h =
    let t = if last == 0 then now c else last in
    let d = if last == 0 then tick_read c else c in
    let live : Live d = if_cases Live (last == 0) (tick_read c) c (λ _. h) (λ _. h) in
    after_resending-Moves (resend d t (outbox_dequeue d.outbox queued))
      (resend-Live d t (outbox_dequeue d.outbox queued) live)

after_process-Moves :
    (c : Client) (last : ℕ) (s : Option (Client × EspErr))
    → c.state ≡ state_connected
    → Keeps c s
    → Moves state_connected (after_process last s)
unfolding esp_mqtt_abort_connection esp_mqtt_dispatch_event_with_msgid
after_process-Moves c last none h k = tt
after_process-Moves c last (some (d, esp_fail)) h k = goes_down
after_process-Moves c last (some (d, esp_ok)) h k = first_time-Moves d last (inl (k ∙ h))

after_goodbye-Moves :
    (last : ℕ) (s : Option (Client × EspErr)) → Moves state_connected (after_goodbye last s)
unfolding esp_mqtt_abort_connection esp_mqtt_dispatch_event_with_msgid
after_goodbye-Moves last none = tt
after_goodbye-Moves last (some p) = goes_down

round_connected-Moves :
    (t : Task)
    → (let c = t.client in c.state ≡ state_connected)
    → Moves state_connected (round_connected t)
unfolding round_connected
round_connected-Moves t h =
    let c = t.client in
    let last = t.last_retransmit in
    if_cases (Moves state_connected) c.disconnect_bit _ _
      (λ _. after_goodbye-Moves last (send_disconnect_msg (record c { disconnect_bit = false })))
      (λ _. after_process-Moves c last (mqtt_process_receive c) h (mqtt_process_receive-Keeps c))

after_connect-Moves : (s : Option (Client × EspErr)) → MovesClient state_init (after_connect s)
unfolding esp_mqtt_abort_connection esp_mqtt_dispatch_event_with_msgid
after_connect-Moves none = tt
after_connect-Moves (some (c, esp_fail)) = fails
after_connect-Moves (some (c, esp_ok)) = comes_up

round_init-Moves :
    (o : Outside) (c : Client) → c.state ≡ state_init → MovesClient state_init (round_init o c)
unfolding round_init esp_mqtt_abort_connection esp_mqtt_dispatch_event_with_msgid
round_init-Moves o c h =
    if_cases (MovesClient state_init) o.has_transport _ _
      (λ _.
        if_cases (MovesClient state_init) o.connects _ _
          (λ _. after_connect-Moves (esp_mqtt_connect (before_connect c))) (λ _. fails))
      (λ _. subst (Move state_init) (sym h) (stays state_init))

with_last-Moves :
    (s : ClientState) (last : ℕ) (o : Option Client) → MovesClient s o → Moves s (with_last last o)
with_last-Moves s last none h = tt
with_last-Moves s last (some c) h = h

round_wait-Moves :
    (c : Client)
    → c.state ≡ state_wait_reconnect
    → Move state_wait_reconnect (let d = round_wait c in d.state)
unfolding round_wait
round_wait-Moves c h =
    let config = c.config in
    let same = subst (Move state_wait_reconnect) (sym h) (stays state_wait_reconnect) in
    if_cases (MoveTo state_wait_reconnect) config.auto_reconnect _ _
      (λ _.
        if_cases (MoveTo state_wait_reconnect)
          (ltb c.wait_timeout_ms (sub64 (now c) c.reconnect_tick)) _ _ (λ _. tries_again)
          (λ _. same))
      (λ _.
        if_cases (MoveTo state_wait_reconnect) c.reconnect_bit _ _ (λ _. tries_again) (λ _. same))

-- The poll behind the `switch`.
poll-Moves :
    (o : Outside) (s : ClientState) (r : Option Task)
    → Move s state_wait_reconnect
    → Moves s r
    → Moves s (poll o r)
unfolding esp_mqtt_abort_connection esp_mqtt_dispatch_event_with_msgid
poll-Moves o s none down h = tt
poll-Moves o s (some t) down h =
    let c = t.client in
    if_cases (Moves s) (is_connected c.state && not o.polls) _ _ (λ _. down) (λ _. h)

poll_idle :
    (o : Outside) (t : Task)
    → (let c = t.client in c.state ≡ state_disconnected)
    → poll o (some t) ≡ some t
poll_idle o t h =
    ap
      (λ s.
        if is_connected s && not o.polls
        then some (record {
          client = esp_mqtt_abort_connection t.client;
          last_retransmit = t.last_retransmit;
        })
        else some t)
      h

round_of-Moves :
    (o : Outside) (t : Task) (s : ClientState)
    → (let c = t.client in c.state ≡ s)
    → Moves s (poll o (round_of o t s))
round_of-Moves o t state_disconnected h =
    subst (Moves state_disconnected) (sym (poll_idle o t h))
      (subst (Move state_disconnected) (sym h) (stays state_disconnected))
round_of-Moves o t state_init h = poll-Moves o state_init _ fails (
    with_last-Moves state_init t.last_retransmit (round_init o t.client)
      (round_init-Moves o t.client h))
round_of-Moves o t state_connected h =
    poll-Moves o state_connected (round_connected t) goes_down (round_connected-Moves t h)
round_of-Moves o t state_wait_reconnect h =
    poll-Moves o state_wait_reconnect (round_of o t state_wait_reconnect)
      (stays state_wait_reconnect) (round_wait-Moves t.client h)

-- A round of the task that gives a result leads from the client's state along the moves that the
-- design allows: from INIT up to CONNECTED or, when the connection fails, to WAIT_RECONNECT; from
-- CONNECTED to WAIT_RECONNECT or, to refresh the connection, to INIT; from WAIT_RECONNECT to INIT;
-- or it stays. No other move is made, whatever arrives and whatever the transport answers.
pub task_round-Move :
    (o : Outside) (t u : Task)
    → task_round o t ≡ some u
    → Move (let c = t.client in c.state) (let d = u.client in d.state)
unfolding task_round
task_round-Move o t u e =
    let c = t.client in
    let d : Task = record { client = delete_expired c; last_retransmit = t.last_retransmit } in
    subst (Moves c.state) e (round_of-Moves o d c.state refl)
