-- ===== src/Client/Task/Live.antt =====
-- The state of a connected client through resending and keep-alive of mqtt_client.c.
use esp_mqtt.Base.{
  ℕ, ◌/◌, ◌≡◌, refl, ◌∙◌, ◌⊎◌, inl, inr, ◌&&◌, Option, none, some, List, ltb, ◌==◌, if_cases, take,
}
use esp_mqtt.Base.Int.{ℤ}
use esp_mqtt.Msg.Types.{Connection, publish, type_number, mqtt_set_dup}
use esp_mqtt.Msg.Layout.{packet}
use esp_mqtt.Msg.Build.{mqtt_msg_pingreq, mqtt_msg_pubrel}
use esp_mqtt.Outbox.{Item, EspErr, esp_ok, esp_fail, transmitted, acknowledged, outbox_dequeue}
use esp_mqtt.Client.State.{
  Client, state_connected, state_wait_reconnect, has_timed_out, now, tick_read,
  esp_mqtt_dispatch_event_with_msgid,
}
use esp_mqtt.Client.Write.{
  Written, all_written, write_failed, write_timeout, write_bytes, esp_mqtt_write,
}
use esp_mqtt.Client.Abort.{esp_mqtt_abort_connection}
use esp_mqtt.Client.Request.{ping_built, esp_mqtt_client_ping}
use esp_mqtt.Client.Resend.{
  decoded, sent_before, mark_duplicate, after_resend, mqtt_resend_queued, pubrel_built,
  mqtt_resend_pubrel,
}
use esp_mqtt.Client.Keepalive.{keepalive_ms, while_waiting, after_ping, process_keepalive}
use esp_mqtt.Client.Task.{
  Task, after_queued, overdue, resend_transmitted, client_of, resend_acknowledged, with_last,
  resend_old, resend,
}
use esp_mqtt.Client.Task.Handling.{Same, write_bytes-Same}

-- A client that was connected, and whose connection may have been given up.
abbrev pub Live : Client → Type 0
Live c = (c.state ≡ state_connected) ⊎ (c.state ≡ state_wait_reconnect)

Live-Same : (c d : Client) → Same c d → Live c → Live d
Live-Same c d e (inl h) = inl (e ∙ h)
Live-Same c d e (inr h) = inr (e ∙ h)

abbrev pub LiveStep : Option (Client × EspErr) → Type 0
LiveStep none = Unit
LiveStep (some (c, r)) = Live c

pub abort-Live : (c : Client) → Live (esp_mqtt_abort_connection c)
unfolding esp_mqtt_abort_connection esp_mqtt_dispatch_event_with_msgid
abort-Live c = inr refl

after_resend-Live : (p : Client × Written) → Live p.0 → Live (after_resend p).0
after_resend-Live (c, all_written) h = h
after_resend-Live (c, write_failed) h = abort-Live c
after_resend-Live (c, write_timeout) h = abort-Live c

written-Live : (c : Client) (bytes : List ℕ) → Live c → Live (after_resend (write_bytes c bytes)).0
written-Live c bytes h =
    after_resend-Live (write_bytes c bytes)
      (Live-Same c (write_bytes c bytes).0 (write_bytes-Same c bytes) h)

mqtt_resend_queued-Live : (c : Client) (item : Item) → Live c → Live (mqtt_resend_queued c item).0
unfolding mqtt_resend_queued
mqtt_resend_queued-Live c item h =
    if_cases (λ (p : Client × EspErr). Live p.0) (sent_before item) _ _
      (λ _.
        written-Live (record (decoded c item) { outbox = mark_duplicate c.outbox item.addr })
          (take item.len (mqtt_set_dup item.buffer)) h)
      (λ _. written-Live (decoded c item) (take item.len item.buffer) h)

after_queued-Live : (item : Item) (p : Client × EspErr) → Live p.0 → Live (after_queued item p)
after_queued-Live item (c, esp_fail) h = h
after_queued-Live item (c, esp_ok) h =
    if_cases (λ (d : Client). Live d)
      ((c.pending_msg_type == type_number publish) && (c.pending_publish_qos == 0)) _ _ (λ _. h)
      (λ _. h)

resend_transmitted-Live :
    (last : ℕ) (c : Client) (o : Option (Item × ℤ)) → Live c → Live (resend_transmitted last c o)
resend_transmitted-Live last c none h = h
resend_transmitted-Live last c (some (item, tick)) h =
    if_cases (λ (d : Client). Live d) (overdue c last tick) _ _
      (λ _. mqtt_resend_queued-Live c item h) (λ _. h)

abbrev LiveClient : Option Client → Type 0
LiveClient none = Unit
LiveClient (some c) = Live c

client_of-Live : (s : Option (Client × EspErr)) → LiveStep s → LiveClient (client_of s)
client_of-Live none h = tt
client_of-Live (some p) h = h

pubrel_built-Live : (c : Client) (b : Option Connection) → Live c → LiveStep (pubrel_built c b)
pubrel_built-Live c none h = tt
pubrel_built-Live c (some d) h =
    if_cases (λ (p : Client × EspErr). Live p.0) (d.len == 0) _ _ (λ _. h)
      (λ _. written-Live (record c { connection = d }) (packet d) h)

mqtt_resend_pubrel-Live : (c : Client) (item : Item) → Live c → LiveStep (mqtt_resend_pubrel c item)
unfolding mqtt_resend_pubrel
mqtt_resend_pubrel-Live c item h =
    let d = decoded c item in pubrel_built-Live d (mqtt_msg_pubrel d.connection d.pending_msg_id) h

resend_acknowledged-Live :
    (last : ℕ) (c : Client) (o : Option (Item × ℤ))
    → Live c
    → LiveClient (resend_acknowledged last c o)
resend_acknowledged-Live last c none h = h
resend_acknowledged-Live last c (some (item, tick)) h =
    if_cases LiveClient (overdue c last tick) _ _
      (λ _. client_of-Live (mqtt_resend_pubrel c item) (mqtt_resend_pubrel-Live c item h)) (λ _. h)

abbrev pub LiveTask : Option Task → Type 0
LiveTask none = Unit
LiveTask (some t) = Live t.client

with_last-Live : (last : ℕ) (o : Option Client) → LiveClient o → LiveTask (with_last last o)
with_last-Live last none h = tt
with_last-Live last (some c) h = h

resend_old-Live : (c : Client) (last : ℕ) → Live c → LiveTask (resend_old c last)
unfolding resend_old
resend_old-Live c last h =
    let config = c.config in
    let d = tick_read c in
    let e = tick_read d in
    let f = resend_transmitted (now d) e (outbox_dequeue e.outbox transmitted) in
    if_cases LiveTask (has_timed_out (now c) last config.message_retransmit_timeout) _ _
      (λ _. with_last-Live (now d) _ (
        resend_acknowledged-Live (now d) f (outbox_dequeue f.outbox acknowledged)
          (resend_transmitted-Live (now d) e (outbox_dequeue e.outbox transmitted) h)))
      (λ _. h)

pub resend-Live :
    (c : Client) (last : ℕ) (o : Option (Item × ℤ)) → Live c → LiveTask (resend c last o)
resend-Live c last none h = resend_old-Live c last h
resend-Live c last (some (item, tick)) h =
    after_queued-Live item (mqtt_resend_queued c item) (mqtt_resend_queued-Live c item h)

after_ping-Live : (s : Option (Client × EspErr)) → LiveStep s → LiveStep (after_ping s)
after_ping-Live none h = tt
after_ping-Live (some (c, esp_fail)) h = abort-Live c
after_ping-Live (some (c, esp_ok)) h = h

ping-Live : (c : Client) (b : Option Connection) → Live c → LiveStep (ping_built c b)
ping-Live c none h = tt
ping-Live c (some d) h =
    let e : Client = record c { connection = d } in
    if_cases (λ (p : Client × EspErr). Live p.0) (d.len == 0) _ _ (λ _. h)
      (λ _. Live-Same c (esp_mqtt_write e).0 (write_bytes-Same e (packet d)) h)

while_waiting-Live : (c : Client) → Live c → Live (while_waiting c).0
unfolding esp_mqtt_abort_connection esp_mqtt_dispatch_event_with_msgid
while_waiting-Live c h =
    if_cases (λ (p : Client × EspErr). Live p.0)
      (has_timed_out (now c) c.keepalive_tick (keepalive_ms c)) _ _ (λ _. inr refl) (λ _. h)

pub process_keepalive-Live : (c : Client) → Live c → LiveStep (process_keepalive c)
unfolding process_keepalive esp_mqtt_client_ping
process_keepalive-Live c h =
    let info = c.information in
    if_cases LiveStep (ltb 0 info.keepalive) _ _
      (λ _.
        if_cases LiveStep c.wait_for_ping_resp _ _ (λ _. while_waiting-Live c h)
          (λ _.
            if_cases LiveStep (has_timed_out (now c) c.keepalive_tick (keepalive_ms c / 2)) _ _
              (λ _. after_ping-Live _ (ping-Live (tick_read c) (mqtt_msg_pingreq c.connection) h))
              (λ _. h)))
      (λ _. h)
