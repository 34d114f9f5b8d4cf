-- ===== src/Client/Task/Connecting.antt =====
-- What comes of an attempt to connect: `esp_mqtt_connect` and the state MQTT_STATE_INIT of
-- `esp_mqtt_task` in mqtt_client.c.
use mathlib.Core.Path.{subst}
use esp_mqtt.Base.{
  suc, ◌≡◌, refl, ◌⊎◌, inl, inr, false, Option, none, some, List, [], ◌∷◌, ◌++◌, length, ◌==◌,
  ==_iff, if_cases,
}
use esp_mqtt.Msg.Types.{
  Connection, connack, type_number, mqtt_get_type, mqtt_get_connect_return_code,
}
use esp_mqtt.Msg.Connect.{mqtt_msg_connect}
use esp_mqtt.Outbox.{EspErr, esp_ok, esp_fail}
use esp_mqtt.Client.State.{
  Client, ClientEvent, EventId, state_connected, state_wait_reconnect, event_disconnected,
  event_connected, Received, receive_error, mid_message, nothing, message,
  mqtt_reset_pending_message, now, tick_read, esp_mqtt_dispatch_event_with_msgid,
  esp_mqtt_client_dispatch_transport_error,
}
use esp_mqtt.Client.Write.{Written, all_written, write_failed, write_timeout, esp_mqtt_write}
use esp_mqtt.Client.Abort.{esp_mqtt_abort_connection}
use esp_mqtt.Client.Connect.{
  examine_connack, after_connack, connack_loop, after_request, request_connection, esp_mqtt_connect,
}
use esp_mqtt.Client.Task.{Outside, before_connect, after_connect, round_init}

-- The first byte of the input buffer has the type CONNACK, and the byte where a CONNACK has its
-- return code, at the offset 3 of the buffer, is 0. A packet of two or three bytes leaves there what
-- stood in the buffer before.
abbrev Accepts : Client → Type 0
Accepts c =
    (mqtt_get_type c.in_buffer ≡ type_number connack)
    × (mqtt_get_connect_return_code c.in_buffer ≡ 0)

abbrev Accepted : Client × EspErr → Type 0
Accepted (c, esp_fail) = Unit
Accepted (c, esp_ok) = Accepts c × (c.in_buffer_read_len ≡ 0)

examine_connack-Accepted : (c : Client) → Accepted (examine_connack c)
examine_connack-Accepted c =
    let type = mqtt_get_type c.in_buffer in
    let code = mqtt_get_connect_return_code c.in_buffer in
    if_cases Accepted (type == type_number connack) _ _
      (λ t.
        if_cases Accepted (code == 0) _ _
          (λ z. (((==_iff type (type_number connack)).0 t, (==_iff code 0).0 z), refl)) (λ z. tt))
      (λ t. tt)

after_connack-Accepted : (p : Client × Received) → Accepted (after_connack p)
after_connack-Accepted (c, message) = examine_connack-Accepted c
after_connack-Accepted (c, nothing) = tt
after_connack-Accepted (c, mid_message) = tt
after_connack-Accepted (c, receive_error) = tt

after_request-Accepted : (p : Client × Written) → Accepted (after_request p)
after_request-Accepted (c, write_failed) = tt
after_request-Accepted (c, write_timeout) = tt
after_request-Accepted (c, all_written) =
    let d : Client = record c { in_buffer_read_len = 0; message_length = 0 } in
    after_connack-Accepted (connack_loop (suc (length c.ticks)) (now d) (tick_read d))

abbrev AcceptedStep : Option (Client × EspErr) → Type 0
AcceptedStep none = Unit
AcceptedStep (some p) = Accepted p

request_connection-Accepted :
    (c : Client) (b : Option Connection) → AcceptedStep (request_connection c b)
request_connection-Accepted c none = tt
request_connection-Accepted c (some d) =
    if_cases Accepted (d.len == 0) _ _ (λ _. tt) (λ _. after_request-Accepted (esp_mqtt_write _))

esp_mqtt_connect-Accepted : (c : Client) → AcceptedStep (esp_mqtt_connect c)
unfolding esp_mqtt_connect
esp_mqtt_connect-Accepted c =
    let d = mqtt_reset_pending_message (record c { wait_for_ping_resp = false }) in
    request_connection-Accepted d (mqtt_msg_connect d.connection d.information)

-- The last event dispatched.
abbrev EndsWith : Client → EventId → Type 0
EndsWith c id =
    (before : List ClientEvent) × ((e : ClientEvent) × ((c.events ≡ before ++ (e ∷ []))
        × (e.event_id ≡ id)))

-- The three outcomes of a round in the state MQTT_STATE_INIT.
abbrev pub Up : Client → Type 0
Up d = (d.state ≡ state_connected) × Accepts d × EndsWith d event_connected

abbrev pub Down : Client → Type 0
Down d = (d.state ≡ state_wait_reconnect) × EndsWith d event_disconnected

abbrev pub Settled : Outside → Client → Option Client → Type 0
Settled o c none = Unit
Settled o c (some d) =
    Up d ⊎ (Down d ⊎ ((o.has_transport ≡ false) × (d.run ≡ false) × (d.state ≡ c.state)))

abort-Down : (c : Client) → Down (esp_mqtt_abort_connection c)
unfolding esp_mqtt_abort_connection esp_mqtt_dispatch_event_with_msgid
abort-Down c = (refl, (c.events, (_, (refl, refl))))

after_connect-Settled :
    (o : Outside) (c : Client) (s : Option (Client × EspErr))
    → AcceptedStep s
    → Settled o c (after_connect s)
unfolding esp_mqtt_dispatch_event_with_msgid
after_connect-Settled o c none h = tt
after_connect-Settled o c (some (d, esp_fail)) h = inr (inl (abort-Down d))
after_connect-Settled o c (some (d, esp_ok)) h = inl (refl, h.0, (d.events, (_, (refl, refl))))

-- A round in MQTT_STATE_INIT that gives a result has one of three outcomes, whatever the broker and
-- the transport do. The client is CONNECTED, and then the first byte of the input
-- buffer has the type CONNACK, the byte at the offset 3 of the buffer, which may be behind the end of
-- the packet, is 0, and the last event is MQTT_EVENT_CONNECTED; or it is in WAIT_RECONNECT, and the last event
-- is MQTT_EVENT_DISCONNECTED; or there is no transport, the task is told to end, and the state is as
-- before.
pub round_init-Settled :
    (o : Outside) (c d : Client) → round_init o c ≡ some d → Settled o c (some d)
unfolding round_init esp_mqtt_dispatch_event_with_msgid
round_init-Settled o c d e = subst (Settled o c) e (
    if_cases (Settled o c) o.has_transport _ _
      (λ _.
        if_cases (Settled o c) o.connects _ _
          (λ _.
            after_connect-Settled o c (esp_mqtt_connect (before_connect c))
              (esp_mqtt_connect-Accepted (before_connect c)))
          (λ _.
            inr (inl (abort-Down (esp_mqtt_client_dispatch_transport_error (before_connect c))))))
      (λ t. inr (inr (t, refl, refl))))
