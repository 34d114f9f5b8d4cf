-- ===== src/Client/Keepalive.antt =====
-- `process_keepalive` of mqtt_client.c.
pub mod Silence
use esp_mqtt.Base.{ℕ, ◌*◌, ◌/◌, Bool, true, false, Option, none, some, ltb, if◌then◌else◌}
use esp_mqtt.Outbox.{EspErr, esp_ok, esp_fail}
use esp_mqtt.Client.State.{Client, has_timed_out, now, tick_read}
use esp_mqtt.Client.Abort.{esp_mqtt_abort_connection}
use esp_mqtt.Client.Request.{esp_mqtt_client_ping}

abbrev pub keepalive_ms : Client → ℕ
keepalive_ms c = let info = c.information in info.keepalive * 1000

-- PINGRESP is missing: the connection is given up in time.
abbrev pub while_waiting : Client → Client × EspErr
while_waiting c =
    if has_timed_out (now c) c.keepalive_tick (keepalive_ms c)
    then (record (esp_mqtt_abort_connection (tick_read c)) { wait_for_ping_resp = false }, esp_fail)
    else (tick_read c, esp_ok)

abbrev pub after_ping : Option (Client × EspErr) → Option (Client × EspErr)
after_ping none = none
after_ping (some (c, esp_fail)) = some (esp_mqtt_abort_connection c, esp_fail)
after_ping (some (c, esp_ok)) = some (record c { wait_for_ping_resp = true }, esp_ok)

abbrev pub while_quiet : Client → Option (Client × EspErr)
while_quiet c =
    if has_timed_out (now c) c.keepalive_tick (keepalive_ms c / 2)
    then after_ping (esp_mqtt_client_ping (tick_read c))
    else some (tick_read c, esp_ok)

unfoldable pub process_keepalive : Client → Option (Client × EspErr)
process_keepalive c =
    let info = c.information in
    if ltb 0 info.keepalive
    then (if c.wait_for_ping_resp then some (while_waiting c) else while_quiet c)
    else some (c, esp_ok)
