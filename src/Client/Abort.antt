-- ===== src/Client/Abort.antt =====
-- `esp_mqtt_abort_connection` of mqtt_client.c. Closing the transport is left out.
use esp_mqtt.Base.{Bool, false, if◌then◌else◌}
use esp_mqtt.Msg.Types.{subscribe, unsubscribe, type_number}
use esp_mqtt.Outbox.{Outbox, outbox_delete_message_type}
use esp_mqtt.Client.State.{
  Client, event_disconnected, set_event_id, state_wait_reconnect, now, tick_read,
  esp_mqtt_dispatch_event_with_msgid,
}

-- The subscriptions that wait for an answer are dropped with a clean session.
unfoldable pub drop_requests : Bool → Outbox → Outbox
drop_requests clean o =
    if clean
    then (outbox_delete_message_type (outbox_delete_message_type o (type_number subscribe)).0
        (type_number unsubscribe)).0
    else o

unfoldable pub esp_mqtt_abort_connection : Client → Client
esp_mqtt_abort_connection c =
    let info = c.information in
    let config = c.config in
    let d : Client = record c {
      outbox = drop_requests info.clean_session c.outbox;
      wait_timeout_ms = config.reconnect_timeout_ms;
      reconnect_tick = now c;
      state = state_wait_reconnect;
      wait_for_ping_resp = false;
    } in
    esp_mqtt_dispatch_event_with_msgid (set_event_id (tick_read d) event_disconnected)
