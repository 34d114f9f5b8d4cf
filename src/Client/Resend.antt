-- ===== src/Client/Resend.antt =====
-- `mqtt_resend_queued` and `mqtt_resend_pubrel` of mqtt_client.c. While a stored message is sent,
-- `outbound_message` is its length, and the bytes stand in the outbox.
use esp_mqtt.Base.{ℕ, ◌%◌, Bool, ◌&&◌, Option, none, some, map, ltb, ◌==◌, if◌then◌else◌, take}
use esp_mqtt.Msg.Types.{Connection, publish, type_number, mqtt_set_dup}
use esp_mqtt.Msg.Build.{mqtt_msg_pubrel}
use esp_mqtt.Outbox.{Item, Outbox, EspErr, esp_ok, esp_fail, same_state, transmitted}
use esp_mqtt.Client.State.{Client}
use esp_mqtt.Client.Write.{
  Written, all_written, write_failed, write_timeout, write_bytes, esp_mqtt_write,
}
use esp_mqtt.Client.Abort.{esp_mqtt_abort_connection}

-- What `outbox_item_get_data` stores.
abbrev pub decoded : Client → Item → Client
decoded c item =
    let d : Connection = record c.connection { len = item.len } in
    record c {
      connection = d;
      pending_msg_id = item.msg_id % 65536;
      pending_msg_type = item.msg_type;
      pending_publish_qos = item.msg_qos;
    }

-- A PUBLISH that was sent before is a duplicate.
abbrev pub sent_before : Item → Bool
sent_before item =
    (item.msg_type == type_number publish)
    && ltb 0 item.msg_qos
    && same_state item.pending transmitted

-- The flag is set in the item's own block.
abbrev pub mark_item : ℕ → Item → Item
mark_item addr item =
    if item.addr == addr then record item { buffer = mqtt_set_dup item.buffer } else item

unfoldable pub mark_duplicate : Outbox → ℕ → Outbox
mark_duplicate o addr = record o { items = map (mark_item addr) o.items }

abbrev pub after_resend : Client × Written → Client × EspErr
after_resend (c, all_written) = (c, esp_ok)
after_resend (c, write_failed) = (esp_mqtt_abort_connection c, esp_fail)
after_resend (c, write_timeout) = (esp_mqtt_abort_connection c, esp_fail)

unfoldable pub mqtt_resend_queued : Client → Item → Client × EspErr
mqtt_resend_queued c item =
    let d = decoded c item in
    if sent_before item
    then after_resend (
        write_bytes (record d { outbox = mark_duplicate c.outbox item.addr })
          (take item.len (mqtt_set_dup item.buffer)))
    else after_resend (write_bytes d (take item.len item.buffer))

abbrev pub pubrel_built : Client → Option Connection → Option (Client × EspErr)
pubrel_built c none = none
pubrel_built c (some d) =
    let e : Client = record c { connection = d } in
    some (if d.len == 0 then (e, esp_fail) else after_resend (esp_mqtt_write e))

unfoldable pub mqtt_resend_pubrel : Client → Item → Option (Client × EspErr)
mqtt_resend_pubrel c item =
    let d = decoded c item in pubrel_built d (mqtt_msg_pubrel d.connection d.pending_msg_id)
