-- ===== src/Client/Task/Handling.antt =====
-- The state of the client through `mqtt_process_receive` of mqtt_client.c.
use esp_mqtt.Base.{
  ℕ, zero, suc, ◌-◌, ◌≡◌, refl, ◌∙◌, Bool, true, false, Option, none, some, List, ltb, ◌==◌,
  if◌then◌else◌, if_cases,
}
use esp_mqtt.Msg.Types.{
  Connection, type_number, subscribe, unsubscribe, publish, suback, unsuback, puback, pubrec,
  pubrel, pubcomp, pingresp, mqtt_get_type, mqtt_get_qos,
}
use esp_mqtt.Msg.Read.{
  mqtt_get_publish_topic, mqtt_get_publish_data, mqtt_get_suback_data, mqtt_get_id,
}
use esp_mqtt.Msg.Build.{mqtt_msg_puback, mqtt_msg_pubrec, mqtt_msg_pubrel, mqtt_msg_pubcomp}
use esp_mqtt.Msg.Layout.{packet}
use esp_mqtt.Outbox.{
  Outbox, EspErr, esp_ok, esp_fail, outbox_delete, outbox_set_pending, acknowledged,
}
use esp_mqtt.Client.State.{
  Client, EventId, event_unsubscribed, event_published, Received, receive_error, mid_message,
  nothing, message, Taken, taken, no_time, no_connection, esp_transport_read, handle_timeout,
  handle_broken, esp_mqtt_client_dispatch_transport_error, esp_mqtt_dispatch_event_with_msgid,
}
use esp_mqtt.Client.Receive.{mqtt_message_receive}
use esp_mqtt.Client.Deliver.{
  next_part, deliver_rest, deliver_payload, deliver_topic, deliver_publish, deliver_codes,
  deliver_suback,
}
use esp_mqtt.Client.Write.{
  Written, all_written, write_failed, write_timeout, write_loop, write_bytes, finish_write, account,
  esp_mqtt_write,
}
use esp_mqtt.Client.Process.{
  Step, is_ok, remove_initiator_message, when_removed, announce, of_write, respond, respond_anyway,
  acknowledge, handle_message, close_message, process_message, after_receive, mqtt_process_receive,
}
use esp_mqtt.Client.Task.Receiving.{mqtt_message_receive-state}

abbrev pub Same : Client → Client → Type 0
Same c d = d.state ≡ c.state

-- A step that gives a client leaves the state alone.
abbrev pub Keeps : Client → Step → Type 0
Keeps c none = Unit
Keeps c (some (d, r)) = d.state ≡ c.state

pub follow : (c d : Client) (s : Step) → Same c d → Keeps d s → Keeps c s
follow c d none h k = tt
follow c d (some (e, r)) h k = k ∙ h

next_part-Same :
    (loop : Client → ℕ → ℕ → Client × EspErr) (c : Client) (n k : ℕ) (t : Taken)
    → ((d : Client) (m j : ℕ) → Same d (loop d m j).0)
    → Same c (next_part loop c n k t).0
unfolding handle_timeout handle_broken esp_mqtt_client_dispatch_transport_error
    esp_mqtt_dispatch_event_with_msgid
next_part-Same loop c n k (taken bs later) h = h _ _ _
next_part-Same loop c n k (no_time later) h = refl
next_part-Same loop c n k (no_connection later) h = refl

deliver_rest-Same :
    (rounds total : ℕ) (c : Client) (n k : ℕ) → Same c (deliver_rest rounds total c n k).0
unfolding deliver_rest
deliver_rest-Same zero total c n k = refl
deliver_rest-Same (suc rounds) total c n k =
    if_cases (λ (p : Client × EspErr). Same c p.0) (ltb n total) _ _
      (λ e.
        next_part-Same (deliver_rest rounds total) c n k
          (esp_transport_read c.reads
            (if ltb c.in_buffer_length (total - n) then c.in_buffer_length else total - n))
          (deliver_rest-Same rounds total))
      (λ e. refl)

deliver_payload-Same :
    (c : Client) (at n : ℕ) (p : Option ℕ × ℕ) → Same c (deliver_payload c at n p).0
deliver_payload-Same c at n (some i, m) =
    deliver_rest-Same (c.message_length - c.in_buffer_read_len) c.message_length _
      c.in_buffer_read_len _
deliver_payload-Same c at n (none, zero) =
    deliver_rest-Same (c.message_length - c.in_buffer_read_len) c.message_length _
      c.in_buffer_read_len 0
deliver_payload-Same c at n (none, suc m) = refl

deliver_topic-Same : (c : Client) (p : Option (ℕ × ℕ)) → Same c (deliver_topic c p).0
deliver_topic-Same c none = refl
deliver_topic-Same c (some (at, n)) =
    deliver_payload-Same c at n (mqtt_get_publish_data c.in_buffer c.in_buffer_read_len)

deliver_publish-Same : (c : Client) → Same c (deliver_publish c).0
unfolding deliver_publish
deliver_publish-Same c =
    deliver_topic-Same c (mqtt_get_publish_topic c.in_buffer c.in_buffer_read_len)

deliver_codes-Same : (c : Client) (p : Option ℕ × ℕ) → Same c (deliver_codes c p).0
unfolding esp_mqtt_dispatch_event_with_msgid
deliver_codes-Same c (at, zero) = refl
deliver_codes-Same c (none, suc n) = refl
deliver_codes-Same c (some at, suc n) = refl

deliver_suback-Same : (c : Client) → Same c (deliver_suback c).0
unfolding deliver_suback
deliver_suback-Same c = deliver_codes-Same c (mqtt_get_suback_data c.in_buffer_read_len)

finish_write-Same : (c : Client) (w : Written) → Same c (finish_write c w).0
unfolding esp_mqtt_client_dispatch_transport_error esp_mqtt_dispatch_event_with_msgid
finish_write-Same c all_written = refl
finish_write-Same c write_failed = refl
finish_write-Same c write_timeout = refl

pub write_bytes-Same : (c : Client) (bytes : List ℕ) → Same c (write_bytes c bytes).0
unfolding write_bytes
write_bytes-Same c bytes =
    finish_write-Same (account c (write_loop c.writes bytes)) (write_loop c.writes bytes).outcome

of_write-Same : (c : Client) (p : Client × Written) → Same c p.0 → Same c (of_write p).0
of_write-Same c (d, all_written) h = h
of_write-Same c (d, write_failed) h = h
of_write-Same c (d, write_timeout) h = h

respond-Keeps : (c : Client) (built : Option Connection) → Keeps c (respond c built)
respond-Keeps c none = tt
respond-Keeps c (some d) =
    let e : Client = record c { connection = d } in
    if_cases (λ (p : Client × EspErr). Same c p.0) (d.len == 0) _ _ (λ _. refl)
      (λ _. of_write-Same c (esp_mqtt_write e) (write_bytes-Same e (packet d)))

respond_anyway-Keeps :
    (c : Client) (change : Outbox → Outbox) (built : Option Connection)
    → Keeps c (respond_anyway c change built)
respond_anyway-Keeps c change none = tt
respond_anyway-Keeps c change (some d) =
    let e : Client = record c { connection = d; outbox = change c.outbox } in
    if_cases (λ (p : Client × EspErr). Same c p.0) (d.len == 0) _ _ (λ _. refl)
      (λ _. write_bytes-Same e (packet d))

acknowledge-Keeps :
    (c : Client) (qos id : ℕ) (p : Client × EspErr) → Same c p.0 → Keeps c (acknowledge qos id p)
acknowledge-Keeps c qos id (d, esp_fail) h = h
acknowledge-Keeps c qos id (d, esp_ok) h =
    if_cases (λ (s : Step). Keeps c s) (qos == 1) _ _
      (λ _. follow c d (respond d (mqtt_msg_puback d.connection id)) h (respond-Keeps d _))
      (λ _.
        if_cases (λ (s : Step). Keeps c s) (qos == 2) _ _
          (λ _. follow c d (respond d (mqtt_msg_pubrec d.connection id)) h (respond-Keeps d _))
          (λ _. h))

announce-Same : (id : EventId) (c : Client) → Same c (announce id c).0
unfolding esp_mqtt_dispatch_event_with_msgid
announce-Same id c = refl

removed_or_not :
    (c : Client) (act : Client → Client × EspErr) (o : Outbox) (hit : Bool)
    → ((d : Client) → Same d (act d).0)
    → Keeps c (when_removed act (record c { outbox = o }, hit))
removed_or_not c act o true h = h (record c { outbox = o })
removed_or_not c act o false h = refl

when_removed-Keeps :
    (c : Client) (act : Client → Client × EspErr) (type : esp_mqtt.Msg.Types.MessageType) (id : ℕ)
    → ((d : Client) → Same d (act d).0)
    → Keeps c (when_removed act (remove_initiator_message c type id))
unfolding remove_initiator_message
when_removed-Keeps c act type id h =
    removed_or_not c act (outbox_delete c.outbox id (type_number type)).0
      (is_ok (outbox_delete c.outbox id (type_number type)).1) h

handle_message-Keeps : (c : Client) (type qos id : ℕ) → Keeps c (handle_message c type qos id)
unfolding handle_message
handle_message-Keeps c type qos id =
    if_cases (λ (s : Step). Keeps c s) (type == type_number suback) _ _
      (λ _. when_removed-Keeps c deliver_suback subscribe id deliver_suback-Same)
      (λ _.
        if_cases (λ (s : Step). Keeps c s) (type == type_number unsuback) _ _
          (λ _.
            when_removed-Keeps c (announce event_unsubscribed) unsubscribe id
              (announce-Same event_unsubscribed))
          (λ _.
            if_cases (λ (s : Step). Keeps c s) (type == type_number publish) _ _
              (λ _. acknowledge-Keeps c qos id (deliver_publish c) (deliver_publish-Same c))
              (λ _.
                if_cases (λ (s : Step). Keeps c s) (type == type_number puback) _ _
                  (λ _.
                    when_removed-Keeps c (announce event_published) publish id
                      (announce-Same event_published))
                  (λ _.
                    if_cases (λ (s : Step). Keeps c s) (type == type_number pubrec) _ _
                      (λ _.
                        respond_anyway-Keeps c (λ o. (outbox_set_pending o id acknowledged).0)
                          (mqtt_msg_pubrel c.connection id))
                      (λ _.
                        if_cases (λ (s : Step). Keeps c s) (type == type_number pubrel) _ _
                          (λ _. respond_anyway-Keeps c (λ o. o) (mqtt_msg_pubcomp c.connection id))
                          (λ _.
                            if_cases (λ (s : Step). Keeps c s) (type == type_number pubcomp) _ _
                              (λ _.
                                when_removed-Keeps c (announce event_published) publish id
                                  (announce-Same event_published))
                              (λ _.
                                if_cases (λ (s : Step). Keeps c s) (type == type_number pingresp) _
                                  _ (λ _. refl) (λ _. refl))))))))

close_message-Keeps : (c : Client) (s : Step) → Keeps c s → Keeps c (close_message s)
close_message-Keeps c none h = tt
close_message-Keeps c (some (d, esp_ok)) h = h
close_message-Keeps c (some (d, esp_fail)) h = h

process_message-Keeps : (c : Client) → Keeps c (process_message c)
unfolding process_message
process_message-Keeps c = close_message-Keeps c _ (
    handle_message-Keeps c (mqtt_get_type c.in_buffer) (mqtt_get_qos c.in_buffer)
      (mqtt_get_id c.in_buffer c.message_length))

after_receive-Keeps :
    (c : Client) (n : ℕ) (p : Client × Received) → Same c p.0 → Keeps c (after_receive n p)
after_receive-Keeps c n (d, nothing) h = h
after_receive-Keeps c n (d, mid_message) h = h
after_receive-Keeps c n (d, receive_error) h = h
after_receive-Keeps c n (d, message) h = follow c d (process_message d) h (process_message-Keeps d)

pub mqtt_process_receive-Keeps : (c : Client) → Keeps c (mqtt_process_receive c)
unfolding mqtt_process_receive
mqtt_process_receive-Keeps c =
    after_receive-Keeps c c.in_buffer_read_len (mqtt_message_receive c)
      (mqtt_message_receive-state c)
