-- ===== src/Client/Task/Receiving.antt =====
-- The state of the client through `mqtt_message_receive` of mqtt_client.c.
use esp_mqtt.Base.{
  ℕ, zero, suc, ◌+◌, ◌-◌, ◌≡◌, refl, ◌∙◌, Bool, true, false, ◌||◌, ltb, ◌==◌, if_cases,
}
use esp_mqtt.Msg.Types.{mqtt_get_type, publish, type_number}
use esp_mqtt.Msg.Read.{mqtt_has_valid_msg_hdr, mqtt_get_total_length}
use esp_mqtt.Client.State.{
  Client, Taken, taken, no_time, no_connection, esp_transport_read, handle_timeout, handle_broken,
  esp_mqtt_client_dispatch_transport_error, esp_mqtt_dispatch_event_with_msgid,
}
use esp_mqtt.Client.Receive.{
  Phase, goes_on, returns, ◌>>=◌, after_read, read_into, give_up, check_first, read_first,
  more_length, again, length_loop, read_length, read_topic_length, header_total, read_large,
  read_rest, read_body, result, mqtt_message_receive,
}

-- A part of the function leaves the state alone.
abbrev pub Keeps : Client → Phase → Type 0
Keeps c (goes_on d) = d.state ≡ c.state
Keeps c (returns d r) = d.state ≡ c.state

follow : (c d : Client) (p : Phase) → d.state ≡ c.state → Keeps d p → Keeps c p
follow c d (goes_on e) h k = k ∙ h
follow c d (returns e r) h k = k ∙ h

bind-Keeps :
    (c : Client) (p : Phase) (f : Client → Phase)
    → Keeps c p
    → ((d : Client) → Keeps d (f d))
    → Keeps c (p >>= f)
bind-Keeps c (goes_on d) f h k = follow c d (f d) h (k d)
bind-Keeps c (returns d r) f h k = h

after_read-Keeps : (c : Client) (mid : Bool) (t : Taken) → Keeps c (after_read c mid t)
unfolding handle_timeout handle_broken esp_mqtt_client_dispatch_transport_error
    esp_mqtt_dispatch_event_with_msgid
after_read-Keeps c mid (taken bs later) = refl
after_read-Keeps c true (no_time later) = refl
after_read-Keeps c false (no_time later) = refl
after_read-Keeps c mid (no_connection later) = refl

read_into-Keeps : (c : Client) (want : ℕ) (mid : Bool) → Keeps c (read_into c want mid)
unfolding read_into
read_into-Keeps c want mid = after_read-Keeps c mid (esp_transport_read c.reads want)

give_up-Keeps : (c : Client) → Keeps c (give_up c)
unfolding give_up esp_mqtt_client_dispatch_transport_error esp_mqtt_dispatch_event_with_msgid
give_up-Keeps c = refl

check_first-Keeps : (c : Client) → Keeps c (check_first c)
check_first-Keeps c =
    if_cases (λ (p : Phase). Keeps c p) (mqtt_has_valid_msg_hdr c.in_buffer 1) _ _ (λ e. refl)
      (λ e. give_up-Keeps (record c { in_buffer_read_len = 0 }))

read_first-Keeps : (c : Client) → Keeps c (read_first c)
unfolding read_first
read_first-Keeps c =
    if_cases (λ (p : Phase). Keeps c p) (c.in_buffer_read_len == 0) _ _
      (λ e.
        bind-Keeps c (read_into c 1 false) check_first (read_into-Keeps c 1 false)
          check_first-Keeps)
      (λ e. refl)

length_loop-Keeps : (rounds : ℕ) (c : Client) → Keeps c (length_loop rounds c)
unfolding length_loop
length_loop-Keeps zero c = refl
length_loop-Keeps (suc rounds) c =
    bind-Keeps c (read_into c 1 true) (again (length_loop rounds)) (read_into-Keeps c 1 true) (λ d.
      if_cases (λ (p : Phase). Keeps d p) (more_length d) _ _ (λ e. length_loop-Keeps rounds d)
        (λ e. refl))

read_length-Keeps : (c : Client) → Keeps c (read_length c)
unfolding read_length
read_length-Keeps c =
    if_cases (λ (p : Phase). Keeps c p) (c.in_buffer_read_len == 1 || more_length c) _ _
      (λ e. length_loop-Keeps 5 c) (λ e. refl)

read_topic_length-Keeps : (c : Client) (n : ℕ) → Keeps c (read_topic_length c n)
unfolding read_topic_length
read_topic_length-Keeps c n =
    if_cases (λ (p : Phase). Keeps c p) (ltb c.in_buffer_read_len (n + 2)) _ _
      (λ e.
        bind-Keeps c (read_into c (c.in_buffer_read_len - n + 2) true) _ (read_into-Keeps c _ true)
          (λ d.
            if_cases (λ (p : Phase). Keeps d p) (ltb d.in_buffer_read_len (n + 2)) _ _ (λ e. refl)
              (λ e. refl)))
      (λ e. refl)

read_rest-Keeps : (c : Client) (n : ℕ) → Keeps c (read_rest c n)
unfolding read_rest
read_rest-Keeps c n =
    if_cases (λ (p : Phase). Keeps c p) (ltb c.in_buffer_read_len n) _ _
      (λ e.
        bind-Keeps c (read_into c (n - c.in_buffer_read_len) true) _ (read_into-Keeps c _ true)
          (λ d.
            if_cases (λ (p : Phase). Keeps d p) (ltb d.in_buffer_read_len n) _ _ (λ e. refl)
              (λ e. refl)))
      (λ e. refl)

read_large-Keeps : (c : Client) (n : ℕ) → Keeps c (read_large c n)
unfolding read_large
read_large-Keeps c n =
    if_cases (λ (p : Phase). Keeps c p) (mqtt_get_type c.in_buffer == type_number publish) _ _
      (λ e. bind-Keeps c (read_topic_length c n) _ (read_topic_length-Keeps c n) (λ d.
        if_cases (λ (p : Phase). Keeps d p) (ltb d.in_buffer_length (header_total d n)) _ _
          (λ e. give_up-Keeps d) (λ e. read_rest-Keeps d d.in_buffer_length)))
      (λ e. give_up-Keeps c)

read_body-Keeps : (c : Client) → Keeps c (read_body c)
unfolding read_body
read_body-Keeps c =
    let total = mqtt_get_total_length c.in_buffer c.in_buffer_read_len in
    let d : Client = record c { message_length = total.0 } in
    if_cases (λ (p : Phase). Keeps c p) (ltb d.in_buffer_length total.0) _ _
      (λ e. read_large-Keeps d total.1) (λ e. read_rest-Keeps d total.0)

result-Keeps : (c : Client) (p : Phase) → Keeps c p → (result p).0.state ≡ c.state
result-Keeps c (goes_on d) h = h
result-Keeps c (returns d r) h = h

pub mqtt_message_receive-state : (c : Client) → (mqtt_message_receive c).0.state ≡ c.state
unfolding mqtt_message_receive
mqtt_message_receive-state c =
    let d : Client = record c { message_length = 0 } in
    result-Keeps c _ (
      bind-Keeps d (read_first d) _ (read_first-Keeps d)
        (λ e. bind-Keeps e (read_length e) read_body (read_length-Keeps e) read_body-Keeps))
