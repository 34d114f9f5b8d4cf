-- ===== src/Runtime/Runs.antt =====
-- Runs of the session of runtime/emqtt.c.
use esp_mqtt.Base.{◌≡◌, refl, true, some, List, [], ◌∷◌, arith}
use esp_mqtt.Base.Int.{pos}
use esp_mqtt.Contract.Suback.{Subscription, subscriptions_max}
use esp_mqtt.Runtime.State.{Runtime, RuntimeState, ready, connecting, subscribing}
use esp_mqtt.Runtime.Events.{Event, connected, subscribed, on_event}
use esp_mqtt.Runtime.Session.{Answer, ok, Answers, emqtt_start, emqtt_poll}
use esp_mqtt.Runtime.Subscriptions.{wanted, IsBounded}
use esp_mqtt.Runtime.Changes.{Changed, emqtt_poll-Changed}
use esp_mqtt.Runtime.Steps.{
  created, start, poll, event, Reachable, here, after, Reachable-IsBounded,
}

abbrev one : List Subscription
one = record { topic = b'a' ∷ []; qos = 1 } ∷ []

abbrev answers : Answers
answers = record { stop_answer = ok; subscribe_id = pos 5; now = 100 }

abbrev started_session : Runtime
started_session = (emqtt_start ok true (created true one) true true).0

abbrev connected_session : Runtime
connected_session = on_event true 50 started_session (pos 0) connected

abbrev subscribing_session : Runtime
subscribing_session = (emqtt_poll answers true connected_session).0

abbrev granted_session : Runtime
granted_session = on_event true 200 subscribing_session (pos 5) (subscribed (pos 1) (some (1 ∷ [])))

abbrev ready_session : Runtime
ready_session = (emqtt_poll answers true granted_session).0

ready_run : ready_session.state ≡ ready
unfolding emqtt_start emqtt_poll on_event created esp_mqtt.Runtime.State.drain
    esp_mqtt.Runtime.State.release_receiver_slot esp_mqtt.Runtime.State.post
    esp_mqtt.Runtime.Session.poll_notices esp_mqtt.Runtime.Session.dispatch
    esp_mqtt.Runtime.Session.on_connected esp_mqtt.Runtime.Session.submit_subscriptions
    esp_mqtt.Runtime.Session.on_suback esp_mqtt.Runtime.Session.suback_matches
    esp_mqtt.Runtime.Session.accept_suback esp_mqtt.Runtime.Events.suback_notice
    esp_mqtt.Contract.Suback.emqtt_suback_valid esp_mqtt.Contract.Suback.suback_loop
ready_run = refl

ready-Reachable : Reachable (created true one) ready_session
ready-Reachable =
    after
      (after
        (after (after (after here (start ok true true true)) (event true 50 (pos 0) connected))
          (poll answers true))
        (event true 200 (pos 5) (subscribed (pos 1) (some (1 ∷ [])))))
      (poll answers true)

Reachable-IsBounded_example : IsBounded (wanted ready_session)
Reachable-IsBounded_example =
    Reachable-IsBounded true one ready_session (omega arith) ready-Reachable

emqtt_poll-Changed_example :
    Changed granted_session (emqtt_poll answers true granted_session).0.subscriptions
emqtt_poll-Changed_example = emqtt_poll-Changed answers true granted_session
