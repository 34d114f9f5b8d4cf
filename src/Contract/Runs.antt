-- ===== src/Contract/Runs.antt =====
-- Concrete texts, topics and fragments: tests of runtime/emqtt_contract.c, and its theorems at
-- concrete inputs.
use esp_mqtt.Base.{
  ℕ, ◌≤◌, ◌<◌, ◌≡◌, ◌⊎◌, ◌↔◌, refl, true, false, some, List, [], ◌∷◌, replicate, length-replicate,
  All, arith,
}
use esp_mqtt.Contract.Utf8.{utf8}
use esp_mqtt.Contract.Utf8.Complete.{IsAllowed, encode_all}
use esp_mqtt.Contract.Utf8.Sound.{utf8_iff}
use esp_mqtt.Contract.Topic.{emqtt_topic_valid, emqtt_topic_valid_iff, levels_ok, split, topic_max}
use esp_mqtt.Contract.Suback.{
  emqtt_suback_valid, emqtt_suback_valid_iff, Granted, Subscription, subscriptions_max,
}
use esp_mqtt.Contract.Receive.{emqtt_receive_into, Receiver, zero_info}
use esp_mqtt.Contract.Receive.Safety.{IsValid, Rejected, Taken, emqtt_receive_into_step}
use esp_mqtt.Contract.Receive.Pieces.{
  Header, IsHeader, first_fragment, later_fragments, receive_all,
}
use esp_mqtt.Contract.Receive.Reassembly.{Reassembled, emqtt_receive_into_reassembles}

-- "aé€" and an overlong slash.
abbrev three_characters : List ℕ
three_characters = 97 ∷ 0xc3 ∷ 0xa9 ∷ 0xe2 ∷ 0x82 ∷ 0xac ∷ []

accepts_three : utf8 three_characters ≡ true
unfolding utf8 esp_mqtt.Contract.Utf8.utf8_loop esp_mqtt.Contract.Utf8.character
accepts_three = refl

refuses_overlong : utf8 (0xc0 ∷ 0xaf ∷ []) ≡ false
unfolding utf8 esp_mqtt.Contract.Utf8.utf8_loop esp_mqtt.Contract.Utf8.character
refuses_overlong = refl

utf8_iff_example :
    (utf8 three_characters ≡ true)
    ↔ ((cs : List ℕ) × All IsAllowed cs × (three_characters ≡ encode_all cs))
utf8_iff_example = utf8_iff three_characters (omega arith)

-- "a/+/#" and "a/b#".
abbrev filter_text : List ℕ
filter_text = b'a' ∷ b'/' ∷ b'+' ∷ b'/' ∷ b'#' ∷ []

emqtt_topic_valid_iff_example : (emqtt_topic_valid (some filter_text) 5 true ≡ true) ↔ (
    (0 < 5)
    × (5 ≤ topic_max)
    × (utf8 filter_text ≡ true)
    × (levels_ok true (split filter_text).0 (split filter_text).1 ≡ true))
emqtt_topic_valid_iff_example = emqtt_topic_valid_iff filter_text 5 true

abbrev asked : List Subscription
asked = record { topic = b'a' ∷ 0 ∷ []; qos = 1 } ∷ record { topic = b'b' ∷ 0 ∷ []; qos = 0 } ∷ []

emqtt_suback_valid_iff_example :
    (emqtt_suback_valid (some (1 ∷ 0 ∷ [])) 2 (some asked) 2 ≡ true) ↔ (
      (0 < 2)
      × (2 ≤ subscriptions_max)
      × (◌≡◌ {A = ℕ} 2 2)
      × ((i : ℕ) → i < 2 → Granted (1 ∷ 0 ∷ []) asked i))
emqtt_suback_valid_iff_example = emqtt_suback_valid_iff (1 ∷ 0 ∷ []) 2 asked 2

abbrev idle : Receiver
idle = record {
  state = record { received = 0; active = false };
  info = zero_info;
  payload = replicate 5 0;
}

abbrev header : Header
header = record {
  topic = b'a' ∷ b'/' ∷ b'b' ∷ [];
  total = 5;
  message_id = 9;
  qos = 1;
  retain = false;
  duplicate = true;
}

topic_ok : emqtt_topic_valid (some header.topic) 3 false ≡ true
unfolding emqtt_topic_valid utf8 esp_mqtt.Contract.Utf8.utf8_loop esp_mqtt.Contract.Utf8.character
    esp_mqtt.Contract.Topic.topic_loop esp_mqtt.Contract.Topic.char_refused
topic_ok = refl

header-IsHeader : IsHeader 5 header
header-IsHeader = record {
  fits = omega arith;
  limit = omega arith;
  ids = omega arith;
  topic_ok = topic_ok;
}

emqtt_receive_into_step_example :
    IsValid 5 (emqtt_receive_into 5 idle (some (first_fragment header (1 ∷ 2 ∷ [])))).0
    × (Rejected idle (emqtt_receive_into 5 idle (some (first_fragment header (1 ∷ 2 ∷ []))))
        ⊎ Taken idle
            (first_fragment header (1 ∷ 2 ∷ []))
            (emqtt_receive_into 5 idle (some (first_fragment header (1 ∷ 2 ∷ [])))))
emqtt_receive_into_step_example =
    emqtt_receive_into_step 5 idle (first_fragment header (1 ∷ 2 ∷ []))
      (record { block = refl; within = λ e. cc }) (omega arith)

emqtt_receive_into_reassembles_example :
    Reassembled header ((3 ∷ 4 ∷ []) ∷ (5 ∷ []) ∷ []) (1 ∷ 2 ∷ 3 ∷ 4 ∷ 5 ∷ []) (
      receive_all 5 idle (
        first_fragment header (1 ∷ 2 ∷ [])
        ∷ later_fragments header 2 ((3 ∷ 4 ∷ []) ∷ (5 ∷ []) ∷ [])))
emqtt_receive_into_reassembles_example =
    emqtt_receive_into_reassembles 5 header idle (1 ∷ 2 ∷ []) ((3 ∷ 4 ∷ []) ∷ (5 ∷ []) ∷ [])
      header-IsHeader refl (length-replicate {A = ℕ} 257 0) refl (omega arith) refl
