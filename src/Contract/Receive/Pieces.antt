-- ===== src/Contract/Receive/Pieces.antt =====
-- The pieces of a message as fragments, and what `emqtt_receive_into` of
-- runtime/emqtt_receive_internal.h does with each.
use esp_mqtt.Base.{
  ℕ, ◌+◌, ◌≤◌, ◌<◌, ◌≡◌, ◌⊎◌, ◌∙◌, refl, ap, Bool, true, false, Option, none, some, List, [], ◌∷◌,
  length, arith, inl, inr,
}
use esp_mqtt.Base.Int.{pos, pos_part}
use esp_mqtt.Contract.Topic.{emqtt_topic_valid}
use esp_mqtt.Contract.Receive.Safety.{Accepted, accept-Accepted, accept_result, length-copy}
use esp_mqtt.Contract.Receive.{
  Fragment, MessageInfo, RxResult, Receiver, bad_lengths, bad_ids, malformed, start, other_topic,
  out_of_step, accept, begin, resume, emqtt_receive_into, payload_max,
}

-- What the sender of a message fixes.
pub record Header : Type 0 where
  pub topic : List ℕ
  pub total : ℕ
  pub message_id : ℕ
  pub qos : ℕ
  pub retain : Bool
  pub duplicate : Bool

abbrev pub fragment_at : Header → Option (List ℕ) → ℕ → ℕ → List ℕ → Fragment
fragment_at h topic topic_length at piece = record {
  topic = topic;
  topic_length = pos topic_length;
  content = some piece;
  data_length = pos (length piece);
  total_length = pos h.total;
  offset = pos at;
  message_id = pos h.message_id;
  qos = pos h.qos;
  retain = h.retain;
  duplicate = h.duplicate;
}

-- MQTT_EVENT_DATA gives the topic with the first piece only.
abbrev pub first_fragment : Header → List ℕ → Fragment
first_fragment h piece = fragment_at h (some h.topic) (length h.topic) 0 piece

abbrev pub later_fragments : Header → ℕ → List (List ℕ) → List Fragment
later_fragments h at [] = []
later_fragments h at (piece ∷ rest) =
    fragment_at h none 0 at piece ∷ later_fragments h (at + length piece) rest

-- Feeding fragments one after the other, with all answers.
unfoldable pub receive_all : ℕ → Receiver → List Fragment → Receiver × List RxResult
receive_all capacity r [] = (r, [])
receive_all capacity r (f ∷ fs) =
    let p = emqtt_receive_into capacity r (some f) in
    let q = receive_all capacity p.0 fs in (q.0, p.1 ∷ q.1)

-- The ids that go with a QoS.
pub record IsHeader (capacity : ℕ) (h : Header) : Type 0 where
  pub fits : h.total ≤ capacity
  pub limit : h.total ≤ payload_max
  pub ids :
      ((h.qos ≡ 0) × (h.message_id ≡ 0))
      ⊎ ((h.qos ≡ 1) × (0 < h.message_id) × (h.message_id ≤ 65535))
  pub topic_ok : emqtt_topic_valid (some h.topic) (length h.topic) false ≡ true

fragment_at-lengths :
    (capacity : ℕ) (h : Header) (topic : Option (List ℕ)) (n at : ℕ) (piece : List ℕ)
    → IsHeader capacity h
    → at + length piece ≤ h.total
    → bad_lengths capacity (pos n) (pos (length piece)) (pos h.total) (pos at) ≡ false
unfolding bad_lengths
fragment_at-lengths capacity h topic n at piece v k = ground (arith, v.fits, v.limit)

fragment_at-ids :
    (capacity : ℕ) (h : Header) (topic : Option (List ℕ)) (n at : ℕ) (piece : List ℕ)
    → IsHeader capacity h
    → bad_ids (fragment_at h topic n at piece) ≡ false
unfolding bad_ids
fragment_at-ids capacity h topic n at piece v = ground (arith, v.ids)

fragment_at-well :
    (capacity : ℕ) (h : Header) (topic : Option (List ℕ)) (n at : ℕ) (piece : List ℕ)
    → IsHeader capacity h
    → at + length piece ≤ h.total
    → malformed capacity (fragment_at h topic n at piece) ≡ false
unfolding malformed
fragment_at-well capacity h topic n at piece v k = rw (
  fragment_at-lengths capacity h topic n at piece v k,
  fragment_at-ids capacity h topic n at piece v,
)

-- A receiver that has taken the first `at` bytes of the message.
pub record Underway (capacity : ℕ) (h : Header) (at : ℕ) (r : Receiver) : Type 0 where
  pub block : length r.payload ≡ capacity
  pub active : r.state.active ≡ true
  pub received : r.state.received ≡ at
  pub len : r.info.len ≡ h.total
  pub message_id : r.info.message_id ≡ h.message_id
  pub qos : r.info.qos ≡ h.qos
  pub retain : r.info.retain ≡ h.retain
  pub duplicate : r.info.duplicate ≡ h.duplicate

in_step :
    (capacity : ℕ) (h : Header) (topic : Option (List ℕ)) (n at : ℕ) (r : Receiver) (piece : List ℕ)
    → Underway capacity h at r
    → (0 < length piece) ⊎ (at ≡ 0)
    → out_of_step r (fragment_at h topic n at piece) ≡ false
unfolding out_of_step
in_step capacity h topic n at r piece u some_bytes =
    ground (arith, u.received, u.len, u.message_id, u.qos, u.retain, u.duplicate)

pub later_accepted :
    (capacity : ℕ) (h : Header) (at : ℕ) (r : Receiver) (piece : List ℕ)
    → IsHeader capacity h
    → Underway capacity h at r
    → 0 < length piece
    → at + length piece ≤ h.total
    → emqtt_receive_into capacity r (some (fragment_at h none 0 at piece))
      ≡ accept r (fragment_at h none 0 at piece)
unfolding emqtt_receive_into resume other_topic
later_accepted capacity h at r piece v u some_bytes room = ground (
  arith,
  u.active,
  fragment_at-well capacity h none 0 at piece v room,
  in_step capacity h none 0 at r piece u (inl some_bytes),
)

pub start-Underway :
    (capacity : ℕ) (h : Header) (r : Receiver) (piece : List ℕ)
    → IsHeader capacity h
    → length r.payload ≡ capacity
    → Underway capacity h 0 (start r (first_fragment h piece))
unfolding start
start-Underway capacity h r piece v block = record {
  block = block;
  active = refl;
  received = refl;
  len = refl;
  message_id = refl;
  qos = omega (arith, v.ids);
  retain = refl;
  duplicate = refl;
}

pub first_accepted :
    (capacity : ℕ) (h : Header) (r : Receiver) (piece : List ℕ)
    → IsHeader capacity h
    → length r.payload ≡ capacity
    → r.state.active ≡ false
    → length piece ≤ h.total
    → emqtt_receive_into capacity r (some (first_fragment h piece))
      ≡ accept (start r (first_fragment h piece)) (first_fragment h piece)
unfolding emqtt_receive_into begin
first_accepted capacity h r piece v block off room = ground (
  arith,
  v.topic_ok,
  fragment_at-well capacity h (some h.topic) (length h.topic) 0 piece v,
  in_step capacity h (some h.topic) (length h.topic) 0 (start r (first_fragment h piece)) piece
      (start-Underway capacity h r piece v block) (inr refl),
)

-- What an accepted piece leaves.
pub accepted :
    (capacity : ℕ) (h : Header) (topic : Option (List ℕ)) (n at : ℕ) (r : Receiver) (piece : List ℕ)
    → IsHeader capacity h
    → Underway capacity h at r
    → (0 < length piece) ⊎ (at ≡ 0)
    → at + length piece ≤ h.total
    → Accepted capacity r
        (fragment_at h topic n at piece)
        (accept r (fragment_at h topic n at piece)).0
accepted capacity h topic n at r piece v u some_bytes room =
    accept-Accepted capacity r _ (fragment_at-well capacity h topic n at piece v room)
      (in_step capacity h topic n at r piece u some_bytes)

pub accept-Underway :
    (capacity : ℕ) (h : Header) (at : ℕ) (r : Receiver) (f : Fragment)
    → Underway capacity h at r
    → Accepted capacity r f (accept r f).0
    → at + pos_part f.data_length < h.total
    → Underway capacity h (at + pos_part f.data_length) (accept r f).0
accept-Underway capacity h at r f u a room =
    let field = λ (g : MessageInfo → ℕ). ap g a.same_info in
    let flag = λ (g : MessageInfo → Bool). ap g a.same_info in
    record {
      block = rw a.block (length-copy r f ∙ u.block);
      active = (accept_result r f u.active).2.1 (λ e. omega (arith, e, u.received, u.len));
      received = omega (arith, a.advanced, u.received);
      len = field (λ i. i.len) ∙ u.len;
      message_id = field (λ i. i.message_id) ∙ u.message_id;
      qos = field (λ i. i.qos) ∙ u.qos;
      retain = flag (λ i. i.retain) ∙ u.retain;
      duplicate = flag (λ i. i.duplicate) ∙ u.duplicate;
    }
