-- ===== src/Contract/Receive/Reassembly.antt =====
-- A message that arrives in order and in any number of pieces, through `emqtt_receive_into` of
-- runtime/emqtt_receive_internal.h.
use esp_mqtt.Base.{
  ℕ, ◌+◌, ◌≤◌, ◌<◌, ◌≡◌, ◌≢◌, ◌∙◌, refl, ap, Bool, false, none, some, List, [], ◌∷◌, ◌++◌, length,
  length-append, take, take-length, take-overwrite_front, take-overwrite_before, overwrite, arith,
  Bool-cases, inl, inr, All,
}
use esp_mqtt.Base.Int.{pos_part}
use mathlib.Core.Path.{subst}
use mathlib.Core.List.{append-nil, append_assoc}
use native.Mathlib.Nat.{zero-add}
use esp_mqtt.Contract.Topic.{emqtt_topic_valid_iff, topic_max}
use esp_mqtt.Contract.Receive.Safety.{Accepted, accept_result, accept-arrived, arrived}
use esp_mqtt.Contract.Receive.{
  Fragment, MessageInfo, RxResult, rx_more, rx_complete, rx_rejected, Receiver, start, accept,
  emqtt_receive_into,
}
use esp_mqtt.Contract.Receive.Pieces.{
  Header, fragment_at, first_fragment, later_fragments, receive_all, IsHeader, Underway,
  start-Underway, later_accepted, first_accepted, accepted, accept-Underway,
}

RxResult-more : (x : RxResult) → x ≢ rx_rejected → x ≢ rx_complete → x ≡ rx_more
RxResult-more rx_more a b = refl
RxResult-more rx_complete a b = absurd (b refl)
RxResult-more rx_rejected a b = absurd (a refl)

-- The pieces of a message, one behind the other.
abbrev pub concat : List (List ℕ) → List ℕ
concat [] = []
concat (p ∷ ps) = p ++ concat ps

abbrev pub answers : List (List ℕ) → List RxResult
answers [] = rx_complete ∷ []
answers (p ∷ ps) = rx_more ∷ answers ps

abbrev pub IsNonEmpty : List ℕ → Type 0
IsNonEmpty piece = 0 < length piece

-- The result of feeding the pieces behind a first one.
record Delivered (capacity : ℕ) (h : Header) (r : Receiver) (pieces : List (List ℕ))
    (p : Receiver × RxResult) (q : Receiver × List RxResult) : Type 0 where
  answered : p.1 ∷ q.1 ≡ answers pieces
  content : take h.total q.0.payload ≡ take p.0.state.received p.0.payload ++ concat pieces
  closed : q.0.state.active ≡ false
  info : q.0.info ≡ p.0.info

result_complete :
    (capacity : ℕ) (h : Header) (at : ℕ) (r : Receiver) (f : Fragment)
    → Underway capacity h at r
    → at + pos_part f.data_length ≡ h.total
    → ((accept r f).1 ≡ rx_complete) × ((accept r f).0.state.active ≡ false)
result_complete capacity h at r f u all =
    let done : r.state.received + pos_part f.data_length ≡ r.info.len =
      omega (arith, u.received, u.len, all) in
    let result = accept_result r f u.active in
    (
      result.1.1 done,
      elim (Bool-cases (accept r f).0.state.active) [
        | inl on ↦ absurd (result.2.0 on done)
        | inr off ↦ off
      ],
    )

result_more :
    (capacity : ℕ) (h : Header) (at : ℕ) (r : Receiver) (f : Fragment)
    → Underway capacity h at r
    → at + pos_part f.data_length < h.total
    → (accept r f).1 ≡ rx_more
result_more capacity h at r f u part =
    let result = accept_result r f u.active in
    RxResult-more (accept r f).1 result.0 (λ e. omega (arith, result.1.0 e, u.received, u.len))

length-concat_cons :
    (p : List ℕ) (ps : List (List ℕ)) → length (concat (p ∷ ps)) ≡ length p + length (concat ps)
length-concat_cons p ps = length-append p (concat ps)

last-Delivered :
    (capacity : ℕ) (h : Header) (at : ℕ) (r : Receiver) (f : Fragment)
    → Underway capacity h at r
    → Accepted capacity r f (accept r f).0
    → at + pos_part f.data_length ≡ h.total
    → Delivered capacity h r [] (accept r f) ((accept r f).0, [])
last-Delivered capacity h at r f u a all =
    let (complete, off) = result_complete capacity h at r f u all in
    record {
      answered = rw complete;
      content =
          let here : (accept r f).0.state.received ≡ h.total =
            omega (arith, a.advanced, u.received, all) in
          rw (here, append-nil);
      closed = off;
      info = refl;
    }

rest-Delivered :
    (capacity : ℕ) (h : Header) (at : ℕ) (r : Receiver) (f : Fragment) (pieces : List (List ℕ))
    → IsHeader capacity h
    → Underway capacity h at r
    → Accepted capacity r f (accept r f).0
    → All IsNonEmpty pieces
    → at + pos_part f.data_length + length (concat pieces) ≡ h.total
    → Delivered capacity h r pieces (accept r f) (
        receive_all capacity
          (accept r f).0
          (later_fragments h (at + pos_part f.data_length) pieces))
unfolding receive_all
rest-Delivered capacity h at r f [] v u a full all =
    last-Delivered capacity h at r f u a (omega arith)
rest-Delivered capacity h at r f (piece ∷ pieces) v u a full all =
    let at' = at + pos_part f.data_length in
    let size = length-concat_cons piece pieces in
    let u' = accept-Underway capacity h at r f u a (omega (arith, size, full.0)) in
    let r' = (accept r f).0 in
    let f' = fragment_at h none 0 at' piece in
    let room : at' + length piece ≤ h.total = omega (arith, size) in
    let a' = accepted capacity h none 0 at' r' piece v u' (inl full.0) room in
    let got : arrived (accept r' f').0 ≡ arrived r' ++ piece =
      accept-arrived capacity r' f' u'.block a' (omega arith)
      ∙ ap (◌++◌ (arrived r')) (take-length piece) in
    let ih = rest-Delivered capacity h at' r' f' pieces v u' a' full.1 (omega (arith, size)) in
    let more = result_more capacity h at r f u (omega (arith, size, full.0)) in
    let same = later_accepted capacity h at' r' piece v u' full.0 room in
    rw same (record {
      answered = rw more (ap (◌∷◌ rx_more) ih.answered);
      content =
          ih.content
          ∙ ap (λ xs. xs ++ concat pieces) got
          ∙ append_assoc (arrived r') piece (concat pieces);
      closed = ih.closed;
      info = ih.info ∙ a'.same_info;
    })

-- The topic array after the first fragment.
start-topic :
    (capacity : ℕ) (h : Header) (r : Receiver) (piece : List ℕ)
    → IsHeader capacity h
    → length r.info.topic ≡ topic_max + 1
    → take (length h.topic) (start r (first_fragment h piece)).info.topic ≡ h.topic
unfolding start
start-topic capacity h r piece v size =
    let short = ((emqtt_topic_valid_iff h.topic (length h.topic) false).0 v.topic_ok).1 in
    let n = length h.topic in
    take-overwrite_before n (overwrite r.info.topic 0 (take n h.topic)) (0 ∷ [])
    ∙ take-overwrite_front n r.info.topic h.topic (omega arith) (omega arith)
    ∙ take-length h.topic

-- A message that is complete, after answers for all its pieces.
pub record Reassembled (h : Header) (pieces : List (List ℕ)) (content : List ℕ)
    (q : Receiver × List RxResult) : Type 0 where
  pub answered : q.1 ≡ answers pieces
  pub payload : take h.total q.0.payload ≡ content
  pub topic : take (length h.topic) q.0.info.topic ≡ h.topic
  pub len : q.0.info.len ≡ h.total
  pub message_id : q.0.info.message_id ≡ h.message_id
  pub qos : q.0.info.qos ≡ h.qos
  pub retain : q.0.info.retain ≡ h.retain
  pub duplicate : q.0.info.duplicate ≡ h.duplicate
  pub free : q.0.state.active ≡ false

conclude :
    (capacity : ℕ) (h : Header) (r : Receiver) (first : List ℕ) (pieces : List (List ℕ))
    → IsHeader capacity h
    → length r.info.topic ≡ topic_max + 1
    → Underway capacity h 0 (start r (first_fragment h first))
    → let f = first_fragment h first in
      let p = accept (start r f) f in
      emqtt_receive_into capacity r (some f) ≡ p
      → Delivered capacity h
          (start r f)
          pieces
          p
          (receive_all capacity p.0 (later_fragments h (length first) pieces))
      → p.0.info ≡ (start r f).info
      → arrived p.0 ≡ first
      → Reassembled h pieces
          (concat (first ∷ pieces))
          (receive_all capacity r (f ∷ later_fragments h (length first) pieces))
unfolding receive_all
conclude capacity h r first pieces v size u same d info got =
    let i = d.info ∙ info in
    let field = λ (g : MessageInfo → ℕ). ap g i in
    let flag = λ (g : MessageInfo → Bool). ap g i in
    rw same (record {
      answered = d.answered;
      payload = d.content ∙ ap (λ xs. xs ++ concat pieces) got;
      topic = rw i (start-topic capacity h r first v size);
      len = field (λ i. i.len) ∙ u.len;
      message_id = field (λ i. i.message_id) ∙ u.message_id;
      qos = field (λ i. i.qos) ∙ u.qos;
      retain = flag (λ i. i.retain) ∙ u.retain;
      duplicate = flag (λ i. i.duplicate) ∙ u.duplicate;
      free = d.closed;
    })

-- A message that comes in order and in any number of pieces, none of them empty but the first,
-- whose lengths add up to the announced total, is put together again: every fragment but the last
-- is answered "more" and the last "complete", the first `total` bytes of the payload are the pieces
-- one behind the other, the topic array begins with the topic, length, id, QoS and flags are those
-- of the header, and the receiver is free for the next message.
pub emqtt_receive_into_reassembles :
    (capacity : ℕ) (h : Header) (r : Receiver) (first : List ℕ) (pieces : List (List ℕ))
    → IsHeader capacity h
    → length r.payload ≡ capacity
    → length r.info.topic ≡ topic_max + 1
    → r.state.active ≡ false
    → All IsNonEmpty pieces
    → length (concat (first ∷ pieces)) ≡ h.total
    → Reassembled h pieces
        (concat (first ∷ pieces))
        (receive_all capacity r (first_fragment h first ∷ later_fragments h (length first) pieces))
emqtt_receive_into_reassembles capacity h r first pieces v block size off full all =
    let sum = length-concat_cons first pieces in
    let room : length first ≤ h.total = omega (arith, sum, all) in
    let f = first_fragment h first in
    let s = start r f in
    let u = start-Underway capacity h r first v block in
    let a =
      accepted capacity h (some h.topic) (length h.topic) 0 s first v u (inr refl) (omega arith) in
    let d = rest-Delivered capacity h 0 s f pieces v u a full (omega (arith, sum, all)) in
    let same = first_accepted capacity h r first v block off room in
    let got : arrived (accept s f).0 ≡ first =
      accept-arrived capacity s f u.block a (omega arith) ∙ (rw u.received (take-length first)) in
    conclude capacity h r first pieces v size u same
      (subst
        (λ n.
          Delivered capacity h s pieces (accept s f)
            (receive_all capacity (accept s f).0 (later_fragments h n pieces)))
        (zero-add (length first)) d)
      a.same_info got
