-- ===== src/Client/Process/Acks.antt =====
-- `mqtt_process_receive` of mqtt_client.c on the four acknowledgements of a PUBLISH.
use mathlib.Core.List.{append-nil}
use esp_mqtt.Base.{
  ℕ, ◌/◌, ◌%◌, ◌≤◌, ◌<◌, ◌≡◌, ◌⊎◌, refl, sym, ap, ◌∙◌, Bool, true, false, some, List, [], ◌∷◌, ◌++◌,
  if◌then◌else◌, drop, arith,
}
use esp_mqtt.Msg.Types.{publish, mqtt_get_type, mqtt_get_qos, mqtt_get_dup, type_number}
use esp_mqtt.Msg.Read.{mqtt_get_id, mqtt_has_valid_msg_hdr}
use esp_mqtt.Msg.Length.{remaining_length}
use esp_mqtt.Msg.Layout.{two_bytes}
use esp_mqtt.Outbox.{Outbox, esp_ok, outbox_delete}
use esp_mqtt.Client.State.{
  Arrival, Client, ClientEvent, event_published, message, behind,
  esp_mqtt_dispatch_event_with_msgid,
}
use esp_mqtt.Client.Receive.{mqtt_message_receive}
use esp_mqtt.Client.Receive.Holding.{Holding, held-in_buffer}
use esp_mqtt.Client.Receive.Whole.{mqtt_message_receive-whole}
use esp_mqtt.Client.Process.{
  Step, is_ok, remove_initiator_message, when_removed, announce, handle_message, process_message,
  close_message, after_receive, mqtt_process_receive,
}

-- The client with a packet of four bytes in its buffer.
abbrev pub holds_ack : Client → ℕ → ℕ → List ℕ → Client
holds_ack c first id tail = record c {
  in_buffer = first ∷ 2 ∷ id / 256 % 256 ∷ id % 256 ∷ tail;
  in_buffer_read_len = 4;
  message_length = 4;
}

received_ack :
    (c : Client) (first id : ℕ) (more : List ℕ) (later : List Arrival)
    → mqtt_has_valid_msg_hdr (first ∷ []) 1 ≡ true
    → 4 ≤ c.in_buffer_length
    → Holding c [] (first ∷ 2 ∷ (two_bytes id ++ more)) later
    → (tail : List ℕ) × (mqtt_message_receive c
        ≡ (holds_ack (record c { reads = behind more later }) first id tail, message))
unfolding remaining_length
received_ack c first id more later valid room h =
    let a =
      mqtt_message_receive-whole c first (two_bytes id) more later valid (omega arith)
        (omega (arith, room)) h in
    let d = a.0 in
    let tail = drop 4 d.in_buffer in
    let e : Client = record c {
      reads = behind more later;
      message_length = 4;
      in_buffer_read_len = 4;
    } in
    (
      tail,
      a.1.0
          ∙ ap (λ x. (x, message))
              (a.1.2 ∙ ap (λ b. record e { in_buffer = b }) (held-in_buffer d _ more later a.1.1)),
    )

-- The event MQTT_EVENT_PUBLISHED with an id.
abbrev published : ClientEvent → ℕ → ClientEvent
published e id = record e { event_id = event_published; msg_id = id }

-- The end of a handshake: the outbox is `outbox`, and the id is announced if `ok`.
pub record Finished (c d : Client) (outbox : Outbox) (ok : Bool) (id : ℕ) : Type 0 where
  pub kept : d.outbox ≡ outbox
  pub events : d.events ≡ c.events ++ (if ok then published c.event id ∷ [] else [])
  pub sent : d.sent ≡ c.sent
  pub state : d.state ≡ c.state
  pub read_len : d.in_buffer_read_len ≡ 0

-- The middle of one: `first` is sent with the id.
pub record Continued (c d : Client) (outbox : Outbox) (first id : ℕ) : Type 0 where
  pub kept : d.outbox ≡ outbox
  pub events : d.events ≡ c.events
  pub sent : d.sent ≡ c.sent ++ (first ∷ 2 ∷ two_bytes id)
  pub state : d.state ≡ c.state
  pub read_len : d.in_buffer_read_len ≡ 0

abbrev pub ToFinished : Step → Client → Outbox → Bool → ℕ → Type 0
ToFinished step c outbox ok id =
    (d : Client) × ((step ≡ some (d, esp_ok)) × Finished c d outbox ok id)

abbrev pub ToContinued : Step → Client → Outbox → ℕ → ℕ → Type 0
ToContinued step c outbox first id =
    (d : Client) × ((step ≡ some (d, esp_ok)) × Continued c d outbox first id)

announced :
    (c : Client) (o : Outbox) (ok : Bool) (id : ℕ)
    → mqtt_get_id c.in_buffer c.in_buffer_length ≡ id
    → ToFinished
        (close_message (when_removed (announce event_published) (record c { outbox = o }, ok)))
        c
        o
        ok
        id
unfolding esp_mqtt_dispatch_event_with_msgid
announced c o false id e = (
  record c { outbox = o; in_buffer_read_len = 0 },
  (
    refl,
    record {
      kept = refl;
      events = sym (append-nil c.events);
      sent = refl;
      state = refl;
      read_len = refl;
    },
  ),
)
announced c o true id e =
    let l = mqtt_get_id c.in_buffer c.in_buffer_length in
    (
      record c {
        outbox = o;
        in_buffer_read_len = 0;
        event = published c.event l;
        events = c.events ++ (published c.event l ∷ []);
      },
      (
        refl,
        record {
          kept = refl;
          events = ap (λ i. c.events ++ (published c.event i ∷ [])) e;
          sent = refl;
          state = refl;
          read_len = refl;
        },
      ),
    )

-- The first bytes of the four packets.
abbrev pub IsAck : ℕ → Type 0
IsAck first = (first ≡ 64) ⊎ ((first ≡ 80) ⊎ ((first ≡ 98) ⊎ (first ≡ 112)))

-- The id in a packet of four bytes.
id_of_ack :
    (first id size : ℕ) (tail : List ℕ)
    → IsAck first
    → id < 65536
    → 4 ≤ size
    → mqtt_get_id (first ∷ 2 ∷ id / 256 % 256 ∷ id % 256 ∷ tail) size ≡ id
unfolding mqtt_get_id mqtt_get_type
id_of_ack first id size tail kind small room = ground arith

-- The case of PUBACK and PUBCOMP.
abbrev pub removes : Client → ℕ → Step
removes l i = when_removed (announce event_published) (remove_initiator_message l publish i)

-- The packet decides by its first byte what the `switch` does.
abbrev pub Answers : ℕ → (Client → ℕ → Step) → Type 0
Answers first act =
    (l : Client) (q i : ℕ) → handle_message l (mqtt_get_type (first ∷ [])) q i ≡ act l i

type_of_first :
    (first : ℕ) (rest : List ℕ) → mqtt_get_type (first ∷ rest) ≡ mqtt_get_type (first ∷ [])
unfolding mqtt_get_type
type_of_first first rest = refl

-- From the bytes to the case of the `switch`.
module _ (c : Client) (first id : ℕ) (more : List ℕ) (later : List Arrival) (kind : IsAck first)
    (valid : mqtt_has_valid_msg_hdr (first ∷ []) 1 ≡ true) (small : id < 65536)
    (room : 4 ≤ c.in_buffer_length)
    (h : Holding c [] (first ∷ 2 ∷ (two_bytes id ++ more)) later) where
  abbrev pub base : Client
  base = record c { reads = behind more later }

  pub switched :
      (act : Client → ℕ → Step)
      → Answers first act
      → (tail : List ℕ) × (mqtt_process_receive c
          ≡ close_message (act (holds_ack base first id tail) id))
  unfolding mqtt_process_receive process_message
  switched act acts =
      let p = received_ack c first id more later valid room h in
      let l = holds_ack base first id p.0 in
      let q = mqtt_get_qos l.in_buffer in
      let i = mqtt_get_id l.in_buffer 4 in
      (
        p.0,
        ap (after_receive c.in_buffer_read_len) p.1
            ∙ ap (λ t. close_message (handle_message l t q i))
                (type_of_first first (drop 1 l.in_buffer))
            ∙ ap close_message (acts l q i)
            ∙ ap (λ x. close_message (act l x)) (id_of_ack first id 4 p.0 kind small (omega arith)),
      )

  pub finishes :
      Answers first removes
      → ToFinished
          (mqtt_process_receive c)
          base
          (outbox_delete c.outbox id (type_number publish)).0
          (is_ok (outbox_delete c.outbox id (type_number publish)).1)
          id
  unfolding remove_initiator_message
  finishes acts =
      let p = switched removes acts in
      let l = holds_ack base first id p.0 in
      let r = outbox_delete c.outbox id (type_number publish) in
      let a =
        announced l r.0 (is_ok r.1) id
          (id_of_ack first id c.in_buffer_length p.0 kind small room) in
      (
        a.0,
        (
          p.1 ∙ a.1.0,
          record {
            kept = a.1.1.kept;
            events = a.1.1.events;
            sent = a.1.1.sent;
            state = a.1.1.state;
            read_len = a.1.1.read_len;
          },
        ),
      )

pub puback_removes : Answers 64 removes
unfolding handle_message mqtt_get_type
puback_removes l q i = refl

pub pubcomp_removes : Answers 112 removes
unfolding handle_message mqtt_get_type
pubcomp_removes l q i = refl

pub valid_ack : (first : ℕ) → IsAck first → mqtt_has_valid_msg_hdr (first ∷ []) 1 ≡ true
unfolding mqtt_has_valid_msg_hdr mqtt_get_type mqtt_get_qos mqtt_get_dup
valid_ack first kind = ground arith
