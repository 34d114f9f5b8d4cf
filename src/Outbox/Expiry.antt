-- ===== src/Outbox/Expiry.antt =====
-- Expiry: the sweeps of lib/mqtt_outbox.c, and the loop of `mqtt_delete_expired_messages`
-- (mqtt_client.c) that reports each message it deletes. The n-th call of `platform_tick_get_ms` is
-- `clock n`; the event handlers leave the outbox alone.
use mathlib.Core.Option
use esp_mqtt.Base.{
  ℕ, zero, suc, ◌+◌, ◌%◌, ◌==◌, ◌<◌, ◌≡◌, refl, ap, ◌∙◌, sym, Bool, true, false, Option, none, some,
  List, [], ◌∷◌, if◌then◌else◌, length, arith, Bool-cases, inl, inr, ◌⊎◌,
}
use esp_mqtt.Base.Int.{ℤ, pos, negsuc, ◌-ℤ◌, ltb_ℤ}
use esp_mqtt.Base.Bytes.{sub64}
use esp_mqtt.Outbox.{
  Item, Outbox, Removal, Sweep, remove_first, sweep, keep_front, keep_item, count_deleted,
  outbox_delete_single_expired, outbox_delete_expired, outbox_delete_message_type,
}

abbrev pub cons_id : ℕ → Outbox × List ℕ → Outbox × List ℕ
cons_id id p = (p.0, id ∷ p.1)

-- The outbox at the end and the ids of the MQTT_EVENT_DELETED events; `none` if the rounds run out.
unfoldable pub mqtt_delete_expired_messages : ℕ → (ℕ → ℤ) → ℤ → Outbox → Option (Outbox × List ℕ)
mqtt_delete_expired_messages zero clock timeout o = none
mqtt_delete_expired_messages (suc rounds) clock timeout o =
    let r = outbox_delete_single_expired o (clock 0) timeout in
    elim r.1 [
      | negsuc _ ↦ some (r.0, [])
      | pos msg_id ↦
          Option.map (cons_id msg_id)
            (mqtt_delete_expired_messages rounds (λ i. clock (suc i)) timeout r.0)
    ]

sweep_miss :
    (test : Item → Bool) (size : ℕ) (x : Item) (items : List Item)
    → test x ≡ false
    → sweep test size (x ∷ items) ≡ keep_item x (sweep test size items)
unfolding sweep
sweep_miss test size x items e = rw e

-- Taking out the first hit and sweeping the rest is sweeping all.
abbrev Swept : (Item → Bool) → Outbox → Removal → Type 0
Swept test o r =
    ((r.removed ≡ none)
      × (sweep test o.size o.items ≡ record { deleted = 0; rest = o })
      × (r.rest ≡ o))
    ⊎ ((item : Item) × (r.removed ≡ some item)
        × (sweep test o.size o.items ≡ count_deleted (sweep test r.rest.size r.rest.items))
        × (suc (length r.rest.items) ≡ length o.items))

abbrev cons_item : Item → Outbox → Outbox
cons_item x o = record { size = o.size; items = x ∷ o.items }

Swept-cons :
    (test : Item → Bool) (x : Item) (o : Outbox) (r : Removal)
    → test x ≡ false
    → Swept test o r
    → Swept test (cons_item x o) (keep_front x r)
unfolding keep_front keep_item count_deleted
Swept-cons test x o r e (inl (a, b, c)) =
    inl (a, sweep_miss test o.size x o.items e ∙ ap (keep_item x) b, ap (cons_item x) c)
Swept-cons test x o r e (inr (item, a, b, c)) = inr (
  item,
  a,
  sweep_miss test o.size x o.items e
      ∙ ap (keep_item x) b
      ∙ ap count_deleted (sym (sweep_miss test r.rest.size x r.rest.items e)),
  ap suc c,
)

sweep_hit :
    (test : Item → Bool) (size : ℕ) (x : Item) (items : List Item)
    → test x ≡ true
    → sweep test size (x ∷ items) ≡ count_deleted (sweep test (sub64 size x.len) items)
unfolding sweep
sweep_hit test size x items e = rw e

remove_first_miss :
    (test : Item → Bool) (size : ℕ) (x : Item) (items : List Item)
    → test x ≡ false
    → remove_first test size (x ∷ items) ≡ keep_front x (remove_first test size items)
unfolding remove_first
remove_first_miss test size x items e = rw e

remove_first_hit :
    (test : Item → Bool) (size : ℕ) (x : Item) (items : List Item)
    → test x ≡ true
    → remove_first test size (x ∷ items)
      ≡ record { removed = some x; rest = record { size = sub64 size x.len; items = items } }
unfolding remove_first
remove_first_hit test size x items e = rw e

sweep-remove_first :
    (test : Item → Bool) (size : ℕ) (items : List Item)
    → Swept test (record { size = size; items = items }) (remove_first test size items)
sweep-remove_first test size [] = unfold remove_first sweep in inl (refl, refl, refl)
sweep-remove_first test size (x ∷ items) = elim (Bool-cases (test x)) [
  | inl e ↦
      rw (remove_first_hit test size x items e) (inr (x, refl, sweep_hit test size x items e, refl))
  | inr e ↦ rw (remove_first_miss test size x items e) (
      Swept-cons test x (record { size = size; items = items }) (remove_first test size items) e
        (sweep-remove_first test size items))
]

-- A round of the loop, by what `outbox_delete_single_expired` found.
round-Swept :
    (o : Outbox) (now timeout : ℤ)
    → let s = outbox_delete_expired o now timeout in
      let r = outbox_delete_single_expired o now timeout in
      ((r ≡ (o, negsuc 0)) × (s ≡ (o, 0)))
      ⊎ ((msg_id : ℕ) × (r.1 ≡ pos msg_id)
          × (s.0 ≡ (outbox_delete_expired r.0 now timeout).0)
          × (s.1 ≡ suc (outbox_delete_expired r.0 now timeout).1)
          × (suc (length r.0.items) ≡ length o.items))
unfolding outbox_delete_expired outbox_delete_single_expired count_deleted
round-Swept o now timeout =
    elim (sweep-remove_first (λ item. ltb_ℤ timeout (now -ℤ item.tick)) o.size o.items) [
      | inl (a, b, c) ↦
          inl (rw (a, outbox_delete_single_expired, c) refl, rw (b, outbox_delete_expired) refl)
      | inr (item, a, b, c) ↦ inr (
        item.msg_id,
        rw (a, outbox_delete_single_expired) refl,
        ap (λ (s : Sweep). s.rest) b,
        ap (λ (s : Sweep). s.deleted) b,
        c,
      )
    ]

abbrev pub Deletes : Option (Outbox × List ℕ) → Outbox × ℕ → Type 0
Deletes none s = ⊥
Deletes (some (o, ids)) s = (o ≡ s.0) × (length ids ≡ s.1)

Deletes-cons :
    (msg_id : ℕ) (m : Option (Outbox × List ℕ)) (s t : Outbox × ℕ)
    → s.0 ≡ t.0
    → s.1 ≡ suc t.1
    → Deletes m t
    → Deletes (Option.map (cons_id msg_id) m) s
Deletes-cons msg_id none s t a b d = d
Deletes-cons msg_id (some (o, ids)) s t a b d = (d.0 ∙ sym a, ap suc d.1 ∙ sym b)

-- With more rounds than there are items and a clock that stands still during the loop, the loop
-- that deletes expired messages one by one ends, leaves what one sweep of `outbox_delete_expired`
-- leaves, and reports as many message ids as the sweep deletes items.
pub mqtt_delete_expired_messages-outbox_delete_expired :
    (rounds : ℕ) (now timeout : ℤ) (o : Outbox)
    → length o.items < rounds
    → Deletes
        (mqtt_delete_expired_messages rounds (λ _. now) timeout o)
        (outbox_delete_expired o now timeout)
unfolding mqtt_delete_expired_messages
mqtt_delete_expired_messages-outbox_delete_expired zero now timeout o h = elim h [ ]
mqtt_delete_expired_messages-outbox_delete_expired (suc rounds) now timeout o h =
    elim (round-Swept o now timeout) [
      | inl (a, b) ↦ rw (a, mqtt_delete_expired_messages, b) (ap (λ (r : Outbox × ℤ). r.0) a, refl)
      | inr (msg_id, a, b, c, d) ↦
          rw (a, mqtt_delete_expired_messages)
            (Deletes-cons msg_id _ _ _ b c (
              mqtt_delete_expired_messages-outbox_delete_expired rounds now timeout
                (outbox_delete_single_expired o now timeout).0 (omega arith)))
    ]

unfoldable pub others : ℕ → List Item → List Item
others msg_type [] = []
others msg_type (x ∷ items) =
    if x.msg_type % 256 == msg_type then others msg_type items else x ∷ others msg_type items

sweep-others :
    (msg_type size : ℕ) (items : List Item)
    → let s = sweep (λ item. item.msg_type % 256 == msg_type) size items in
      (s.rest.items ≡ others msg_type items) × (length items ≡ s.deleted + length s.rest.items)
unfolding others count_deleted keep_item
sweep-others msg_type size [] = unfold sweep in (refl, refl)
sweep-others msg_type size (x ∷ items) = elim (Bool-cases (x.msg_type % 256 == msg_type)) [
  | inl e ↦
      let ih = sweep-others msg_type (sub64 size x.len) items in
      rw (e, sweep_hit (λ item. item.msg_type % 256 == msg_type) size x items e)
        (ih.0, omega (arith, ih.1))
  | inr e ↦
      let ih = sweep-others msg_type size items in
      rw (e, sweep_miss (λ item. item.msg_type % 256 == msg_type) size x items e)
        (ap (◌∷◌ x) ih.0, omega (arith, ih.1))
]

-- Dropping the packets of one type (old SUBSCRIBEs when a connection is aborted) keeps exactly the
-- items of the other types, in their order, and answers with the number of items that it dropped.
pub outbox_delete_message_type-others :
    (o : Outbox) (msg_type : ℕ)
    → ((outbox_delete_message_type o msg_type).0.items ≡ others msg_type o.items)
      × (length o.items
          ≡ (outbox_delete_message_type o msg_type).1
            + length (outbox_delete_message_type o msg_type).0.items)
unfolding outbox_delete_message_type
outbox_delete_message_type-others o msg_type = sweep-others msg_type o.size o.items
