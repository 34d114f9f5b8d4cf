-- ===== src/Outbox/Runs.antt =====
-- Concrete outboxes: tests of lib/mqtt_outbox.c, and its theorems at concrete inputs.
use esp_mqtt.Base.{
  ℕ, suc, ◌+◌, ◌<◌, ◌≡◌, ◌⊎◌, ◌↔◌, refl, Bool, true, false, Option, none, some, List, [], ◌∷◌,
  arith, ap, replicate, length-replicate, length, ◌==◌, if◌then◌else◌, All,
}
use esp_mqtt.Base.Int.{ℤ, pos}
use esp_mqtt.Outbox.{
  Item, Outbox, Message, Heap, queued, transmitted, same_state, esp_ok, esp_fail, outbox_init,
  outbox_enqueue, outbox_get, outbox_dequeue, outbox_delete_item, outbox_delete, outbox_set_pending,
  outbox_delete_expired, outbox_delete_message_type,
}
use esp_mqtt.Outbox.Counting.{
  IsValid, Allocates, Call, enqueues, deletes_expired, run, run-outbox_init-IsValid,
}
use esp_mqtt.Outbox.Search.{
  FirstAt, Removes, has_id_and_type, mark, outbox_delete_item-outbox_enqueue, outbox_dequeue_oldest,
  outbox_delete_acknowledged, outbox_get-outbox_set_pending,
}
use esp_mqtt.Outbox.Expiry.{
  Deletes, others, mqtt_delete_expired_messages, mqtt_delete_expired_messages-outbox_delete_expired,
  outbox_delete_message_type-others,
}

abbrev heap_at : ℕ → Heap
heap_at addr = record { calloc = some addr; malloc = λ n. some (replicate n 0) }

abbrev block_length : ℕ → Option (List ℕ) → ℕ
block_length n none = n
block_length n (some block) = length block

heap_at-Allocates : (addr : ℕ) → Allocates (heap_at addr)
heap_at-Allocates addr n block e = cc (ap (block_length n) e, length-replicate {A = ℕ} n 0)

-- A PUBLISH of two bytes with three bytes of payload behind them.
abbrev publish : Message
publish = record {
  content = 0x32 ∷ 3 ∷ 99 ∷ [];
  len = 2;
  msg_id = 7;
  msg_qos = 1;
  msg_type = 3;
  remaining_data = some (97 ∷ 98 ∷ 99 ∷ []);
  remaining_len = 3;
}

abbrev item_at : ℕ → ℤ → Item
item_at addr tick = record {
  addr = addr;
  buffer = 0x32 ∷ 3 ∷ 97 ∷ 98 ∷ 99 ∷ [];
  len = 5;
  msg_id = 7;
  msg_type = 3;
  msg_qos = 1;
  tick = tick;
  pending = queued;
}

enqueue_copies_both_parts :
    outbox_enqueue (heap_at 16) outbox_init publish (pos 100)
    ≡ (record { size = 5; items = item_at 16 (pos 100) ∷ [] }, some 16)
unfolding outbox_enqueue outbox_init esp_mqtt.Base.Bytes.add64
enqueue_copies_both_parts = refl

abbrev two_items : Outbox
two_items = record { size = 10; items = item_at 16 (pos 100) ∷ item_at 32 (pos 900) ∷ [] }

expired_leaves_the_young :
    outbox_delete_expired two_items (pos 1000) (pos 500)
    ≡ (record { size = 5; items = item_at 32 (pos 900) ∷ [] }, 1)
unfolding outbox_delete_expired esp_mqtt.Base.Bytes.sub64
expired_leaves_the_young = refl

abbrev history : List Call
history =
    enqueues (heap_at 16) (heap_at-Allocates 16) publish (pos 100)
    ∷ enqueues (heap_at 32) (heap_at-Allocates 32) publish (pos 900)
    ∷ deletes_expired (pos 1000) (pos 500)
    ∷ []

run-outbox_init-IsValid_example : IsValid (run outbox_init history)
run-outbox_init-IsValid_example = run-outbox_init-IsValid history

outbox_dequeue_oldest_example :
    ((outbox_dequeue two_items transmitted ≡ none)
      × All (λ i. same_state i.pending transmitted ≡ false) two_items.items)
    ⊎ ((item : Item) × (outbox_dequeue two_items transmitted ≡ some (item, item.tick))
        × FirstAt (λ i. same_state i.pending transmitted) two_items.items item)
outbox_dequeue_oldest_example = outbox_dequeue_oldest two_items transmitted

outbox_delete_acknowledged_example :
    ((outbox_delete two_items 7 3 ≡ (two_items, esp_fail))
      × All (λ i. has_id_and_type 7 3 i ≡ false) two_items.items)
    ⊎ ((item : Item) × ((outbox_delete two_items 7 3).1 ≡ esp_ok)
        × Removes (has_id_and_type 7 3) two_items (some item) (outbox_delete two_items 7 3).0)
outbox_delete_acknowledged_example = outbox_delete_acknowledged two_items 7 3

outbox_delete_item-outbox_enqueue_example :
    outbox_delete_item (outbox_enqueue (heap_at 48) two_items publish (pos 950)).0 48
    ≡ (two_items, esp_ok)
unfolding outbox_enqueue
outbox_delete_item-outbox_enqueue_example =
    outbox_delete_item-outbox_enqueue (heap_at 48) two_items publish (pos 950) 48 refl
      (refl, (refl, tt)) (omega arith)

outbox_get-outbox_set_pending_example :
    (((outbox_set_pending two_items 7 transmitted).1 ≡ esp_fail) ↔ (outbox_get two_items 7 ≡ none))
    × (outbox_get (outbox_set_pending two_items 7 transmitted).0 7 ≡ (
        if 7 == 7 then some (mark transmitted (item_at 16 (pos 100))) else outbox_get two_items 7))
unfolding outbox_get
outbox_get-outbox_set_pending_example = outbox_get-outbox_set_pending two_items 7 7 transmitted

mqtt_delete_expired_messages_example :
    Deletes
      (mqtt_delete_expired_messages 3 (λ _. pos 1000) (pos 500) two_items)
      (outbox_delete_expired two_items (pos 1000) (pos 500))
mqtt_delete_expired_messages_example =
    mqtt_delete_expired_messages-outbox_delete_expired 3 (pos 1000) (pos 500) two_items
      (omega arith)

outbox_delete_message_type-others_example :
    ((outbox_delete_message_type two_items 8).0.items ≡ others 8 two_items.items)
    × (2
        ≡ (outbox_delete_message_type two_items 8).1
          + length (outbox_delete_message_type two_items 8).0.items)
outbox_delete_message_type-others_example = outbox_delete_message_type-others two_items 8
