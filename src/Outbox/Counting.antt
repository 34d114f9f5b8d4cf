-- ===== src/Outbox/Counting.antt =====
-- The size counter and the buffers of lib/mqtt_outbox.c through any sequence of calls.
use esp_mqtt.Base.{
  ℕ, ◌+◌, ◌%◌, ◌^◌, ◌≡◌, refl, Bool, true, some, List, [], ◌∷◌, ◌++◌, ◌==◌, length, take, overwrite,
  length-overwrite, All, arith, Bool-cases, inl, inr, Option-cases,
}
use esp_mqtt.Base.Int.{ℤ}
use esp_mqtt.Base.Bytes.{add64, sub64, sub64-add64, add64_mod}
use esp_mqtt.Outbox.{
  Item, Outbox, Message, Heap, PendingState, outbox_init, fill, outbox_enqueue, outbox_get,
  remove_first, sweep, update_first, outbox_delete_item, outbox_delete,
  outbox_delete_single_expired, outbox_delete_message_type, outbox_delete_expired,
  outbox_delete_all_items, outbox_set_pending, outbox_set_tick,
}

-- The bytes that the queued items hold.
unfoldable pub total : List Item → ℕ
total [] = 0
total (item ∷ rest) = item.len + total rest

-- An item's block has the length that its `len` field states.
abbrev pub HasLength : Item → Type 0
HasLength item = length item.buffer ≡ item.len

pub record IsValid (o : Outbox) : Type 0 where
  pub counted : o.size ≡ total o.items % 2 ^ 64
  pub blocks : All HasLength o.items

-- `heap_caps_malloc` returns a block of the size that was asked for.
abbrev pub Allocates : Heap → Type 0
Allocates h = (n : ℕ) (block : List ℕ) → h.malloc n ≡ some block → length block ≡ n

pub length-fill : (m : Message) (block : List ℕ) → length (fill m block) ≡ length block
unfolding fill
length-fill m block = elim (Option-cases m.remaining_data) [
  | inl e ↦ rw (e, fill) (length-overwrite block 0 (take m.len m.content))
  | inr (rest, e) ↦
      rw (e, fill)
        (omega (
          arith,
          length-overwrite (overwrite block 0 (take m.len m.content)) m.len
              (take m.remaining_len rest),
          length-overwrite block 0 (take m.len m.content),
        ))
]

total-append : (xs ys : List Item) → total (xs ++ ys) ≡ total xs + total ys
unfolding total
total-append [] ys = omega arith
total-append (x ∷ xs) ys = omega (arith, total-append xs ys)

All-append {ℓ κ} :
    {A : Type ℓ} (P : A → Type κ) (xs ys : List A) → All P xs → All P ys → All P (xs ++ ys)
All-append P [] ys hx hy = hy
All-append P (x ∷ xs) ys hx hy = (hx.0, All-append P xs ys hx.1 hy)

-- `seen` counts the items that a loop has passed.
abbrev Counted : ℕ → Outbox → Type 0
Counted seen o = (o.size ≡ (seen + total o.items) % 2 ^ 64) × All HasLength o.items

remove_first-Counted :
    (test : Item → Bool) (seen size : ℕ) (items : List Item)
    → size ≡ (seen + total items) % 2 ^ 64
    → All HasLength items
    → Counted seen (remove_first test size items).rest
unfolding remove_first total
remove_first-Counted test seen size [] c b = (c, b)
remove_first-Counted test seen size (item ∷ more) c b = elim (Bool-cases (test item)) [
  | inl e ↦ rw e (omega (arith, sub64-add64 size (seen + total more) item.len), b.1)
  | inr e ↦ rw e (
      let ih = remove_first-Counted test (seen + item.len) size more (omega arith) b.1 in
      (omega (arith, ih.0), (b.0, ih.1)))
]

sweep-Counted :
    (test : Item → Bool) (seen size : ℕ) (items : List Item)
    → size ≡ (seen + total items) % 2 ^ 64
    → All HasLength items
    → Counted seen (sweep test size items).rest
unfolding sweep total
sweep-Counted test seen size [] c b = (c, b)
sweep-Counted test seen size (item ∷ more) c b = elim (Bool-cases (test item)) [
  | inl e ↦ rw e (
      sweep-Counted test seen (sub64 size item.len) more
        (omega (arith, sub64-add64 size (seen + total more) item.len)) b.1)
  | inr e ↦ rw e (
      let ih = sweep-Counted test (seen + item.len) size more (omega arith) b.1 in
      (omega (arith, ih.0), (b.0, ih.1)))
]

of_Counted : {o : Outbox} → Counted 0 o → IsValid o
of_Counted {o} c = record { counted = omega (arith, c.0); blocks = c.1 }

remove_first-IsValid :
    (test : Item → Bool) (o : Outbox) → IsValid o → IsValid (remove_first test o.size o.items).rest
remove_first-IsValid test o v =
    of_Counted (remove_first-Counted test 0 o.size o.items (omega (arith, v.counted)) v.blocks)

sweep-IsValid :
    (test : Item → Bool) (o : Outbox) → IsValid o → IsValid (sweep test o.size o.items).rest
sweep-IsValid test o v =
    of_Counted (sweep-Counted test 0 o.size o.items (omega (arith, v.counted)) v.blocks)

-- A write that leaves `len` and the block alone.
update_first-keeps :
    (msg_id : ℕ) (f : Item → Item) (items : List Item)
    → ((item : Item) → (f item).len ≡ item.len)
    → ((item : Item) → HasLength item → HasLength (f item))
    → All HasLength items
    → (total (update_first msg_id f items) ≡ total items)
      × All HasLength (update_first msg_id f items)
unfolding update_first total
update_first-keeps msg_id f [] same has b = (refl, b)
update_first-keeps msg_id f (item ∷ rest) same has b = elim (Bool-cases (item.msg_id == msg_id)) [
  | inl e ↦ rw e (omega (arith, same item), (has item b.0, b.1))
  | inr e ↦
      rw e (
        let ih = update_first-keeps msg_id f rest same has b.1 in
        (omega (arith, ih.0), (b.0, ih.1)))
]

update_first-IsValid :
    (msg_id : ℕ) (f : Item → Item) (o : Outbox)
    → ((item : Item) → (f item).len ≡ item.len)
    → ((item : Item) → HasLength item → HasLength (f item))
    → IsValid o
    → IsValid (record o { items = update_first msg_id f o.items })
update_first-IsValid msg_id f o same has v =
    let k = update_first-keeps msg_id f o.items same has v.blocks in
    record { counted = rw k.0 v.counted; blocks = k.1 }

push-IsValid :
    (o : Outbox) (item : Item)
    → IsValid o
    → HasLength item
    → IsValid (record { size = add64 o.size item.len; items = o.items ++ (item ∷ []) })
unfolding total
push-IsValid o item v b = record {
  counted = omega (
    arith,
    total-append o.items (item ∷ []),
    add64_mod o.size (total o.items) item.len v.counted,
  );
  blocks = All-append HasLength o.items (item ∷ []) v.blocks (b, tt);
}

enqueue-IsValid :
    (h : Heap) (o : Outbox) (m : Message) (tick : ℤ)
    → Allocates h
    → IsValid o
    → IsValid (outbox_enqueue h o m tick).0
unfolding outbox_enqueue
enqueue-IsValid h o m tick a v = elim (Option-cases h.calloc) [
  | inl e ↦ rw (e, outbox_enqueue) v
  | inr (addr, e) ↦ elim (Option-cases (h.malloc (m.len + m.remaining_len))) [
    | inl f ↦ rw (e, f, outbox_enqueue) v
    | inr (block, f) ↦
        rw (e, f, outbox_enqueue)
          (push-IsValid o _ v (omega (arith, length-fill m block, a _ block f)))
  ]
]

set_pending-IsValid :
    (o : Outbox) (msg_id : ℕ) (p : PendingState)
    → IsValid o
    → IsValid (outbox_set_pending o msg_id p).0
unfolding outbox_set_pending
set_pending-IsValid o msg_id p v = elim (Option-cases (outbox_get o msg_id)) [
  | inl e ↦ rw (e, outbox_set_pending) v
  | inr (item, e) ↦
      rw (e, outbox_set_pending) (update_first-IsValid msg_id _ o (λ _. refl) (λ _ b. b) v)
]

set_tick-IsValid :
    (o : Outbox) (msg_id : ℕ) (tick : ℤ) → IsValid o → IsValid (outbox_set_tick o msg_id tick).0
unfolding outbox_set_tick
set_tick-IsValid o msg_id tick v = elim (Option-cases (outbox_get o msg_id)) [
  | inl e ↦ rw (e, outbox_set_tick) v
  | inr (item, e) ↦
      rw (e, outbox_set_tick) (update_first-IsValid msg_id _ o (λ _. refl) (λ _ b. b) v)
]

-- The calls that change an outbox, with their arguments.
pub data Call : Type 0 where
  enqueues : (h : Heap) → Allocates h → Message → ℤ → Call
  deletes_item : ℕ → Call
  deletes : ℕ → ℕ → Call
  deletes_message_type : ℕ → Call
  deletes_single_expired deletes_expired : ℤ → ℤ → Call
  sets_pending : ℕ → PendingState → Call
  sets_tick : ℕ → ℤ → Call
  deletes_all_items : Call

unfoldable pub step : Outbox → Call → Outbox
step o (enqueues h a m tick) = (outbox_enqueue h o m tick).0
step o (deletes_item addr) = (outbox_delete_item o addr).0
step o (deletes msg_id msg_type) = (outbox_delete o msg_id msg_type).0
step o (deletes_message_type msg_type) = (outbox_delete_message_type o msg_type).0
step o (deletes_single_expired now timeout) = (outbox_delete_single_expired o now timeout).0
step o (deletes_expired now timeout) = (outbox_delete_expired o now timeout).0
step o (sets_pending msg_id p) = (outbox_set_pending o msg_id p).0
step o (sets_tick msg_id tick) = (outbox_set_tick o msg_id tick).0
step o deletes_all_items = outbox_delete_all_items o

step-IsValid : (o : Outbox) (c : Call) → IsValid o → IsValid (step o c)
unfolding step outbox_delete_item outbox_delete outbox_delete_message_type
    outbox_delete_single_expired outbox_delete_expired outbox_delete_all_items
step-IsValid o (enqueues h a m tick) v = enqueue-IsValid h o m tick a v
step-IsValid o (deletes_item addr) v = remove_first-IsValid _ o v
step-IsValid o (deletes msg_id msg_type) v = remove_first-IsValid _ o v
step-IsValid o (deletes_message_type msg_type) v = sweep-IsValid _ o v
step-IsValid o (deletes_single_expired now timeout) v = remove_first-IsValid _ o v
step-IsValid o (deletes_expired now timeout) v = sweep-IsValid _ o v
step-IsValid o (sets_pending msg_id p) v = set_pending-IsValid o msg_id p v
step-IsValid o (sets_tick msg_id tick) v = set_tick-IsValid o msg_id tick v
step-IsValid o deletes_all_items v = sweep-IsValid (λ _. true) o v

unfoldable pub run : Outbox → List Call → Outbox
run o [] = o
run o (c ∷ cs) = run (step o c) cs

run-IsValid : (o : Outbox) (cs : List Call) → IsValid o → IsValid (run o cs)
unfolding run
run-IsValid o [] v = v
run-IsValid o (c ∷ cs) v = run-IsValid (step o c) cs (step-IsValid o c v)

-- After any sequence of calls on a new outbox, `outbox_get_size` is the sum of the lengths of the
-- items in the queue, modulo 2 ^ 64, and each item's block is as long as its `len` says.
pub run-outbox_init-IsValid : (cs : List Call) → IsValid (run outbox_init cs)
unfolding outbox_init total
run-outbox_init-IsValid cs = run-IsValid _ cs (record { counted = refl; blocks = tt })
