-- ===== src/Outbox/Search.antt =====
-- Which item each loop of lib/mqtt_outbox.c finds, marks or takes out.
use mathlib.Core.Option
use mathlib.Core.Path.{subst}
use esp_mqtt.Base.{
  ℕ, ◌+◌, ◌%◌, ◌^◌, ◌<◌, ◌≡◌, ◌≢◌, ◌⊎◌, ◌↔◌, refl, ap, Bool, true, false, ◌&&◌, Option, none, some,
  List, [], ◌∷◌, ◌++◌, ◌==◌, ==_iff, if◌then◌else◌, All, arith, Bool-cases, inl, inr, Option-cases,
}
use esp_mqtt.Base.Int.{ℤ}
use esp_mqtt.Base.Bytes.{add64, sub64}
use esp_mqtt.Outbox.{
  Item, Outbox, Message, Heap, PendingState, same_state, Removal, EspErr, esp_ok, esp_fail, first,
  remove_first, update_first, outbox_enqueue, outbox_get, outbox_dequeue, outbox_delete_item,
  outbox_delete, outbox_set_pending, keep_front, status,
}

-- `item` is the first of `items` to pass the test.
pub record FirstAt (test : Item → Bool) (items : List Item) (item : Item) : Type 0 where
  pub front : List Item
  pub back : List Item
  pub at : items ≡ front ++ (item ∷ back)
  pub passed : test item ≡ true
  pub skipped : All (λ i. test i ≡ false) front

abbrev pub IsFirst : (Item → Bool) → List Item → Option Item → Type 0
IsFirst test items none = All (λ i. test i ≡ false) items
IsFirst test items (some item) = FirstAt test items item

IsFirst-cons :
    (test : Item → Bool) (x : Item) (items : List Item) (r : Option Item)
    → test x ≡ false
    → IsFirst test items r
    → IsFirst test (x ∷ items) r
IsFirst-cons test x items none e h = (e, h)
IsFirst-cons test x items (some item) e h = record {
  front = x ∷ h.front;
  back = h.back;
  at = ap (◌∷◌ x) h.at;
  passed = h.passed;
  skipped = (e, h.skipped);
}

first-IsFirst : (test : Item → Bool) (items : List Item) → IsFirst test items (first test items)
unfolding first
first-IsFirst test [] = tt
first-IsFirst test (x ∷ items) = elim (Bool-cases (test x)) [
  | inl e ↦ rw e (record { front = []; back = items; at = refl; passed = e; skipped = tt })
  | inr e ↦ rw e (IsFirst-cons test x items (first test items) e (first-IsFirst test items))
]

-- `outbox_dequeue` hands out the oldest item in the asked state together with its tick, and NULL
-- only when no item is in that state.
pub outbox_dequeue_oldest :
    (o : Outbox) (p : PendingState)
    → ((outbox_dequeue o p ≡ none) × All (λ i. same_state i.pending p ≡ false) o.items)
      ⊎ ((item : Item) × (outbox_dequeue o p ≡ some (item, item.tick))
          × FirstAt (λ i. same_state i.pending p) o.items item)
unfolding outbox_dequeue
outbox_dequeue_oldest o p = elim (Option-cases (first (λ i. same_state i.pending p) o.items)) [
  | inl e ↦ inl (
    rw (e, outbox_dequeue) refl,
    subst (IsFirst _ o.items) e (first-IsFirst (λ i. same_state i.pending p) o.items),
  )
  | inr (item, e) ↦ inr (
    item,
    rw (e, outbox_dequeue) refl,
    subst (IsFirst _ o.items) e (first-IsFirst (λ i. same_state i.pending p) o.items),
  )
]

-- What a removal loop does, by what it took out.
abbrev pub Removes : (Item → Bool) → Outbox → Option Item → Outbox → Type 0
Removes test o none o' = (o' ≡ o) × All (λ i. test i ≡ false) o.items
Removes test o (some item) o' =
    (w : FirstAt test o.items item) × (o'.items ≡ w.front ++ w.back)
    × (o'.size ≡ sub64 o.size item.len)

Removes-cons :
    (test : Item → Bool) (x : Item) (size : ℕ) (items : List Item) (r : Removal)
    → test x ≡ false
    → Removes test (record { size = size; items = items }) r.removed r.rest
    → Removes test
        (record { size = size; items = x ∷ items })
        (keep_front x r).removed
        (keep_front x r).rest
unfolding keep_front
Removes-cons test x size items r e h = go r.removed r.rest h
  where
    go :
        (removed : Option Item) (o' : Outbox)
        → Removes test (record { size = size; items = items }) removed o'
        → Removes test
            (record { size = size; items = x ∷ items })
            removed
            (record { size = o'.size; items = x ∷ o'.items })
    go none o' (same, all) =
        (ap (λ (o : Outbox). record { size = o.size; items = x ∷ o.items }) same, (e, all))
    go (some item) o' (w, kept, less) = (
      record {
        front = x ∷ w.front;
        back = w.back;
        at = ap (◌∷◌ x) w.at;
        passed = w.passed;
        skipped = (e, w.skipped);
      },
      ap (◌∷◌ x) kept,
      less,
    )

remove_first-Removes :
    (test : Item → Bool) (size : ℕ) (items : List Item)
    → let r = remove_first test size items in
      Removes test (record { size = size; items = items }) r.removed r.rest
unfolding remove_first
remove_first-Removes test size [] = (refl, tt)
remove_first-Removes test size (x ∷ items) = elim (Bool-cases (test x)) [
  | inl e ↦
      rw e (record { front = []; back = items; at = refl; passed = e; skipped = tt }, refl, refl)
  | inr e ↦ rw e (
      Removes-cons test x size items (remove_first test size items) e
        (remove_first-Removes test size items))
]

abbrev pub has_id_and_type : ℕ → ℕ → Item → Bool
has_id_and_type msg_id msg_type i = i.msg_id == msg_id && i.msg_type % 256 == msg_type

-- An acknowledgement: `outbox_delete` takes out the oldest item with this id and message type, and
-- nothing else, and answers ESP_OK; where no item has both it answers ESP_FAIL and changes nothing.
pub outbox_delete_acknowledged :
    (o : Outbox) (msg_id msg_type : ℕ)
    → ((outbox_delete o msg_id msg_type ≡ (o, esp_fail))
        × All (λ i. has_id_and_type msg_id msg_type i ≡ false) o.items)
      ⊎ ((item : Item) × ((outbox_delete o msg_id msg_type).1 ≡ esp_ok)
          × Removes
              (has_id_and_type msg_id msg_type)
              o
              (some item)
              (outbox_delete o msg_id msg_type).0)
unfolding outbox_delete
outbox_delete_acknowledged o msg_id msg_type =
    go (remove_first _ o.size o.items) (remove_first-Removes _ o.size o.items)
  where
    go :
        (r : Removal)
        → Removes (has_id_and_type msg_id msg_type) o r.removed r.rest
        → ((◌≡◌ {A = Outbox × EspErr} (r.rest, status r.removed) (o, esp_fail))
            × All (λ i. has_id_and_type msg_id msg_type i ≡ false) o.items)
          ⊎ ((item : Item) × (status r.removed ≡ esp_ok)
              × Removes (has_id_and_type msg_id msg_type) o (some item) r.rest)
    go r h = by_removed r.removed r.rest h
      where
        by_removed :
            (removed : Option Item) (o' : Outbox)
            → Removes (has_id_and_type msg_id msg_type) o removed o'
            → ((◌≡◌ {A = Outbox × EspErr} (o', status removed) (o, esp_fail))
                × All (λ i. has_id_and_type msg_id msg_type i ≡ false) o.items)
              ⊎ ((item : Item) × (status removed ≡ esp_ok)
                  × Removes (has_id_and_type msg_id msg_type) o (some item) o')
        by_removed none o' (same, all) = inl (ap (λ (x : Outbox). (x, esp_fail)) same, all)
        by_removed (some item) o' w = inr (item, refl, w)

remove_first_last :
    (test : Item → Bool) (size : ℕ) (items : List Item) (item : Item)
    → All (λ i. test i ≡ false) items
    → test item ≡ true
    → remove_first test size (items ++ (item ∷ []))
      ≡ record { removed = some item; rest = record { size = sub64 size item.len; items = items } }
unfolding remove_first keep_front
remove_first_last test size [] item none_before hit = rw hit
remove_first_last test size (x ∷ items) item (miss, misses) hit =
    rw (miss, remove_first_last test size items item misses hit)

sub64-add64_same : (size n : ℕ) → size < 2 ^ 64 → sub64 (add64 size n) n ≡ size
unfolding sub64 add64
sub64-add64_same size n small = omega arith

delete_last :
    (o : Outbox) (item : Item) (addr : ℕ)
    → item.addr ≡ addr
    → All (λ i. (i.addr == addr) ≡ false) o.items
    → o.size < 2 ^ 64
    → outbox_delete_item
        (record { size = add64 o.size item.len; items = o.items ++ (item ∷ []) })
        addr
      ≡ (o, esp_ok)
unfolding outbox_delete_item
delete_last o item addr same fresh small = rw (
  remove_first_last (λ i. i.addr == addr) (add64 o.size item.len) o.items item fresh
      ((==_iff item.addr addr).1 same),
  sub64-add64_same o.size item.len small,
)

-- A packet that was queued under an address which no other item has leaves by its handle: deleting
-- the item that `outbox_enqueue` returned gives back the outbox as it was before, counter included,
-- for a counter within 64 bits.
pub outbox_delete_item-outbox_enqueue :
    (h : Heap) (o : Outbox) (m : Message) (tick : ℤ) (addr : ℕ)
    → (outbox_enqueue h o m tick).1 ≡ some addr
    → All (λ i. (i.addr == addr) ≡ false) o.items
    → o.size < 2 ^ 64
    → outbox_delete_item (outbox_enqueue h o m tick).0 addr ≡ (o, esp_ok)
unfolding outbox_enqueue
outbox_delete_item-outbox_enqueue h o m tick addr e fresh small = elim (Option-cases h.calloc) [
  | inl c ↦ absurd (ne (rw (c, outbox_enqueue) at e))
  | inr (a, c) ↦ elim (Option-cases (h.malloc (m.len + m.remaining_len))) [
    | inl d ↦ absurd (ne (rw (c, d, outbox_enqueue) at e))
    | inr (block, d) ↦
        rw (c, d, outbox_enqueue)
          (let same : a ≡ addr = cc (rw (c, d, outbox_enqueue) at e) in
            rw same (delete_last o _ addr refl fresh small))
  ]
]
  where
    ne : ◌≢◌ {A = Option ℕ} none (some addr)
    ne p = cc

first-update_first :
    (msg_id id : ℕ) (f : Item → Item) (items : List Item)
    → ((i : Item) → (f i).msg_id ≡ i.msg_id)
    → first (λ i. i.msg_id == id) (update_first msg_id f items) ≡ (
        if msg_id == id
        then Option.map f (first (λ i. i.msg_id == id) items)
        else first (λ i. i.msg_id == id) items)
unfolding first update_first
first-update_first msg_id id f [] keeps = ground arith
first-update_first msg_id id f (x ∷ items) keeps =
    ground (arith, keeps x, first-update_first msg_id id f items keeps)

abbrev pub mark : PendingState → Item → Item
mark p i = record i { pending = p }

absent :
    (msg_id id : ℕ) (f : Item → Item) (items : List Item)
    → first (λ i. i.msg_id == msg_id) items ≡ none
    → first (λ i. i.msg_id == id) items ≡ (
        if msg_id == id
        then Option.map f (first (λ i. i.msg_id == id) items)
        else first (λ i. i.msg_id == id) items)
absent msg_id id f items e = elim (Bool-cases (msg_id == id)) [
  | inl same ↦
      let here : first (λ i. i.msg_id == id) items ≡ none =
        subst (λ k. first (λ i. i.msg_id == k) items ≡ none) ((==_iff msg_id id).0 same) e in
      rw (same, here)
  | inr differ ↦ rw differ
]

-- Marking a message. `outbox_set_pending` answers ESP_OK exactly when `outbox_get` finds the id;
-- afterwards `outbox_get` gives under that id the same item in the new state, and under every other
-- id what it gave before.
pub outbox_get-outbox_set_pending :
    (o : Outbox) (msg_id id : ℕ) (p : PendingState)
    → (((outbox_set_pending o msg_id p).1 ≡ esp_fail) ↔ (outbox_get o msg_id ≡ none))
      × (outbox_get (outbox_set_pending o msg_id p).0 id
          ≡ (if msg_id == id then Option.map (mark p) (outbox_get o id) else outbox_get o id))
unfolding outbox_get outbox_set_pending
outbox_get-outbox_set_pending o msg_id id p = elim (Option-cases (outbox_get o msg_id)) [
  | inl e ↦ (
    (λ _. e, λ _. rw (e, outbox_set_pending) refl),
    rw (e, outbox_set_pending) (absent msg_id id (mark p) o.items e),
  )
  | inr (item, e) ↦ (
    (λ h. cc (rw (e, outbox_set_pending) at h), λ h. cc (e, h)),
    rw (e, outbox_set_pending) (first-update_first msg_id id (mark p) o.items (λ _. refl)),
  )
]
