-- ===== src/Outbox.antt =====
-- lib/mqtt_outbox.c with lib/include/mqtt_outbox.h: the queue of packets that wait for the network
-- or for an acknowledgement. A handle is the item's address; the STAILQ is a list, head first; a
-- tick is a `long long`. Allocation answers are arguments.
pub mod Counting
pub mod Search
pub mod Expiry
mod Runs
use esp_mqtt.Base.{
  ℕ, zero, suc, ◌+◌, ◌%◌, Bool, true, false, ◌&&◌, Option, none, some, List, [], ◌∷◌, ◌++◌, ◌==◌,
  if◌then◌else◌, take, overwrite,
}
use esp_mqtt.Base.Int.{ℤ, pos, negsuc, ◌-ℤ◌, ltb_ℤ}
use esp_mqtt.Base.Bytes.{add64, sub64}

pub data PendingState : Type 0 where
  queued transmitted acknowledged confirmed : PendingState

abbrev pub same_state : PendingState → PendingState → Bool
same_state queued queued = true
same_state transmitted transmitted = true
same_state acknowledged acknowledged = true
same_state confirmed confirmed = true
same_state _ _ = false

-- `outbox_item_t`; `addr` is the pointer by which callers name the item.
pub record Item : Type 0 where
  pub addr : ℕ
  pub buffer : List ℕ
  pub len : ℕ
  pub msg_id : ℕ
  pub msg_type : ℕ
  pub msg_qos : ℕ
  pub tick : ℤ
  pub pending : PendingState

-- `struct outbox_t`
pub record Outbox : Type 0 where
  pub size : ℕ
  pub items : List Item

-- `outbox_message_t`; `remaining_data` may be NULL.
pub record Message : Type 0 where
  pub content : List ℕ
  pub len : ℕ
  pub msg_id : ℕ
  pub msg_qos : ℕ
  pub msg_type : ℕ
  pub remaining_data : Option (List ℕ)
  pub remaining_len : ℕ

-- What the heap answers: the address of a zeroed item, and a block of bytes of the asked size.
pub record Heap : Type 0 where
  pub calloc : Option ℕ
  pub malloc : ℕ → Option (List ℕ)

pub data EspErr : Type 0 where
  esp_ok esp_fail : EspErr

unfoldable pub outbox_init : Outbox
outbox_init = record { size = 0; items = [] }

-- The two `memcpy` of `outbox_enqueue`.
unfoldable pub fill : Message → List ℕ → List ℕ
fill m block =
    let first = overwrite block 0 (take m.len m.content) in
    elim m.remaining_data [
      | none ↦ first
      | some rest ↦ overwrite first m.len (take m.remaining_len rest)
    ]

unfoldable pub outbox_enqueue : Heap → Outbox → Message → ℤ → Outbox × Option ℕ
unfolding fill
outbox_enqueue h o m tick = elim h.calloc [
  | none ↦ (o, none)
  | some addr ↦ elim (h.malloc (m.len + m.remaining_len)) [
    | none ↦ (o, none)
    | some block ↦
        let item : Item = record {
          addr = addr;
          buffer = fill m block;
          len = m.len + m.remaining_len;
          msg_id = m.msg_id;
          msg_type = m.msg_type;
          msg_qos = m.msg_qos;
          tick = tick;
          pending = queued;
        } in
        (record { size = add64 o.size item.len; items = o.items ++ (item ∷ []) }, some addr)
  ]
]

-- A `STAILQ_FOREACH` that returns the first item that passes the test.
unfoldable pub first : (Item → Bool) → List Item → Option Item
first test [] = none
first test (item ∷ rest) = if test item then some item else first test rest

unfoldable pub outbox_get : Outbox → ℕ → Option Item
unfolding first
outbox_get o msg_id = first (λ item. item.msg_id == msg_id) o.items

-- The item, and what is stored through `tick`.
unfoldable pub outbox_dequeue : Outbox → PendingState → Option (Item × ℤ)
unfolding first
outbox_dequeue o p = elim (first (λ item. same_state item.pending p) o.items) [
  | none ↦ none
  | some item ↦ some (item, item.tick)
]

-- The item that a loop took out, and what is left.
pub record Removal : Type 0 where
  pub removed : Option Item
  pub rest : Outbox

keep_front : Item → Removal → Removal
keep_front item r = record r { rest = record { size = r.rest.size; items = item ∷ r.rest.items } }

-- A loop that unlinks the first item that passes the test, lowers `size`, and returns.
unfoldable pub remove_first : (Item → Bool) → ℕ → List Item → Removal
unfolding keep_front
remove_first test size [] = record { removed = none; rest = record { size = size; items = [] } }
remove_first test size (item ∷ more) =
    if test item
    then record { removed = some item; rest = record { size = sub64 size item.len; items = more } }
    else keep_front item (remove_first test size more)

abbrev status : Option Item → EspErr
status none = esp_fail
status (some _) = esp_ok

unfoldable pub outbox_delete_item : Outbox → ℕ → Outbox × EspErr
unfolding remove_first
outbox_delete_item o addr =
    let r = remove_first (λ item. item.addr == addr) o.size o.items in (r.rest, status r.removed)

unfoldable pub outbox_delete : Outbox → ℕ → ℕ → Outbox × EspErr
unfolding remove_first
outbox_delete o msg_id msg_type =
    let r =
      remove_first (λ item. item.msg_id == msg_id && item.msg_type % 256 == msg_type) o.size
        o.items in
    (r.rest, status r.removed)

-- -1 stands for "none"; a message id is not negative.
unfoldable pub outbox_delete_single_expired : Outbox → ℤ → ℤ → Outbox × ℤ
unfolding remove_first
outbox_delete_single_expired o now timeout =
    let r = remove_first (λ item. ltb_ℤ timeout (now -ℤ item.tick)) o.size o.items in
    (r.rest, elim r.removed [ none ↦ negsuc 0 | some item ↦ pos item.msg_id ])

pub record Sweep : Type 0 where
  pub deleted : ℕ
  pub rest : Outbox

keep_item : Item → Sweep → Sweep
keep_item item s = record s { rest = record { size = s.rest.size; items = item ∷ s.rest.items } }

count_deleted : Sweep → Sweep
count_deleted s = record s { deleted = suc s.deleted }

-- A `STAILQ_FOREACH_SAFE` that unlinks every item that passes the test.
unfoldable pub sweep : (Item → Bool) → ℕ → List Item → Sweep
unfolding keep_item count_deleted
sweep test size [] = record { deleted = 0; rest = record { size = size; items = [] } }
sweep test size (item ∷ more) =
    let hit = test item in
    let s = sweep test (if hit then sub64 size item.len else size) more in
    if hit then count_deleted s else keep_item item s

unfoldable pub outbox_delete_message_type : Outbox → ℕ → Outbox × ℕ
unfolding sweep
outbox_delete_message_type o msg_type =
    let s = sweep (λ item. item.msg_type % 256 == msg_type) o.size o.items in (s.rest, s.deleted)

unfoldable pub outbox_delete_expired : Outbox → ℤ → ℤ → Outbox × ℕ
unfolding sweep
outbox_delete_expired o now timeout =
    let s = sweep (λ item. ltb_ℤ timeout (now -ℤ item.tick)) o.size o.items in (s.rest, s.deleted)

unfoldable pub outbox_delete_all_items : Outbox → Outbox
unfolding sweep
outbox_delete_all_items o = (sweep (λ _. true) o.size o.items).rest

-- A write through the pointer that `outbox_get` returned: the first item with this id.
unfoldable pub update_first : ℕ → (Item → Item) → List Item → List Item
update_first msg_id f [] = []
update_first msg_id f (item ∷ rest) =
    if item.msg_id == msg_id then f item ∷ rest else item ∷ update_first msg_id f rest

unfoldable pub outbox_set_pending : Outbox → ℕ → PendingState → Outbox × EspErr
unfolding outbox_get update_first
outbox_set_pending o msg_id p = elim (outbox_get o msg_id) [
  | none ↦ (o, esp_fail)
  | some _ ↦ (
    record o { items = update_first msg_id (λ item. record item { pending = p }) o.items },
    esp_ok,
  )
]

unfoldable pub outbox_set_tick : Outbox → ℕ → ℤ → Outbox × EspErr
unfolding outbox_get update_first
outbox_set_tick o msg_id tick = elim (outbox_get o msg_id) [
  | none ↦ (o, esp_fail)
  | some _ ↦ (
    record o { items = update_first msg_id (λ item. record item { tick = tick }) o.items },
    esp_ok,
  )
]

unfoldable pub outbox_item_get_pending : Option Item → PendingState
outbox_item_get_pending none = queued
outbox_item_get_pending (some item) = item.pending

-- `outbox_item_get_data`: the block and what is stored through `len`, `msg_id` (a `uint16_t`),
-- `msg_type` and `qos`.
pub record ItemData : Type 0 where
  pub buffer : List ℕ
  pub len : ℕ
  pub msg_id : ℕ
  pub msg_type : ℕ
  pub qos : ℕ

unfoldable pub outbox_item_get_data : Option Item → Option ItemData
outbox_item_get_data none = none
outbox_item_get_data (some item) = some (record {
  buffer = item.buffer;
  len = item.len;
  msg_id = item.msg_id % 65536;
  msg_type = item.msg_type;
  qos = item.msg_qos;
})

abbrev pub outbox_get_size : Outbox → ℕ
outbox_get_size o = o.size
