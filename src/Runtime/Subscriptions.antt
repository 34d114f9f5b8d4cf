-- ===== src/Runtime/Subscriptions.antt =====
-- The list of desired subscriptions of runtime/emqtt.c, through every call and every event.
use esp_mqtt.Base.{ℕ, ◌≤◌, ◌<◌, ◌≡◌, refl, Bool, true, Option, none, some, List, length, if_cases}
use esp_mqtt.Base.Int.{ℤ, pos, ltb_ℤ}
use esp_mqtt.Contract.Suback.{Subscription, subscriptions_max}
use esp_mqtt.Runtime.State.{
  Runtime, Notice, send_slot, release_message_slot, release_receiver_slot, clear_receiver, post,
  drop_slot, clear_pending,
}

-- What concerns the list: the list and what is pending for it.
pub record Wanted : Type 0 where
  pub subscriptions : List Subscription
  pub dynamic : Bool
  pub unsubscribe : ℤ
  pub index : ℕ

abbrev pub wanted : Runtime → Wanted
wanted r = record {
  subscriptions = r.subscriptions;
  dynamic = r.pending_dynamic_subscribe;
  unsubscribe = r.pending_unsubscribe;
  index = r.pending_unsubscribe_index;
}

-- The list fits its array, also with the subscription that a SUBACK would add, and the entry that
-- an UNSUBACK would remove is in it.
pub record IsBounded (w : Wanted) : Type 0 where
  pub limit : length w.subscriptions ≤ subscriptions_max
  pub growing : w.dynamic ≡ true → length w.subscriptions < subscriptions_max
  pub shrinking : ltb_ℤ (pos 0) w.unsubscribe ≡ true → w.index < length w.subscriptions

-- What moves slots and notices does not touch the list.
pub send_slot-wanted : (r : Runtime) (slot : ℕ) → wanted (send_slot r slot) ≡ wanted r
unfolding send_slot
send_slot-wanted r slot = if_cases (λ s. wanted s ≡ wanted r) _ _ _ (λ _. refl) (λ _. refl)

pub release_message_slot-wanted :
    (r : Runtime) (slot : ℕ) → wanted (release_message_slot r slot) ≡ wanted r
unfolding release_message_slot
release_message_slot-wanted r slot = send_slot-wanted _ slot

pub release_receiver_slot-wanted : (r : Runtime) → wanted (release_receiver_slot r) ≡ wanted r
unfolding release_receiver_slot
release_receiver_slot-wanted r = go r.receiver_slot
  where
    go :
        (o : Option ℕ)
        → wanted
            (elim o [ none ↦ clear_receiver r | some slot ↦ send_slot (clear_receiver r) slot ])
          ≡ wanted r
    go none = refl
    go (some slot) = send_slot-wanted (clear_receiver r) slot

dropped : (r : Runtime) (slot : Option ℕ) → wanted (drop_slot r slot) ≡ wanted r
dropped r none = refl
dropped r (some slot) = release_message_slot-wanted r slot

pub post-wanted : (r : Runtime) (n : Notice) → wanted (post r n) ≡ wanted r
unfolding post
post-wanted r n = if_cases (λ s. wanted s ≡ wanted r) _ _ _ (λ _. refl) (λ _. dropped r n.slot)

-- With nothing pending, only the length counts.
pub clear_pending-IsBounded :
    (r : Runtime)
    → length r.subscriptions ≤ subscriptions_max
    → IsBounded (wanted (clear_pending r))
clear_pending-IsBounded r h = record { limit = h; growing = λ e. cc; shrinking = λ e. cc }
