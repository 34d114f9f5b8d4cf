-- ===== src/Runtime/Bounds.antt =====
-- Every call and every event of runtime/emqtt.c keeps the list of subscriptions within its array.
use mathlib.Core.Path.{subst}
use esp_mqtt.Base.{
  ℕ, suc, ◌≤◌, ◌<◌, ◌≡◌, refl, sym, Bool, true, false, ◌&&◌, ◌||◌, not, Option, none, some, List,
  [], ◌∷◌, ◌++◌, ltb, leb, ◌==◌, length, arith, if_cases, if◌then◌else◌, length-append, length-take,
  length-drop, take, drop,
}
use esp_mqtt.Base.Int.{ℤ, pos, ltb_ℤ}
use esp_mqtt.Contract.Topic.{emqtt_topic_valid}
use esp_mqtt.Contract.Suback.{Subscription, subscriptions_max}
use esp_mqtt.Runtime.State.{
  Runtime, RuntimeError, no_error, transport_error, tls_error, auth_error, broker_error,
  subscription_error, fragment_error, queue_error, expired_error, sdk_error, EventKind,
  kind_connected, kind_ready, kind_disconnected, kind_suback, kind_unsubscribed, kind_puback,
  kind_deleted, kind_error, kind_message, Notice, release_receiver_slot, drain, clear_pending,
  subscribing, ready,
}
use esp_mqtt.Runtime.Session.{
  Answer, Answers, OutEvent, emqtt_start, emqtt_stop, fail_closed, submit_subscriptions,
  on_connected, on_suback, accept_suback, suback_matches, on_unsuback, unsuback_matches, remove_at,
  on_message, on_error, is_ok, same_state, emqtt_subscribe, emqtt_unsubscribe, send_unsubscribe,
  index_of, is_none, bounded_length, invalid_arg, same_topic, dispatch, poll_notices, emqtt_poll,
}
use esp_mqtt.Runtime.Subscriptions.{
  wanted, IsBounded, release_message_slot-wanted, release_receiver_slot-wanted,
  clear_pending-IsBounded,
}

abbrev pub Bounded : Runtime → Type 0
Bounded r = IsBounded (wanted r)

record Kept {ℓ} {A : Type ℓ} (p : Runtime × A) : Type 0 where
  bounded : Bounded p.0

either_way {ℓ} :
    {A : Type ℓ} (test : Bool) (p q : Runtime × A)
    → (test ≡ true → Kept p)
    → (test ≡ false → Kept q)
    → Kept (if test then p else q)
either_way test p q h k = if_cases Kept test p q h k

kept {ℓ} : {A : Type ℓ} (p : Runtime × A) → Bounded p.0 → Kept p
kept p b = record { bounded = b }

pub drain-Bounded : (r : Runtime) → Bounded r → Bounded (drain r)
unfolding drain
drain-Bounded r b = clear_pending-IsBounded (release_receiver_slot r) (
    subst (λ w. length w.subscriptions ≤ subscriptions_max) (sym (release_receiver_slot-wanted r))
      b.limit)

pub emqtt_stop-Bounded :
    (answer : Answer) (owned : Bool) (r : Runtime)
    → Bounded r
    → Bounded (emqtt_stop answer owned r).0
unfolding emqtt_stop
emqtt_stop-Bounded answer owned r b = Kept.bounded {p = emqtt_stop answer owned r} (
    either_way (not owned) _ _ (λ _. kept _ b)
      (λ _.
        either_way (r.started && not (is_ok answer)) _ _ (λ _. kept _ b)
          (λ _. kept _ (drain-Bounded _ b))))

pub fail_closed-Bounded :
    (answer : Answer) (r : Runtime) → Bounded r → Bounded (fail_closed answer r)
unfolding fail_closed
fail_closed-Bounded answer r b = emqtt_stop-Bounded answer true r b

pub emqtt_start-Bounded :
    (answer : Answer) (owned : Bool) (r : Runtime) (network_ready trusted_time_ready : Bool)
    → Bounded r
    → Bounded (emqtt_start answer owned r network_ready trusted_time_ready).0
unfolding emqtt_start
emqtt_start-Bounded answer owned r network_ready trusted_time_ready b =
    Kept.bounded {p = emqtt_start answer owned r network_ready trusted_time_ready} (
      either_way (not owned || r.started || not network_ready) _ _ (λ _. kept _ b)
        (λ _.
          either_way (r.tls && not trusted_time_ready) _ _ (λ _. kept _ b)
            (λ _.
              either_way (is_ok answer) _ _ (λ _. kept _ (drain-Bounded r b))
                (λ _. kept _ (drain-Bounded r b)))))

pub submit_subscriptions-Bounded :
    (id : ℤ) (now : ℕ) (r : Runtime) (count : ℕ) (dynamic : Bool)
    → Bounded r
    → (dynamic ≡ true → length r.subscriptions < subscriptions_max)
    → Bounded (submit_subscriptions id now r count dynamic).0
unfolding submit_subscriptions
submit_subscriptions-Bounded id now r count dynamic b h =
    Kept.bounded {p = submit_subscriptions id now r count dynamic} (
      either_way (count == 0) _ _ (λ _. kept _ b)
        (λ _.
          either_way (not (ltb_ℤ (pos 0) id)) _ _ (λ _. kept _ b)
            (λ _. kept _ (record { limit = b.limit; growing = h; shrinking = b.shrinking }))))

on_connected-Bounded :
    (a : Answers) (r : Runtime) (e : OutEvent) → Bounded r → Bounded (on_connected a r e).0
unfolding on_connected
on_connected-Bounded a r e b =
    let cleared = clear_pending-IsBounded r b.limit in
    let submitted =
      submit_subscriptions-Bounded a.subscribe_id a.now (clear_pending r) (length r.subscriptions)
        false cleared (λ e. cc) in
    Kept.bounded {p = on_connected a r e} (
      either_way
        (not (
          is_ok
            (submit_subscriptions a.subscribe_id a.now (clear_pending r) (length r.subscriptions)
              false).1))
        _ _ (λ _. kept _ (fail_closed-Bounded _ _ submitted))
        (λ _.
          either_way (length r.subscriptions == 0) _ _ (λ _. kept _ (submitted))
            (λ _. kept _ (submitted))))

accept_suback-limit :
    (r : Runtime) → Bounded r → length (accept_suback r).subscriptions ≤ subscriptions_max
unfolding accept_suback
accept_suback-limit r b =
    if_cases (λ l. length l ≤ subscriptions_max) r.pending_dynamic_subscribe
      (r.subscriptions ++ (r.pending_subscription ∷ [])) r.subscriptions
      (λ e. omega (arith, b.growing e, length-append r.subscriptions (r.pending_subscription ∷ [])))
      (λ _. b.limit)

on_suback-Bounded :
    (a : Answers) (r : Runtime) (n : Notice) (e : OutEvent)
    → Bounded r
    → Bounded (on_suback a r n e).0
unfolding on_suback
on_suback-Bounded a r n e b = Kept.bounded {p = on_suback a r n e} (
    either_way (suback_matches r n) _ _
      (λ _. kept _ (clear_pending-IsBounded (accept_suback r) (accept_suback-limit r b)))
      (λ _. kept _ (
        clear_pending-IsBounded (fail_closed a.stop_answer r)
          (fail_closed-Bounded a.stop_answer r b).limit)))

remove_at-limit :
    (i : ℕ) (l : List Subscription)
    → length l ≤ subscriptions_max
    → length (remove_at i l) ≤ subscriptions_max
unfolding remove_at
remove_at-limit i l h =
    omega
      (arith, h, length-append (take i l) (drop (suc i) l), length-take i l, length-drop (suc i) l)

on_unsuback-Bounded :
    (a : Answers) (r : Runtime) (n : Notice) (e : OutEvent)
    → Bounded r
    → Bounded (on_unsuback a r n e).0
unfolding on_unsuback
on_unsuback-Bounded a r n e b = Kept.bounded {p = on_unsuback a r n e} (
    either_way (unsuback_matches r n) _ _
      (λ _. kept _ (
        clear_pending-IsBounded
          (record r {
            subscriptions = remove_at r.pending_unsubscribe_index r.subscriptions;
            state = ready;
          })
          (remove_at-limit r.pending_unsubscribe_index r.subscriptions b.limit)))
      (λ _. kept _ (
        clear_pending-IsBounded (fail_closed a.stop_answer r)
          (fail_closed-Bounded a.stop_answer r b).limit)))

on_message-Bounded :
    (r : Runtime) (slot : Option ℕ) (e : OutEvent) → Bounded r → Bounded (on_message r slot e).0
unfolding on_message
on_message-Bounded r none e b = b
on_message-Bounded r (some slot) e b = subst IsBounded (sym (release_message_slot-wanted r slot)) b

on_error-Bounded :
    (a : Answers) (r : Runtime) (error : RuntimeError) (e : OutEvent)
    → Bounded r
    → Bounded (on_error a r error e).0
unfolding on_error
on_error-Bounded a r subscription_error e b = fail_closed-Bounded a.stop_answer r b
on_error-Bounded a r fragment_error e b = b
on_error-Bounded a r no_error e b = b
on_error-Bounded a r transport_error e b = b
on_error-Bounded a r tls_error e b = b
on_error-Bounded a r auth_error e b = b
on_error-Bounded a r broker_error e b = b
on_error-Bounded a r queue_error e b = b
on_error-Bounded a r expired_error e b = b
on_error-Bounded a r sdk_error e b = b

dispatch-Bounded :
    (a : Answers) (r : Runtime) (n : Notice) (kind : EventKind)
    → Bounded r
    → Bounded (dispatch a r n kind).0
unfolding dispatch
dispatch-Bounded a r n kind_connected b = on_connected-Bounded a r _ b
dispatch-Bounded a r n kind_suback b = on_suback-Bounded a r n _ b
dispatch-Bounded a r n kind_unsubscribed b = on_unsuback-Bounded a r n _ b
dispatch-Bounded a r n kind_disconnected b = clear_pending-IsBounded r b.limit
dispatch-Bounded a r n kind_message b = on_message-Bounded r n.slot _ b
dispatch-Bounded a r n kind_error b = on_error-Bounded a r n.error _ b
dispatch-Bounded a r n kind_ready b = b
dispatch-Bounded a r n kind_puback b = b
dispatch-Bounded a r n kind_deleted b = b

poll_notices-Bounded :
    (a : Answers) (r : Runtime) (notices : List Notice)
    → Bounded r
    → Bounded (poll_notices a r notices).0
unfolding poll_notices
poll_notices-Bounded a r [] b = Kept.bounded {p = poll_notices a r []} (
    either_way (not (same_state r.state subscribing) || ltb a.now r.subscription_deadline_us) _ _
      (λ _. kept _ b) (λ _. kept _ (fail_closed-Bounded a.stop_answer r b)))
poll_notices-Bounded a r (n ∷ rest) b = Kept.bounded {p = poll_notices a r (n ∷ rest)} (
    either_way (same_state r.state subscribing && leb r.subscription_deadline_us n.arrived_us) _ _
      (λ _. kept _ (fail_closed-Bounded a.stop_answer (record r { notices = rest }) b))
      (λ _. kept _ (dispatch-Bounded a (record r { notices = rest }) n n.kind b)))

pub emqtt_poll-Bounded :
    (a : Answers) (owned : Bool) (r : Runtime) → Bounded r → Bounded (emqtt_poll a owned r).0
unfolding emqtt_poll
emqtt_poll-Bounded a owned r b = Kept.bounded {p = emqtt_poll a owned r} (
    either_way (not owned || r.faulted) _ _ (λ _. kept _ b)
      (λ _.
        either_way r.overflow _ _
          (λ _. kept _ (fail_closed-Bounded a.stop_answer (record r { overflow = false }) b))
          (λ _. kept _ (poll_notices-Bounded a r r.notices b))))

abbrev IsBelow : ℕ → Option ℕ → Type 0
IsBelow n none = Unit
IsBelow n (some i) = i < n

next-IsBelow :
    (n : ℕ) (o : Option ℕ)
    → IsBelow n o
    → IsBelow (suc n) (elim o [ none ↦ none | some i ↦ some (suc i) ])
next-IsBelow n none h = tt
next-IsBelow n (some i) h = omega (arith, h)

index_of-IsBelow :
    (filter : List ℕ) (l : List Subscription) → IsBelow (length l) (index_of filter l)
unfolding index_of
index_of-IsBelow filter [] = tt
index_of-IsBelow filter (s ∷ l) =
    if_cases (IsBelow (suc (length l))) (same_topic filter s) (some 0)
      (elim (index_of filter l) [ none ↦ none | some i ↦ some (suc i) ]) (λ _. omega arith)
      (λ _. next-IsBelow (length l) (index_of filter l) (index_of-IsBelow filter l))

room_left :
    (a b d : Bool) (n : ℕ)
    → n ≤ subscriptions_max
    → (a || b || (n == subscriptions_max) || d) ≡ false
    → n < subscriptions_max
room_left true b d n h e = absurd cc
room_left false true d n h e = absurd cc
room_left false false d n h e = ground arith

pub emqtt_subscribe-Bounded :
    (a : Answers) (owned : Bool) (r : Runtime) (filter : Option (List ℕ)) (qos : ℕ)
    → Bounded r
    → Bounded (emqtt_subscribe a owned r filter qos).0
unfolding emqtt_subscribe
emqtt_subscribe-Bounded a owned r none qos b = b
emqtt_subscribe-Bounded a owned r (some filter) qos b =
    let asked : Runtime = record r {
      pending_subscription = record { topic = filter; qos = qos };
    } in
    let submitted = submit_subscriptions a.subscribe_id a.now asked 1 true in
    Kept.bounded {p = emqtt_subscribe a owned r (some filter) qos} (
      either_way (not owned || not (same_state r.state ready)) _ _ (λ _. kept _ b)
        (λ _.
          either_way
            (ltb 1 qos
              || not (emqtt_topic_valid (some filter) (bounded_length filter) true)
              || (length r.subscriptions == subscriptions_max)
              || not (is_none (index_of filter r.subscriptions)))
            _ _ (λ _. kept _ b)
            (λ e.
              let fine = submit_subscriptions-Bounded a.subscribe_id a.now asked 1 true b (λ _.
                room_left (ltb 1 qos)
                  (not (emqtt_topic_valid (some filter) (bounded_length filter) true))
                  (not (is_none (index_of filter r.subscriptions))) (length r.subscriptions) b.limit
                  e) in
              either_way (is_ok submitted.1) _ _ (λ _. kept _ fine)
                (λ _. kept _ (fail_closed-Bounded a.stop_answer submitted.0 fine)))))

send_unsubscribe-Bounded :
    (a : Answers) (r : Runtime) (index : ℕ)
    → index < length r.subscriptions
    → Bounded r
    → Bounded (send_unsubscribe a r index).0
unfolding send_unsubscribe
send_unsubscribe-Bounded a r index h b = Kept.bounded {p = send_unsubscribe a r index} (
    either_way (not (ltb_ℤ (pos 0) a.subscribe_id)) _ _
      (λ _. kept _ (fail_closed-Bounded a.stop_answer r b))
      (λ _. kept _ (record { limit = b.limit; growing = b.growing; shrinking = λ _. h })))

found-Bounded :
    (a : Answers) (r : Runtime) (o : Option ℕ)
    → ((i : ℕ) → o ≡ some i → i < length r.subscriptions)
    → Bounded r
    → Kept {A = Answer}
        (elim o [ none ↦ (r, invalid_arg) | some index ↦ send_unsubscribe a r index ])
found-Bounded a r none h b = kept _ b
found-Bounded a r (some i) h b = kept _ (send_unsubscribe-Bounded a r i (h i refl) b)

pub emqtt_unsubscribe-Bounded :
    (a : Answers) (owned : Bool) (r : Runtime) (filter : Option (List ℕ))
    → Bounded r
    → Bounded (emqtt_unsubscribe a owned r filter).0
unfolding emqtt_unsubscribe
emqtt_unsubscribe-Bounded a owned r none b = b
emqtt_unsubscribe-Bounded a owned r (some filter) b =
    Kept.bounded {p = emqtt_unsubscribe a owned r (some filter)} (
      either_way (not owned || not (same_state r.state ready)) _ _ (λ _. kept _ b)
        (λ _.
          either_way (not (emqtt_topic_valid (some filter) (bounded_length filter) true)) _ _
            (λ _. kept _ b)
            (λ _.
              found-Bounded a r (index_of filter r.subscriptions)
                (λ i e.
                  subst (IsBelow (length r.subscriptions)) e
                    (index_of-IsBelow filter r.subscriptions))
                b)))
