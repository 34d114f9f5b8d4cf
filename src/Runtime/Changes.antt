-- ===== src/Runtime/Changes.antt =====
-- When the list of desired subscriptions of runtime/emqtt.c changes.
use esp_mqtt.Base.{
  ℕ, ◌≡◌, refl, ap, ◌∙◌, Bool, true, false, ◌&&◌, ◌||◌, not, Option, none, some, List, [], ◌∷◌,
  ◌++◌, ltb, leb, ◌==◌, length, if_cases,
}
use esp_mqtt.Base.Int.{ℤ, pos, ltb_ℤ}
use esp_mqtt.Contract.Suback.{Subscription}
use esp_mqtt.Runtime.State.{
  Runtime, RuntimeError, no_error, transport_error, tls_error, auth_error, broker_error,
  subscription_error, fragment_error, queue_error, expired_error, sdk_error, EventKind,
  kind_connected, kind_ready, kind_disconnected, kind_suback, kind_unsubscribed, kind_puback,
  kind_deleted, kind_error, kind_message, Notice, drain, subscribing, clear_pending,
}
use esp_mqtt.Runtime.Session.{
  Answer, Answers, OutEvent, emqtt_stop, fail_closed, submit_subscriptions, on_connected, on_suback,
  accept_suback, suback_matches, on_unsuback, unsuback_matches, remove_at, on_message, on_error,
  dispatch, poll_notices, emqtt_poll, is_ok, same_state,
}
use esp_mqtt.Runtime.Subscriptions.{
  Wanted, release_message_slot-wanted, release_receiver_slot-wanted,
}

-- A notice of this kind that did not arrive behind the deadline, when one is set.
abbrev pub OnTime : Runtime → Notice → EventKind → Type 0
OnTime r n kind =
    (n.kind ≡ kind)
    × ((same_state r.state subscribing && leb r.subscription_deadline_us n.arrived_us) ≡ false)

-- What a poll may make of the list: nothing; the subscription that was asked for behind the others,
-- when the oldest notice is its SUBACK, is not late and grants it; or all but the entry that was to
-- go, when the oldest notice is its UNSUBACK and is not late.
pub data Changed (r : Runtime) (l : List Subscription) : Type 0 where
  same : l ≡ r.subscriptions → Changed r l
  added :
      (n : Notice) (rest : List Notice)
      → r.notices ≡ n ∷ rest
      → OnTime r n kind_suback
      → suback_matches r n ≡ true
      → r.pending_dynamic_subscribe ≡ true
      → l ≡ r.subscriptions ++ (r.pending_subscription ∷ [])
      → Changed r l
  removed :
      (n : Notice) (rest : List Notice)
      → r.notices ≡ n ∷ rest
      → OnTime r n kind_unsubscribed
      → unsuback_matches r n ≡ true
      → l ≡ remove_at r.pending_unsubscribe_index r.subscriptions
      → Changed r l

drain-subscriptions : (r : Runtime) → (drain r).subscriptions ≡ r.subscriptions
unfolding drain
drain-subscriptions r = ap (λ (w : Wanted). w.subscriptions) (release_receiver_slot-wanted r)

fail_closed-subscriptions :
    (answer : Answer) (r : Runtime) → (fail_closed answer r).subscriptions ≡ r.subscriptions
unfolding fail_closed emqtt_stop
fail_closed-subscriptions answer r =
    if_cases (λ (p : Runtime × Answer). p.0.subscriptions ≡ r.subscriptions)
      (r.started && not (is_ok answer)) _ _ (λ _. refl)
      (λ _. drain-subscriptions (record r { started = false }))

submit_subscriptions-subscriptions :
    (id : ℤ) (now : ℕ) (r : Runtime) (count : ℕ) (dynamic : Bool)
    → (submit_subscriptions id now r count dynamic).0.subscriptions ≡ r.subscriptions
unfolding submit_subscriptions
submit_subscriptions-subscriptions id now r count dynamic =
    if_cases (λ (p : Runtime × Answer). p.0.subscriptions ≡ r.subscriptions) (count == 0) _ _
      (λ _. refl)
      (λ _.
        if_cases (λ (p : Runtime × Answer). p.0.subscriptions ≡ r.subscriptions)
          (not (ltb_ℤ (pos 0) id)) _ _ (λ _. refl) (λ _. refl))

on_connected-subscriptions :
    (a : Answers) (r : Runtime) (e : OutEvent)
    → (on_connected a r e).0.subscriptions ≡ r.subscriptions
unfolding on_connected
on_connected-subscriptions a r e =
    let p =
      submit_subscriptions a.subscribe_id a.now (clear_pending r) (length r.subscriptions) false in
    let kept =
      submit_subscriptions-subscriptions a.subscribe_id a.now (clear_pending r)
        (length r.subscriptions) false in
    if_cases (λ (q : Runtime × OutEvent). q.0.subscriptions ≡ r.subscriptions) (not (is_ok p.1)) _ _
      (λ _. fail_closed-subscriptions a.stop_answer p.0 ∙ kept)
      (λ _.
        if_cases (λ (q : Runtime × OutEvent). q.0.subscriptions ≡ r.subscriptions)
          (length r.subscriptions == 0) _ _ (λ _. kept) (λ _. kept))

-- With the oldest notice taken off.
abbrev without : Runtime → List Notice → Runtime
without r rest = record r { notices = rest }

on_suback-Changed :
    (a : Answers) (r : Runtime) (n : Notice) (rest : List Notice) (e : OutEvent)
    → r.notices ≡ n ∷ rest
    → OnTime r n kind_suback
    → Changed r (on_suback a (without r rest) n e).0.subscriptions
unfolding on_suback accept_suback suback_matches
on_suback-Changed a r n rest e front timely =
    if_cases (λ (p : Runtime × OutEvent). Changed r p.0.subscriptions)
      (suback_matches (without r rest) n) _ _
      (λ matches.
        if_cases (Changed r) r.pending_dynamic_subscribe
          (r.subscriptions ++ (r.pending_subscription ∷ [])) r.subscriptions
          (λ dynamic. added n rest front timely matches dynamic refl) (λ _. same refl))
      (λ _. same (fail_closed-subscriptions a.stop_answer (without r rest)))

on_unsuback-Changed :
    (a : Answers) (r : Runtime) (n : Notice) (rest : List Notice) (e : OutEvent)
    → r.notices ≡ n ∷ rest
    → OnTime r n kind_unsubscribed
    → Changed r (on_unsuback a (without r rest) n e).0.subscriptions
unfolding on_unsuback unsuback_matches
on_unsuback-Changed a r n rest e front timely =
    if_cases (λ (p : Runtime × OutEvent). Changed r p.0.subscriptions)
      (unsuback_matches (without r rest) n) _ _
      (λ matches. removed n rest front timely matches refl)
      (λ _. same (fail_closed-subscriptions a.stop_answer (without r rest)))

on_message-subscriptions :
    (r : Runtime) (slot : Option ℕ) (e : OutEvent)
    → (on_message r slot e).0.subscriptions ≡ r.subscriptions
unfolding on_message
on_message-subscriptions r none e = refl
on_message-subscriptions r (some slot) e =
    ap (λ (w : Wanted). w.subscriptions) (release_message_slot-wanted r slot)

on_error-subscriptions :
    (a : Answers) (r : Runtime) (error : RuntimeError) (e : OutEvent)
    → (on_error a r error e).0.subscriptions ≡ r.subscriptions
unfolding on_error
on_error-subscriptions a r subscription_error e = fail_closed-subscriptions a.stop_answer r
on_error-subscriptions a r fragment_error e = refl
on_error-subscriptions a r no_error e = refl
on_error-subscriptions a r transport_error e = refl
on_error-subscriptions a r tls_error e = refl
on_error-subscriptions a r auth_error e = refl
on_error-subscriptions a r broker_error e = refl
on_error-subscriptions a r queue_error e = refl
on_error-subscriptions a r expired_error e = refl
on_error-subscriptions a r sdk_error e = refl

dispatch-Changed :
    (a : Answers) (r : Runtime) (n : Notice) (rest : List Notice) (kind : EventKind)
    → r.notices ≡ n ∷ rest
    → OnTime r n kind
    → Changed r (dispatch a (without r rest) n kind).0.subscriptions
unfolding dispatch
dispatch-Changed a r n rest kind_connected front timely =
    same (on_connected-subscriptions a (without r rest) _)
dispatch-Changed a r n rest kind_suback front timely = on_suback-Changed a r n rest _ front timely
dispatch-Changed a r n rest kind_unsubscribed front timely =
    on_unsuback-Changed a r n rest _ front timely
dispatch-Changed a r n rest kind_disconnected front timely = same refl
dispatch-Changed a r n rest kind_message front timely =
    same (on_message-subscriptions (without r rest) n.slot _)
dispatch-Changed a r n rest kind_error front timely =
    same (on_error-subscriptions a (without r rest) n.error _)
dispatch-Changed a r n rest kind_ready front timely = same refl
dispatch-Changed a r n rest kind_puback front timely = same refl
dispatch-Changed a r n rest kind_deleted front timely = same refl

poll_notices-Changed :
    (a : Answers) (r : Runtime) (notices : List Notice)
    → r.notices ≡ notices
    → Changed r (poll_notices a r notices).0.subscriptions
unfolding poll_notices
poll_notices-Changed a r [] front =
    if_cases (λ (p : Runtime × Option OutEvent). Changed r p.0.subscriptions)
      (not (same_state r.state subscribing) || ltb a.now r.subscription_deadline_us) _ _
      (λ _. same refl) (λ _. same (fail_closed-subscriptions a.stop_answer r))
poll_notices-Changed a r (n ∷ rest) front =
    if_cases (λ (p : Runtime × Option OutEvent). Changed r p.0.subscriptions)
      (same_state r.state subscribing && leb r.subscription_deadline_us n.arrived_us) _ _
      (λ _. same (fail_closed-subscriptions a.stop_answer (without r rest)))
      (λ in_time. dispatch-Changed a r n rest n.kind front (refl, in_time))

-- A poll leaves the list of desired subscriptions as it is, or changes it in one of two ways: it
-- adds the subscription that was asked for, and then the oldest notice is of the kind SUBACK, did not
-- arrive at or behind a deadline that is set, and passes the test for the SUBACK that is waited for and
-- grants it; or it removes the entry that was to go, and then the oldest notice is of the kind
-- UNSUBACK, did not arrive at or behind such a deadline, and passes the test for the UNSUBACK that is
-- waited for.
pub emqtt_poll-Changed :
    (a : Answers) (owned : Bool) (r : Runtime) → Changed r (emqtt_poll a owned r).0.subscriptions
unfolding emqtt_poll
emqtt_poll-Changed a owned r =
    if_cases (λ (p : Runtime × Option OutEvent). Changed r p.0.subscriptions)
      (not owned || r.faulted) _ _ (λ _. same refl)
      (λ _.
        if_cases (λ (p : Runtime × Option OutEvent). Changed r p.0.subscriptions) r.overflow _ _
          (λ _. same (fail_closed-subscriptions a.stop_answer (record r { overflow = false })))
          (λ _. poll_notices-Changed a r r.notices refl))
