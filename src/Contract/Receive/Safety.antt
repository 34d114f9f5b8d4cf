-- ===== src/Contract/Receive/Safety.antt =====
-- `emqtt_receive_into` of runtime/emqtt_receive_internal.h on any fragment, well formed or not.
use esp_mqtt.Base.{
  ℕ, ◌+◌, ◌≤◌, ◌<◌, ◌≡◌, ◌≢◌, ◌⊎◌, ◌↔◌, ◌∙◌, not, ◌||◌, sym, refl, ap, Bool, true, false, some,
  List, ◌++◌, if◌then◌else◌, length, take, length-overwrite, take-overwrite, arith, Bool-cases, inl,
  inr,
}
use mathlib.Core.Path.{subst}
use mathlib.Core.List.{append-nil}
use native.Mathlib.Nat.{add-zero}
use esp_mqtt.Base.Int.{ℤ, pos, negsuc, pos_part}
use esp_mqtt.Contract.Topic.{emqtt_topic_valid}
use esp_mqtt.Contract.Receive.{
  Fragment, MessageInfo, ReceiveState, RxResult, rx_complete, rx_rejected, Receiver, bad_lengths,
  malformed, pointee, copy, finish, start, other_topic, out_of_step, accept, resume, begin, reject,
  is_zero, emqtt_receive_into, payload_max,
}

-- A message under way has room for what is still to come.
pub record IsValid (capacity : ℕ) (r : Receiver) : Type 0 where
  pub block : length r.payload ≡ capacity
  pub within :
      r.state.active ≡ true
      → (r.state.received < r.info.len) × (r.info.len ≤ capacity) × (r.info.len ≤ payload_max)

-- What the first test guarantees of the lengths.
record Fits (capacity : ℕ) (data_length total_length offset : ℤ) : Type 0 where
  total : pos_part total_length ≤ capacity
  limit : pos_part total_length ≤ payload_max
  inside : pos_part offset + pos_part data_length ≤ pos_part total_length

good_lengths-Fits :
    (capacity : ℕ) (topic_length data_length total_length offset : ℤ)
    → bad_lengths capacity topic_length data_length total_length offset ≡ false
    → Fits capacity data_length total_length offset
unfolding bad_lengths
good_lengths-Fits capacity (pos n) (pos d) (pos t) (pos o) h = ground arith
good_lengths-Fits capacity (negsuc n) d t o h = absurd (ground arith)
good_lengths-Fits capacity (pos n) (negsuc d) t o h = absurd (ground arith)
good_lengths-Fits capacity (pos n) (pos d) (negsuc t) o h = absurd (ground arith)
good_lengths-Fits capacity (pos n) (pos d) (pos t) (negsuc o) h = absurd (ground arith)

in_step :
    (r : Receiver) (f : Fragment)
    → out_of_step r f ≡ false
    → (pos_part f.offset ≡ r.state.received) × (pos_part f.total_length ≡ r.info.len)
unfolding out_of_step
in_step r f h = ground arith

malformed-bad_lengths :
    (capacity : ℕ) (f : Fragment)
    → malformed capacity f ≡ false
    → bad_lengths capacity f.topic_length f.data_length f.total_length f.offset ≡ false
unfolding malformed
malformed-bad_lengths capacity f h = ground arith

pub length-copy : (r : Receiver) (f : Fragment) → length (copy r f) ≡ length r.payload
unfolding copy
length-copy r f = ground (
  arith,
  length-overwrite r.payload r.state.received (take (pos_part f.data_length) (pointee f.content)),
)

-- What a fragment that is not rejected leaves.
pub record Accepted (capacity : ℕ) (r : Receiver) (f : Fragment) (r' : Receiver) : Type 0 where
  pub block : r'.payload ≡ copy r f
  pub advanced : r'.state.received ≡ r.state.received + pos_part f.data_length
  pub bounded : r'.state.received ≤ r'.info.len
  pub fits : (r'.info.len ≤ capacity) × (r'.info.len ≤ payload_max)
  pub same_info : r'.info ≡ r.info

finish_lem :
    (r : Receiver)
    → ((finish r).0.payload ≡ r.payload)
      × ((finish r).0.state.received ≡ r.state.received)
      × ((finish r).0.info ≡ r.info)
unfolding finish
finish_lem r = ground arith

pub accept-Accepted :
    (capacity : ℕ) (r : Receiver) (f : Fragment)
    → malformed capacity f ≡ false
    → out_of_step r f ≡ false
    → Accepted capacity r f (accept r f).0
unfolding accept
accept-Accepted capacity r f well step =
    let fit = good_lengths-Fits capacity _ _ _ _ (malformed-bad_lengths capacity f well) in
    let same = in_step r f step in
    let done = finish_lem _ in
    record {
      block = done.0;
      advanced = done.1;
      bounded = rw (done.1, done.2) (omega (arith, fit.inside, same.0, same.1));
      fits = rw done.2 (omega (arith, fit.total, same.1), omega (arith, fit.limit, same.1));
      same_info = done.2;
    }

-- The two ways that `emqtt_receive_into` ends.
abbrev Outcome : ℕ → Receiver → Fragment → Receiver × RxResult → Type 0
Outcome capacity r f p =
    ((p.1 ≡ rx_rejected)
      × (p.0.state ≡ record { received = 0; active = false })
      × (p.0.payload ≡ r.payload))
    ⊎ ((s : Receiver) × (((r.state.active ≡ true) × (s ≡ r))
          ⊎ ((r.state.active ≡ false) × (s ≡ start r f)))
        × (malformed capacity f ≡ false)
        × (out_of_step s f ≡ false)
        × (p ≡ accept s f))

start_lem :
    (r : Receiver) (f : Fragment)
    → ((start r f).payload ≡ r.payload)
      × ((start r f).state ≡ record { received = 0; active = true })
unfolding start
start_lem r f = (refl, refl)

resume-Outcome :
    (capacity : ℕ) (r : Receiver) (f : Fragment)
    → malformed capacity f ≡ false
    → r.state.active ≡ true
    → Outcome capacity r f (resume r f)
unfolding resume
resume-Outcome capacity r f well on = elim (Bool-cases (other_topic r f)) [
  | inl e ↦ rw (e, resume) (inl (refl, refl, refl))
  | inr e ↦ elim (Bool-cases (out_of_step r f)) [
    | inl g ↦ rw (e, resume, g) (inl (refl, refl, refl))
    | inr g ↦ rw (e, resume, g) (inr (r, inl (on, refl), well, g, refl))
  ]
]

begin-Outcome :
    (capacity : ℕ) (r : Receiver) (f : Fragment)
    → malformed capacity f ≡ false
    → r.state.active ≡ false
    → Outcome capacity r f (begin r f)
unfolding begin
begin-Outcome capacity r f well off =
    elim (Bool-cases
      (not (is_zero f.offset) || not (emqtt_topic_valid f.topic (pos_part f.topic_length) false))) [
        | inl e ↦ rw (e, begin) (inl (refl, refl, refl))
        | inr e ↦ elim (Bool-cases (out_of_step (start r f) f)) [
          | inl g ↦ rw (e, begin, g) (inl (refl, refl, (start_lem r f).0))
          | inr g ↦ rw (e, begin, g) (inr (start r f, inr (off, refl), well, g, refl))
        ]
      ]

receive_into-Outcome :
    (capacity : ℕ) (r : Receiver) (f : Fragment)
    → Outcome capacity r f (emqtt_receive_into capacity r (some f))
unfolding emqtt_receive_into
receive_into-Outcome capacity r f = elim (Bool-cases (malformed capacity f)) [
  | inl e ↦ rw (e, emqtt_receive_into) (inl (refl, refl, refl))
  | inr e ↦
      subst
        (λ b.
          Outcome capacity r f
            (if b then reject r else if r.state.active then resume r f else begin r f))
        (sym e) (by_active e r.state.active refl)
]
  where
    by_active :
        malformed capacity f ≡ false
        → (b : Bool) → r.state.active ≡ b
        → Outcome capacity r f (if b then resume r f else begin r f)
    by_active e true on = resume-Outcome capacity r f e on
    by_active e false off = begin-Outcome capacity r f e off

-- The part of a message that has arrived.
abbrev pub arrived : Receiver → List ℕ
arrived r = take r.state.received r.payload

copy-take :
    (r : Receiver) (f : Fragment)
    → r.state.received + pos_part f.data_length ≤ length r.payload
    → pos_part f.data_length ≤ length (pointee f.content)
    → take (r.state.received + pos_part f.data_length) (copy r f)
      ≡ arrived r ++ take (pos_part f.data_length) (pointee f.content)
unfolding copy
copy-take r f room has = elim (Bool-cases (is_zero f.data_length)) [
  | inl e ↦
      let none_new : pos_part f.data_length ≡ 0 = ground arith in
      rw e (rw (none_new, add-zero, append-nil))
  | inr e ↦ rw e (
      take-overwrite r.state.received (pos_part f.data_length) r.payload (pointee f.content) room
        has)
]

finish_result :
    (r : Receiver)
    → r.state.active ≡ true
    → ((finish r).1 ≢ rx_rejected)
      × (((finish r).1 ≡ rx_complete) ↔ (r.state.received ≡ r.info.len))
      × (((finish r).0.state.active ≡ true) ↔ (r.state.received ≢ r.info.len))
unfolding finish
finish_result r on = ground arith

-- The bytes that count as arrived before a fragment: none where no message is under way.
abbrev pub arrived_before : Receiver → ℕ
arrived_before r = if r.state.active then r.state.received else 0

abbrev pub Rejected : Receiver → Receiver × RxResult → Type 0
Rejected r p =
    (p.1 ≡ rx_rejected)
    × (p.0.state ≡ record { received = 0; active = false })
    × (p.0.payload ≡ r.payload)

abbrev pub Taken : Receiver → Fragment → Receiver × RxResult → Type 0
Taken r f p =
    (p.1 ≢ rx_rejected)
    × (pos_part f.offset ≡ arrived_before r)
    × (arrived p.0
        ≡ take (arrived_before r) r.payload ++ take (pos_part f.data_length) (pointee f.content))
    × (p.0.state.received ≤ p.0.info.len)
    × ((p.1 ≡ rx_complete) ↔ (p.0.state.received ≡ p.0.info.len))

pub accept_result :
    (s : Receiver) (f : Fragment)
    → s.state.active ≡ true
    → let n = s.state.received + pos_part f.data_length in
      ((accept s f).1 ≢ rx_rejected)
      × (((accept s f).1 ≡ rx_complete) ↔ (n ≡ s.info.len))
      × (((accept s f).0.state.active ≡ true) ↔ (n ≢ s.info.len))
unfolding accept
accept_result s f on = finish_result _ on

len_of : {a b : MessageInfo} → a ≡ b → a.len ≡ b.len
len_of e = ap (λ (i : MessageInfo). i.len) e

accept-IsValid :
    (capacity : ℕ) (s : Receiver) (f : Fragment)
    → length s.payload ≡ capacity
    → s.state.active ≡ true
    → Accepted capacity s f (accept s f).0
    → IsValid capacity (accept s f).0
accept-IsValid capacity s f block on a = record {
  block = rw a.block (length-copy s f ∙ block);
  within = λ active.
      let less = (accept_result s f on).2.0 active in
      let same = len_of a.same_info in
      (omega (arith, less, same, a.advanced, a.bounded), a.fits.0, a.fits.1);
}

pub accept-arrived :
    (capacity : ℕ) (s : Receiver) (f : Fragment)
    → length s.payload ≡ capacity
    → Accepted capacity s f (accept s f).0
    → pos_part f.data_length ≤ length (pointee f.content)
    → arrived (accept s f).0 ≡ arrived s ++ take (pos_part f.data_length) (pointee f.content)
accept-arrived capacity s f block a has =
    rw (a.advanced, a.block)
      (copy-take s f (omega (arith, a.advanced, a.bounded, a.fits.0, block)) has)

accept-Taken :
    (capacity : ℕ) (r s : Receiver) (f : Fragment)
    → s.payload ≡ r.payload
    → s.state ≡ record { received = arrived_before r; active = true }
    → length r.payload ≡ capacity
    → malformed capacity f ≡ false
    → out_of_step s f ≡ false
    → pos_part f.data_length ≤ length (pointee f.content)
    → IsValid capacity (accept s f).0 × Taken r f (accept s f)
accept-Taken capacity r s f same state block well step has =
    let a = accept-Accepted capacity s f well step in
    let on = ap (λ (x : ReceiveState). x.active) state in
    let at = ap (λ (x : ReceiveState). x.received) state in
    let block' = ap length same ∙ block in
    let result = accept_result s f on in
    let len' = len_of a.same_info in
    (
      accept-IsValid capacity s f block' on a,
      (
        result.0,
        (in_step s f step).0 ∙ at,
        rw (← at, ← same) (accept-arrived capacity s f block' a has),
        a.bounded,
        (
          λ e. omega (arith, result.1.0 e, a.advanced, len'),
          λ e. result.1.1 (omega (arith, e, a.advanced, len')),
        ),
      ),
    )

-- The states that a fragment is accepted in.
taken_state :
    (r s : Receiver) (f : Fragment)
    → ((r.state.active ≡ true) × (s ≡ r)) ⊎ ((r.state.active ≡ false) × (s ≡ start r f))
    → (s.payload ≡ r.payload) × (s.state ≡ record { received = arrived_before r; active = true })
unfolding start
taken_state r s f h = ground arith

-- Any fragment, given a valid receiver and a data pointer that covers the fragment's length, leaves
-- a valid receiver: no byte is written outside the payload block, and a message under way stays
-- below its length, which is within the capacity and the limit of 4096. Either the fragment is
-- rejected, the message under way is dropped and no payload byte changes; or it begins exactly where
-- the message stands, the bytes that had arrived are kept with the new bytes behind them, and the
-- answer is "complete" exactly when all bytes are there.
pub emqtt_receive_into_step :
    (capacity : ℕ) (r : Receiver) (f : Fragment)
    → IsValid capacity r
    → pos_part f.data_length ≤ length (pointee f.content)
    → IsValid capacity (emqtt_receive_into capacity r (some f)).0
      × (Rejected r (emqtt_receive_into capacity r (some f))
          ⊎ Taken r f (emqtt_receive_into capacity r (some f)))
emqtt_receive_into_step capacity r f v has =
    go (emqtt_receive_into capacity r (some f)) (receive_into-Outcome capacity r f)
  where
    go :
        (p : Receiver × RxResult)
        → Outcome capacity r f p
        → IsValid capacity p.0 × (Rejected r p ⊎ Taken r f p)
    go p (inl (e, state, same)) = (
      record {
        block = rw same v.block;
        within = λ active. cc (active, ap (λ (x : ReceiveState). x.active) state);
      },
      inl (e, state, same),
    )
    go p (inr (s, how, well, step, e)) =
        let (same, state) = taken_state r s f how in
        let t = accept-Taken capacity r s f same state v.block well step has in rw e (t.0, inr t.1)
