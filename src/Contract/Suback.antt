-- ===== src/Contract/Suback.antt =====
-- `emqtt_suback_valid` of runtime/emqtt_contract.c: the return codes of a SUBACK against the
-- subscriptions that were asked for.
use esp_mqtt.Base.{
  ℕ, zero, suc, ◌+◌, ◌≤◌, ◌<◌, ◌≡◌, ◌↔◌, refl, Bool, true, false, ◌||◌, not, Option, none, some,
  List, [], ltb, ◌==◌, if◌then◌else◌, get_or, arith,
}

abbrev pub subscriptions_max : ℕ
subscriptions_max = 8

-- `emqtt_subscription_t`: the topic is a char array of 257 bytes.
pub record Subscription : Type 0 where
  pub topic : List ℕ
  pub qos : ℕ

abbrev pub no_subscription : Subscription
no_subscription = record { topic = []; qos = 0 }

-- The loop over the first `count` codes.
unfoldable pub suback_loop : ℕ → ℕ → List ℕ → List Subscription → Bool
suback_loop zero i codes subscriptions = true
suback_loop (suc count) i codes subscriptions =
    let rest = suback_loop count (suc i) codes subscriptions in
    if ltb 1 (get_or codes i 0)
      || ltb (get_or subscriptions i no_subscription).qos (get_or codes i 0)
    then false
    else rest

unfoldable pub emqtt_suback_valid : Option (List ℕ) → ℕ → Option (List Subscription) → ℕ → Bool
emqtt_suback_valid none count subscriptions expected = false
emqtt_suback_valid (some codes) count none expected = false
emqtt_suback_valid (some codes) count (some subscriptions) expected =
    if expected == 0 || ltb subscriptions_max expected || not (count == expected)
    then false
    else suback_loop count 0 codes subscriptions

-- The code at an index grants the subscription, with a QoS of at most 1 and of what was asked.
pub record Granted (codes : List ℕ) (subscriptions : List Subscription) (i : ℕ) : Type 0 where
  pub accepted : get_or codes i 0 ≤ 1
  pub within : get_or codes i 0 ≤ (get_or subscriptions i no_subscription).qos

loop-Granted :
    (count i j : ℕ) (codes : List ℕ) (subscriptions : List Subscription)
    → suback_loop count i codes subscriptions ≡ true
    → i ≤ j
    → j < i + count
    → Granted codes subscriptions j
unfolding suback_loop
loop-Granted zero i j codes subscriptions h lo hi = absurd (omega arith)
loop-Granted (suc count) i j codes subscriptions h lo hi =
    ground (arith, loop-Granted count (suc i) j codes subscriptions)

Granted-loop :
    (count i : ℕ) (codes : List ℕ) (subscriptions : List Subscription)
    → ((j : ℕ) → i ≤ j → j < i + count → Granted codes subscriptions j)
    → suback_loop count i codes subscriptions ≡ true
unfolding suback_loop
Granted-loop zero i codes subscriptions all = refl
Granted-loop (suc count) i codes subscriptions all =
    let here = all i (omega arith) (omega arith) in
    let later =
      Granted-loop count (suc i) codes subscriptions
        (λ j lo hi. all j (omega arith) (omega arith)) in
    ground (arith, here, later)

-- A SUBACK is accepted exactly when it has as many codes as topics were asked for, between 1 and 8,
-- and every code grants its topic with a QoS of at most 1 and at most the asked one: a refusal
-- (0x80), a cut or padded list and a higher QoS all fail.
pub emqtt_suback_valid_iff :
    (codes : List ℕ) (count : ℕ) (subscriptions : List Subscription) (expected : ℕ)
    → (emqtt_suback_valid (some codes) count (some subscriptions) expected ≡ true) ↔ (
        (0 < expected)
        × (expected ≤ subscriptions_max)
        × (count ≡ expected)
        × ((i : ℕ) → i < count → Granted codes subscriptions i))
unfolding emqtt_suback_valid
emqtt_suback_valid_iff codes count subscriptions expected = (
  λ h.
      let (a, b, c, d) = passed h in
      (a, b, c, λ i k. loop-Granted count 0 i codes subscriptions d (omega arith) (omega arith)),
  λ (a, b, c, all).
      ground (arith, Granted-loop count 0 codes subscriptions (λ j lo hi. all j (omega arith))),
)
  where
    passed :
        emqtt_suback_valid (some codes) count (some subscriptions) expected ≡ true
        → (0 < expected)
          × (expected ≤ subscriptions_max)
          × (count ≡ expected)
          × (suback_loop count 0 codes subscriptions ≡ true)
    passed h = ground arith
