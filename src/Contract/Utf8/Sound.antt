-- ===== src/Contract/Utf8/Sound.antt =====
-- Only encodings of allowed code points pass `utf8` of runtime/emqtt_contract.c.
use esp_mqtt.Base.{
  ℕ, zero, suc, ◌+◌, ◌*◌, ◌/◌, ◌%◌, ◌≤◌, ◌<◌, ◌≡◌, ◌⊎◌, ◌↔◌, ◌∙◌, ap, inl, inr, refl, true, false,
  some, List, [], ◌∷◌, ◌++◌, length, All, arith, Option-cases,
}
use mathlib.Core.Path.{subst}
use esp_mqtt.Base.Bytes.{IsByte}
use esp_mqtt.Contract.Utf8.{refused, character, utf8_loop, utf8, encode}
use esp_mqtt.Contract.Utf8.Complete.{IsAllowed, encode_all, utf8_loop-encode_all}

accepted-IsAllowed : (minimum c : ℕ) → refused minimum c ≡ false → (minimum ≤ c) × IsAllowed c
unfolding refused
accepted-IsAllowed minimum c h = ground arith

-- A text that begins with one allowed character.
abbrev Starts : List ℕ → List ℕ → Type 0
Starts text after = (c : ℕ) × IsAllowed c × (text ≡ encode c ++ after)

starts_one :
    (x : ℕ) (rest after : List ℕ)
    → x < 0x80
    → character (x ∷ rest) ≡ some after
    → (after ≡ rest) × IsAllowed x
unfolding character
starts_one x rest after h e = ground (arith, accepted-IsAllowed 0 x)

starts_two :
    (x y : ℕ) (rest after : List ℕ)
    → 0xc2 ≤ x
    → x ≤ 0xdf
    → y < 256
    → character (x ∷ y ∷ rest) ≡ some after
    → (after ≡ rest) × (y / 64 ≡ 2) × IsAllowed (x % 32 * 64 + y % 64)
unfolding character
starts_two x y rest after lo hi b e = ground (arith, accepted-IsAllowed 0x80 (x % 32 * 64 + y % 64))

starts_three :
    (x y z : ℕ) (rest after : List ℕ)
    → 0xe0 ≤ x
    → x ≤ 0xef
    → y < 256
    → z < 256
    → character (x ∷ y ∷ z ∷ rest) ≡ some after
    → (after ≡ rest)
      × (y / 64 ≡ 2)
      × (z / 64 ≡ 2)
      × (0x800 ≤ (x % 16 * 64 + y % 64) * 64 + z % 64)
      × IsAllowed ((x % 16 * 64 + y % 64) * 64 + z % 64)
unfolding character
starts_three x y z rest after lo hi b d e =
    ground (arith, accepted-IsAllowed 0x800 ((x % 16 * 64 + y % 64) * 64 + z % 64))

starts_four :
    (x y z w : ℕ) (rest after : List ℕ)
    → 0xf0 ≤ x
    → x ≤ 0xf4
    → y < 256
    → z < 256
    → w < 256
    → character (x ∷ y ∷ z ∷ w ∷ rest) ≡ some after
    → (after ≡ rest)
      × (y / 64 ≡ 2)
      × (z / 64 ≡ 2)
      × (w / 64 ≡ 2)
      × (0x10000 ≤ ((x % 8 * 64 + y % 64) * 64 + z % 64) * 64 + w % 64)
      × IsAllowed (((x % 8 * 64 + y % 64) * 64 + z % 64) * 64 + w % 64)
unfolding character
starts_four x y z w rest after lo hi b d f e =
    ground (arith, accepted-IsAllowed 0x10000 (((x % 8 * 64 + y % 64) * 64 + z % 64) * 64 + w % 64))

too_short : (x : ℕ) (after : List ℕ) → 0x80 ≤ x → character (x ∷ []) ≡ some after → ⊥
unfolding character
too_short x after lo e = ground arith

too_short_three : (x y : ℕ) (after : List ℕ) → 0xe0 ≤ x → character (x ∷ y ∷ []) ≡ some after → ⊥
unfolding character
too_short_three x y after lo e = ground arith

too_short_four :
    (x y z : ℕ) (after : List ℕ) → 0xf0 ≤ x → character (x ∷ y ∷ z ∷ []) ≡ some after → ⊥
unfolding character
too_short_four x y z after lo e = ground arith

bad_lead :
    (x : ℕ) (rest after : List ℕ)
    → ((0x80 ≤ x) × (x < 0xc2)) ⊎ (0xf4 < x)
    → character (x ∷ rest) ≡ some after
    → ⊥
unfolding character
bad_lead x rest after h e = ground arith

encode_one : (c : ℕ) → c < 0x80 → encode c ≡ c ∷ []
unfolding encode
encode_one c h = ground arith

encode_two :
    (x y : ℕ) → 0xc2 ≤ x → x ≤ 0xdf → y / 64 ≡ 2 → encode (x % 32 * 64 + y % 64) ≡ x ∷ y ∷ []
unfolding encode
encode_two x y lo hi h = ground arith

encode_three :
    (x y z : ℕ)
    → 0xe0 ≤ x
    → x ≤ 0xef
    → y / 64 ≡ 2
    → z / 64 ≡ 2
    → 0x800 ≤ (x % 16 * 64 + y % 64) * 64 + z % 64
    → encode ((x % 16 * 64 + y % 64) * 64 + z % 64) ≡ x ∷ y ∷ z ∷ []
unfolding encode
encode_three x y z lo hi h k m = ground arith

encode_four :
    (x y z w : ℕ)
    → 0xf0 ≤ x
    → x ≤ 0xf4
    → y / 64 ≡ 2
    → z / 64 ≡ 2
    → w / 64 ≡ 2
    → 0x10000 ≤ ((x % 8 * 64 + y % 64) * 64 + z % 64) * 64 + w % 64
    → encode (((x % 8 * 64 + y % 64) * 64 + z % 64) * 64 + w % 64) ≡ x ∷ y ∷ z ∷ w ∷ []
unfolding encode
encode_four x y z w lo hi h k l m = ground arith

abbrev glue : List ℕ → List ℕ → List ℕ
glue xs after = xs ++ after

with_two :
    (x : ℕ) (rest after : List ℕ)
    → 0xc2 ≤ x
    → x ≤ 0xdf
    → All IsByte rest
    → character (x ∷ rest) ≡ some after
    → Starts (x ∷ rest) after
with_two x [] after lo hi b e = absurd (too_short x after (omega arith) e)
with_two x (y ∷ rest) after lo hi b e =
    let (same, h, a) = starts_two x y rest after lo hi b.0 e in
    (_, a, rw (same, encode_two x y lo hi h) refl)

with_three :
    (x : ℕ) (rest after : List ℕ)
    → 0xe0 ≤ x
    → x ≤ 0xef
    → All IsByte rest
    → character (x ∷ rest) ≡ some after
    → Starts (x ∷ rest) after
with_three x [] after lo hi b e = absurd (too_short x after (omega arith) e)
with_three x (y ∷ []) after lo hi b e = absurd (too_short_three x y after lo e)
with_three x (y ∷ z ∷ rest) after lo hi b e =
    let (same, h, k, m, a) = starts_three x y z rest after lo hi b.0 b.1.0 e in
    (_, a, rw (same, encode_three x y z lo hi h k m) refl)

with_four :
    (x : ℕ) (rest after : List ℕ)
    → 0xf0 ≤ x
    → x ≤ 0xf4
    → All IsByte rest
    → character (x ∷ rest) ≡ some after
    → Starts (x ∷ rest) after
with_four x [] after lo hi b e = absurd (too_short x after (omega arith) e)
with_four x (y ∷ []) after lo hi b e = absurd (too_short_three x y after (omega arith) e)
with_four x (y ∷ z ∷ []) after lo hi b e = absurd (too_short_four x y z after lo e)
with_four x (y ∷ z ∷ w ∷ rest) after lo hi b e =
    let (same, h, k, l, m, a) = starts_four x y z w rest after lo hi b.0 b.1.0 b.1.1.0 e in
    (_, a, rw (same, encode_four x y z w lo hi h k l m) refl)

lead_range :
    (x : ℕ)
    → (x < 0x80)
      ⊎ ((((0x80 ≤ x) × (x < 0xc2)) ⊎ (0xf4 < x))
          ⊎ (((0xc2 ≤ x) × (x ≤ 0xdf)) ⊎ (((0xe0 ≤ x) × (x ≤ 0xef)) ⊎ ((0xf0 ≤ x) × (x ≤ 0xf4)))))
lead_range x = grind arith

character-Starts :
    (text after : List ℕ) → All IsByte text → character text ≡ some after → Starts text after
character-Starts [] after b e = unfold character in cc
character-Starts (x ∷ rest) after b e = elim (lead_range x) [
  | inl h ↦ let (same, a) = starts_one x rest after h e in (x, a, rw (same, encode_one x h) refl)
  | inr (inl h) ↦ absurd (bad_lead x rest after h e)
  | inr (inr (inl (lo, hi))) ↦ with_two x rest after lo hi b.1 e
  | inr (inr (inr (inl (lo, hi)))) ↦ with_three x rest after lo hi b.1 e
  | inr (inr (inr (inr (lo, hi)))) ↦ with_four x rest after lo hi b.1 e
]

All-append_right {ℓ κ} :
    {A : Type ℓ} (P : A → Type κ) (xs ys : List A) → All P (xs ++ ys) → All P ys
All-append_right P [] ys h = h
All-append_right P (x ∷ xs) ys h = All-append_right P xs ys h.1

abbrev Encodes : List ℕ → Type 0
Encodes text = (cs : List ℕ) × All IsAllowed cs × (text ≡ encode_all cs)

Encodes-cons : (text after : List ℕ) → Starts text after → Encodes after → Encodes text
unfolding encode_all
Encodes-cons text after (c, a, e) (cs, as', e') = (c ∷ cs, (a, as'), e ∙ ap (◌++◌ (encode c)) e')

utf8_loop-Encodes :
    (rounds : ℕ) (text : List ℕ) → All IsByte text → utf8_loop rounds text ≡ true → Encodes text
unfolding utf8_loop
utf8_loop-Encodes rounds [] b e = ([], tt, unfold encode_all in refl)
utf8_loop-Encodes zero (x ∷ rest) b e = cc
utf8_loop-Encodes (suc rounds) (x ∷ rest) b e = elim (Option-cases (character (x ∷ rest))) [
  | inl stop ↦ cc (rw (stop, utf8_loop) at e)
  | inr (after, go) ↦
      let s = character-Starts (x ∷ rest) after b go in
      let bytes : All IsByte (encode s.0 ++ after) = subst (All IsByte) s.2 b in
      Encodes-cons (x ∷ rest) after s (
        utf8_loop-Encodes rounds after (All-append_right IsByte (encode s.0) after bytes)
          (rw (go, utf8_loop) at e))
]

-- `utf8` accepts a string of bytes exactly when it is the UTF-8 encoding of some sequence of code
-- points that are neither surrogates, controls nor non-characters: overlong, truncated and stray
-- bytes are refused, and every well-formed text passes.
pub utf8_iff :
    (text : List ℕ)
    → All IsByte text
    → (utf8 text ≡ true) ↔ ((cs : List ℕ) × All IsAllowed cs × (text ≡ encode_all cs))
unfolding utf8
utf8_iff text b = (
  utf8_loop-Encodes (length text) text b,
  λ (cs, a, e). rw e (utf8_loop-encode_all (length (encode_all cs)) cs a (omega arith)),
)
