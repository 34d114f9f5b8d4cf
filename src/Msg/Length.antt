-- ===== src/Msg/Length.antt =====
-- The remaining length of `fini_message` and `mqtt_get_total_length` in lib/mqtt_msg.c.
use esp_mqtt.Base.{
  ℕ, zero, suc, ◌+◌, ◌-◌, ◌*◌, ◌/◌, ◌%◌, ◌^◌, ◌≤◌, ◌<◌, ◌≡◌, ◌≢◌, ◌↔◌, refl, none, some, List, [],
  ◌∷◌, ◌++◌, ltb, if◌then◌else◌, length, arith, ap, ◌∙◌, Bool-cases, inl, inr, ltb→lt,
}
use esp_mqtt.Base.Bytes.{sub32}
use esp_mqtt.Msg.Types.{byte_at, Connection, MessageType}
use esp_mqtt.Msg.Build.{encode_lens, announced, fini_message, fail_message, put_header, first_byte}
use esp_mqtt.Msg.Read.{total_loop, mqtt_get_total_length, skip_loop}

-- The variable byte integer of the standard, case by case: seven bits a byte, the low ones first,
-- with the high bit set on all bytes but the last.
unfoldable pub remaining_length : ℕ → List ℕ
remaining_length n =
    if ltb n 128
    then n ∷ []
    else if ltb n 16384
    then (n % 128 + 128) ∷ n / 128 ∷ []
    else if ltb n 2097152
    then (n % 128 + 128) ∷ (n / 128 % 128 + 128) ∷ n / 128 / 128 ∷ []
    else (n % 128 + 128)
      ∷ (n / 128 % 128 + 128)
      ∷ (n / 128 / 128 % 128 + 128)
      ∷ n / 128 / 128 / 128
      ∷ []

-- The four sizes of a remaining length, each with what `remaining_length` is there.
data LengthCase (n : ℕ) : Type 0 where
  one : n < 128 → remaining_length n ≡ n ∷ [] → LengthCase n
  two : 128 ≤ n → n < 16384 → remaining_length n ≡ (n % 128 + 128) ∷ n / 128 ∷ [] → LengthCase n
  three :
      16384 ≤ n
      → n < 2097152
      → remaining_length n ≡ (n % 128 + 128) ∷ (n / 128 % 128 + 128) ∷ n / 128 / 128 ∷ []
      → LengthCase n
  four :
      2097152 ≤ n
      → remaining_length n ≡ (
          (n % 128 + 128)
          ∷ (n / 128 % 128 + 128)
          ∷ (n / 128 / 128 % 128 + 128)
          ∷ n / 128 / 128 / 128
          ∷ [])
      → LengthCase n

length_case : (n : ℕ) → LengthCase n
unfolding remaining_length
length_case n = elim (Bool-cases (ltb n 128)) [
  | inl a ↦ one (ground arith) (ground arith)
  | inr a ↦ elim (Bool-cases (ltb n 16384)) [
    | inl b ↦ two (ground arith) (ground arith) (ground arith)
    | inr b ↦ elim (Bool-cases (ltb n 2097152)) [
      | inl c ↦ three (ground arith) (ground arith) (ground arith)
      | inr c ↦ four (ground arith) (ground arith)
    ]
  ]
]

-- The bytes of a remaining length: all but the last have the high bit.
abbrev pub IsLength : List ℕ → Type 0
IsLength [] = ⊥
IsLength (l ∷ []) = l < 128
IsLength (l ∷ m ∷ ls) = (128 ≤ l) × (l < 256) × IsLength (m ∷ ls)

pub remaining_length-IsLength : (n : ℕ) → n < 2 ^ 28 → IsLength (remaining_length n)
remaining_length-IsLength n h = elim (length_case n) [
  | one a e ↦ rw e a
  | two a b e ↦ rw e (omega arith, omega arith, omega arith)
  | three a b e ↦ rw e (omega arith, omega arith, (omega arith, omega arith, omega arith))
  | four a e ↦ rw e (
    omega arith,
    omega arith,
    (omega arith, omega arith, (omega arith, omega arith, omega arith)),
  )
]

pub length-remaining_length : (n : ℕ) → length (remaining_length n) ≤ 4
length-remaining_length n = elim (length_case n) [
  | one a e ↦ rw e (omega arith)
  | two a b e ↦ rw e (omega arith)
  | three a b e ↦ rw e (omega arith)
  | four a e ↦ rw e (omega arith)
]

-- One round of the encoder on the last byte, on another, and on one for which there is no room.
encode_last : (room n : ℕ) → n < 128 → encode_lens (suc room) n ≡ some (n ∷ [])
unfolding encode_lens
encode_last room n h = ground arith

encode_more :
    (room n : ℕ) (bytes : List ℕ)
    → 128 ≤ n
    → n < 2 ^ 31
    → encode_lens room (n / 128) ≡ some bytes
    → encode_lens (suc room) n ≡ some ((n % 128 + 128) ∷ bytes)
unfolding encode_lens
encode_more room n bytes h k e = ground arith

-- Every length below 2 ^ 28 is encoded as the standard says, within the array of four bytes.
pub encode_lens_lem : (n : ℕ) → n < 2 ^ 28 → encode_lens 4 n ≡ some (remaining_length n)
encode_lens_lem n h = elim (length_case n) [
  | one a e ↦ rw e (encode_last 3 n a)
  | two a b e ↦ rw e (encode_more 3 n _ a (omega arith) (encode_last 2 (n / 128) (omega arith)))
  | three a b e ↦ rw e (
      encode_more 3 n _ (omega arith) (omega arith) (
        encode_more 2 (n / 128) _ (omega arith) (omega arith)
          (encode_last 1 (n / 128 / 128) (omega arith))))
  | four a e ↦ rw e (
      encode_more 3 n _ (omega arith) (omega arith) (
        encode_more 2 (n / 128) _ (omega arith) (omega arith) (
          encode_more 1 (n / 128 / 128) _ (omega arith) (omega arith)
            (encode_last 0 (n / 128 / 128 / 128) (omega arith)))))
]

encode_out :
    (room n : ℕ)
    → 128 ≤ n
    → n < 2 ^ 31
    → encode_lens room (n / 128) ≡ none
    → encode_lens (suc room) n ≡ none
unfolding encode_lens
encode_out room n h k e = ground arith

encode_none : (n : ℕ) → encode_lens 0 n ≡ none
unfolding encode_lens
encode_none n = refl

encode_lens_overrun : (n : ℕ) → 2 ^ 28 ≤ n → n < 2 ^ 31 → encode_lens 4 n ≡ none
encode_lens_overrun n h k = encode_out 3 n (omega arith) k (
    encode_out 2 (n / 128) (omega arith) (omega arith) (
      encode_out 1 (n / 128 / 128) (omega arith) (omega arith)
        (encode_out 0 (n / 128 / 128 / 128) (omega arith) (omega arith) (encode_none _))))

-- A negative length is one byte.
encode_negative :
    (room n : ℕ)
    → 2 ^ 31 ≤ n
    → encode_lens (suc room) n ≡ some ((256 - (2 ^ 32 - n) % 128) % 256 ∷ [])
unfolding encode_lens
encode_negative room n h = ground arith

announced_bound : (c : Connection) → announced c < 2 ^ 32
unfolding announced sub32
announced_bound c = ground arith

fini_message_out :
    (c : Connection) (type : MessageType) (dup qos retain : ℕ)
    → encode_lens 4 (announced c) ≡ none
    → fini_message c type dup qos retain ≡ none
unfolding fini_message
fini_message_out c type dup qos retain e = rw e refl

fini_message_in :
    (c : Connection) (type : MessageType) (dup qos retain : ℕ) (lens : List ℕ)
    → encode_lens 4 (announced c) ≡ some lens
    → (d : Connection) × (fini_message c type dup qos retain ≡ some d)
unfolding fini_message
fini_message_in c type dup qos retain lens e = (
  if ltb 5 (length lens + 1)
      then fail_message c
      else put_header c (first_byte type dup qos retain) lens,
  rw e refl,
)

fini_message_returns :
    (c : Connection) (type : MessageType) (dup qos retain : ℕ) (lens : List ℕ)
    → encode_lens 4 (announced c) ≡ some lens
    → fini_message c type dup qos retain ≢ none
fini_message_returns c type dup qos retain lens e h =
    let r = (fini_message_in c type dup qos retain lens e).1 in absurd cc

-- `fini_message` writes behind the four bytes of `encoded_lens` exactly when the `int` that the
-- length field announces is at least 2 ^ 28: for every connection, type and flags the run ends in
-- `none`, and in no message and no refusal, if that length is at least 2 ^ 28 and not negative, that is
-- below 2 ^ 31 as a word of 32 bits, and only then.
pub fini_message-overrun :
    (c : Connection) (type : MessageType) (dup qos retain : ℕ)
    → (fini_message c type dup qos retain ≡ none)
      ↔ ((2 ^ 28 ≤ announced c) × (announced c < 2 ^ 31))
fini_message-overrun c type dup qos retain =
    let n = announced c in
    (
      λ h. (
        elim (Bool-cases (ltb n (2 ^ 28))) [
          | inl a ↦
              let lens = remaining_length n in
              let e = encode_lens_lem n (ltb→lt n (2 ^ 28) a) in
              absurd (fini_message_returns c type dup qos retain lens e h)
          | inr a ↦ ground arith
        ],
        elim (Bool-cases (ltb n (2 ^ 31))) [
          | inl a ↦ ltb→lt n (2 ^ 31) a
          | inr a ↦
              absurd (
                fini_message_returns c type dup qos retain _ (encode_negative 3 n (ground arith)) h)
        ],
      ),
      λ (low, high). fini_message_out c type dup qos retain (encode_lens_overrun n low high),
    )

-- The bytes of the fixed header with a remaining length and what follows.
abbrev pub with_length : ℕ → ℕ → List ℕ → List ℕ
with_length first n rest = first ∷ (remaining_length n ++ rest)

abbrev pub header_size : ℕ → ℕ
header_size n = suc (length (remaining_length n))

-- One round of the loop that adds up the bytes, on the last byte and on another.
total_end :
    (room : ℕ) (buffer : List ℕ) (size i total : ℕ)
    → i < size
    → byte_at buffer i < 128
    → total_loop (suc room) buffer size i total
      ≡ (total + byte_at buffer i * 2 ^ (7 * (i - 1)), i + 1)
unfolding total_loop
total_end room buffer size i total h k = ground arith

total_more :
    (room : ℕ) (buffer : List ℕ) (size i total low : ℕ)
    → i < size
    → byte_at buffer i ≡ low + 128
    → low < 128
    → total_loop (suc room) buffer size i total
      ≡ total_loop room buffer size (i + 1) (total + low * 2 ^ (7 * (i - 1)))
unfolding total_loop
total_more room buffer size i total low h e k = ground arith

read_one :
    (first a : ℕ) (rest : List ℕ) (size : ℕ)
    → a < 128
    → 1 < size
    → total_loop 4 (first ∷ a ∷ rest) size 1 0 ≡ (a, 2)
read_one first a rest size h k =
    total_end 3 (first ∷ a ∷ rest) size 1 0 k h ∙ ap (λ t. (t, 2)) (omega arith)

read_two :
    (first a b : ℕ) (rest : List ℕ) (size : ℕ)
    → a < 128
    → b < 128
    → 2 < size
    → total_loop 4 (first ∷ (a + 128) ∷ b ∷ rest) size 1 0 ≡ (a + b * 128, 3)
read_two first a b rest size h k l =
    let buffer = first ∷ (a + 128) ∷ b ∷ rest in
    total_more 3 buffer size 1 0 a (omega arith) refl h
    ∙ total_end 2 buffer size 2 _ l k
    ∙ ap (λ t. (t, 3)) (omega arith)

read_three :
    (first a b c : ℕ) (rest : List ℕ) (size : ℕ)
    → a < 128
    → b < 128
    → c < 128
    → 3 < size
    → total_loop 4 (first ∷ (a + 128) ∷ (b + 128) ∷ c ∷ rest) size 1 0
      ≡ (a + b * 128 + c * 16384, 4)
read_three first a b c rest size h k l m =
    let buffer = first ∷ (a + 128) ∷ (b + 128) ∷ c ∷ rest in
    total_more 3 buffer size 1 0 a (omega arith) refl h
    ∙ total_more 2 buffer size 2 _ b (omega arith) refl k
    ∙ total_end 1 buffer size 3 _ m l
    ∙ ap (λ t. (t, 4)) (omega arith)

read_four :
    (first a b c d : ℕ) (rest : List ℕ) (size : ℕ)
    → a < 128
    → b < 128
    → c < 128
    → d < 128
    → 4 < size
    → total_loop 4 (first ∷ (a + 128) ∷ (b + 128) ∷ (c + 128) ∷ d ∷ rest) size 1 0
      ≡ (a + b * 128 + c * 16384 + d * 2097152, 5)
read_four first a b c d rest size h k l m o =
    let buffer = first ∷ (a + 128) ∷ (b + 128) ∷ (c + 128) ∷ d ∷ rest in
    total_more 3 buffer size 1 0 a (omega arith) refl h
    ∙ total_more 2 buffer size 2 _ b (omega arith) refl k
    ∙ total_more 1 buffer size 3 _ c (omega arith) refl l
    ∙ total_end 0 buffer size 4 _ o m
    ∙ ap (λ t. (t, 5)) (omega arith)

pub total_loop-remaining :
    (first n : ℕ) (rest : List ℕ) (size : ℕ)
    → n < 2 ^ 28
    → length (remaining_length n) < size
    → total_loop 4 (with_length first n rest) size 1 0 ≡ (n, header_size n)
total_loop-remaining first n rest size h k = elim (length_case n) [
  | one a e ↦ rw e (read_one first n rest size a (omega (arith, ap length e, k)))
  | two a b e ↦ rw e (
      read_two first (n % 128) (n / 128) rest size (omega arith) (omega arith)
        (omega (arith, ap length e, k))
      ∙ ap (λ t. (t, 3)) (omega arith))
  | three a b e ↦ rw e (
      read_three first (n % 128) (n / 128 % 128) (n / 128 / 128) rest size (omega arith)
        (omega arith) (omega arith) (omega (arith, ap length e, k))
      ∙ ap (λ t. (t, 4)) (omega arith))
  | four a e ↦ rw e (
      read_four first (n % 128) (n / 128 % 128) (n / 128 / 128 % 128) (n / 128 / 128 / 128) rest
        size (omega arith) (omega arith) (omega arith) (omega arith) (omega (arith, ap length e, k))
      ∙ ap (λ t. (t, 5)) (omega arith))
]

-- `mqtt_get_total_length` reads what the encoding tells: for a packet with the remaining length `n`
-- below 2 ^ 28, of which at least the fixed header has arrived, the size of the fixed header and
-- that size with `n`, whatever stands behind the header.
pub mqtt_get_total_length_lem :
    (first n : ℕ) (rest : List ℕ) (size : ℕ)
    → n < 2 ^ 28
    → length (remaining_length n) < size
    → mqtt_get_total_length (with_length first n rest) size ≡ (n + header_size n, header_size n)
unfolding mqtt_get_total_length
mqtt_get_total_length_lem first n rest size h k =
    ap (λ p. (p.0 + p.1, p.1)) (total_loop-remaining first n rest size h k)

-- The loop that only skips the remaining length.
skip_end :
    (rounds : ℕ) (buffer : List ℕ) (size i : ℕ)
    → 0 < rounds
    → i < size
    → byte_at buffer i < 128
    → skip_loop rounds buffer size i ≡ i + 1
unfolding skip_loop
skip_end zero buffer size i a h k = absurd (omega arith)
skip_end (suc room) buffer size i a h k = ground arith

skip_more :
    (rounds : ℕ) (buffer : List ℕ) (size i low : ℕ)
    → 0 < rounds
    → i < size
    → byte_at buffer i ≡ low + 128
    → low < 128
    → skip_loop rounds buffer size i ≡ skip_loop (rounds - 1) buffer size (i + 1)
unfolding skip_loop
skip_more zero buffer size i low a h e k = absurd (omega arith)
skip_more (suc room) buffer size i low a h e k = ground arith

pub skip_loop-remaining :
    (first n : ℕ) (rest : List ℕ) (size : ℕ)
    → n < 2 ^ 28
    → length (remaining_length n) < size
    → skip_loop size (with_length first n rest) size 1 ≡ header_size n
skip_loop-remaining first n rest size h k = elim (length_case n) [
  | one a e ↦
      let l : 1 < size = omega (arith, ap length e, k) in
      rw e (skip_end size (first ∷ n ∷ rest) size 1 (omega arith) l a)
  | two a b e ↦
      let l : 2 < size = omega (arith, ap length e, k) in
      let buffer = first ∷ (n % 128 + 128) ∷ n / 128 ∷ rest in
      rw e (
        skip_more size buffer size 1 (n % 128) (omega arith) (omega arith) refl (omega arith)
        ∙ skip_end _ buffer size 2 (omega arith) l (omega arith))
  | three a b e ↦
      let l : 3 < size = omega (arith, ap length e, k) in
      let buffer = first ∷ (n % 128 + 128) ∷ (n / 128 % 128 + 128) ∷ n / 128 / 128 ∷ rest in
      rw e (
        skip_more size buffer size 1 (n % 128) (omega arith) (omega arith) refl (omega arith)
        ∙ skip_more _ buffer size 2 (n / 128 % 128) (omega arith) (omega arith) refl (omega arith)
        ∙ skip_end _ buffer size 3 (omega arith) l (omega arith))
  | four a e ↦
      let l : 4 < size = omega (arith, ap length e, k) in
      let buffer =
        first
        ∷ (n % 128 + 128)
        ∷ (n / 128 % 128 + 128)
        ∷ (n / 128 / 128 % 128 + 128)
        ∷ n / 128 / 128 / 128
        ∷ rest in
      rw e (
        skip_more size buffer size 1 (n % 128) (omega arith) (omega arith) refl (omega arith)
        ∙ skip_more _ buffer size 2 (n / 128 % 128) (omega arith) (omega arith) refl (omega arith)
        ∙ skip_more _ buffer size 3 (n / 128 / 128 % 128) (omega arith) (omega arith) refl
            (omega arith)
        ∙ skip_end _ buffer size 4 (omega arith) l (omega arith))
]
