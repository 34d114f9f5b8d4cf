-- ===== src/Contract/Utf8.antt =====
-- `utf8` of runtime/emqtt_contract.c. A text is the list of its bytes; masks and shifts are written
-- as `%`, `/` and `*`.
pub mod Sound
pub mod Complete
use esp_mqtt.Base.{
  ℕ, zero, suc, ◌+◌, ◌*◌, ◌/◌, ◌%◌, Bool, true, false, ◌&&◌, ◌||◌, not, Option, none, some, List,
  [], ◌∷◌, ltb, leb, ◌==◌, if◌then◌else◌, length,
}

-- What the first byte says: the bits that it gives, how many bytes follow, the least code point.
pub record Lead : Type 0 where
  pub code : ℕ
  pub extra : ℕ
  pub minimum : ℕ

unfoldable pub lead : ℕ → Option Lead
lead first =
    if leb 0xc2 first && leb first 0xdf
    then some (record { code = first % 32; extra = 1; minimum = 0x80 })
    else if leb 0xe0 first && leb first 0xef
    then some (record { code = first % 16; extra = 2; minimum = 0x800 })
    else if leb 0xf0 first && leb first 0xf4
    then some (record { code = first % 8; extra = 3; minimum = 0x10000 })
    else if leb 0x80 first
    then none
    else some (record { code = first; extra = 0; minimum = 0 })

-- The inner `while (extra--)`.
unfoldable pub follow : ℕ → ℕ → List ℕ → Option (ℕ × List ℕ)
follow zero code rest = some (code, rest)
follow (suc extra) code [] = none
follow (suc extra) code (byte ∷ rest) =
    let more = follow extra (code * 64 + byte % 64) rest in
    if byte / 64 % 4 == 2 then more else none

-- The test that ends the loop's body.
unfoldable pub refused : ℕ → ℕ → Bool
refused minimum code =
    ltb code minimum
    || ltb 0x10ffff code
    || (leb 0xd800 code && leb code 0xdfff)
    || ltb code 0x20
    || (leb 0x7f code && leb code 0x9f)
    || (leb 0xfdd0 code && leb code 0xfdef)
    || leb 0xfffe (code % 65536)

-- One round: the bytes behind the character, or none where the code returns false.
unfoldable pub character : List ℕ → Option (List ℕ)
unfolding lead follow refused
character [] = none
character (first ∷ rest) = elim (lead first) [
  | none ↦ none
  | some l ↦ elim (follow l.extra l.code rest) [
    | none ↦ none
    | some (code, after) ↦ if refused l.minimum code then none else some after
  ]
]

-- The loop, with one round of fuel for each byte.
unfoldable pub utf8_loop : ℕ → List ℕ → Bool
utf8_loop rounds [] = true
utf8_loop zero (first ∷ rest) = false
utf8_loop (suc rounds) (first ∷ rest) = elim (character (first ∷ rest)) [
  | none ↦ false
  | some after ↦ utf8_loop rounds after
]

unfoldable pub utf8 : List ℕ → Bool
utf8 text = utf8_loop (length text) text

-- The encoding of a code point, and the code points that the runtime accepts.
unfoldable pub encode : ℕ → List ℕ
encode c =
    if ltb c 0x80
    then c ∷ []
    else if ltb c 0x800
    then (0xc0 + c / 64) ∷ (0x80 + c % 64) ∷ []
    else if ltb c 0x10000
    then (0xe0 + c / 4096) ∷ (0x80 + c / 64 % 64) ∷ (0x80 + c % 64) ∷ []
    else (0xf0 + c / 262144) ∷ (0x80 + c / 4096 % 64) ∷ (0x80 + c / 64 % 64) ∷ (0x80 + c % 64) ∷ []
