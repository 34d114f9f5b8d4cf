-- ===== src/Contract/Utf8/Complete.antt =====
-- Every text that encodes allowed code points passes `utf8` of runtime/emqtt_contract.c.
use esp_mqtt.Base.{
  ℕ, zero, suc, ◌+◌, ◌/◌, ◌%◌, ◌≤◌, ◌<◌, ◌≡◌, ◌⊎◌, ◌∙◌, refl, true, false, some, List, [], ◌∷◌,
  ◌++◌, length, length-append, All, arith,
}
use esp_mqtt.Contract.Utf8.{refused, character, utf8_loop, encode}

-- The code points that the runtime admits in texts: Unicode scalar values that are neither controls
-- nor non-characters.
pub record IsAllowed (c : ℕ) : Type 0 where
  pub in_range : c ≤ 0x10ffff
  pub no_surrogate : (c < 0xd800) ⊎ (0xdfff < c)
  pub no_low_control : 0x20 ≤ c
  pub no_high_control : (c < 0x7f) ⊎ (0x9f < c)
  pub no_process_use : (c < 0xfdd0) ⊎ (0xfdef < c)
  pub no_plane_end : c % 65536 < 0xfffe

refused-IsAllowed : (minimum c : ℕ) → IsAllowed c → minimum ≤ c → refused minimum c ≡ false
unfolding refused
refused-IsAllowed minimum c a h = ground arith

one_byte : (c : ℕ) (rest : List ℕ) → IsAllowed c → c < 0x80 → character (c ∷ rest) ≡ some rest
unfolding character
one_byte c rest a h = ground (arith, refused-IsAllowed 0 c a)

two_bytes :
    (c x y : ℕ) (rest : List ℕ)
    → IsAllowed c
    → 0x80 ≤ c
    → c < 0x800
    → x ≡ 0xc0 + c / 64
    → y ≡ 0x80 + c % 64
    → character (x ∷ y ∷ rest) ≡ some rest
unfolding character
two_bytes c x y rest a lo hi ex ey = ground (arith, refused-IsAllowed 0x80 c a)

three_bytes :
    (c x y z : ℕ) (rest : List ℕ)
    → IsAllowed c
    → 0x800 ≤ c
    → c < 0x10000
    → x ≡ 0xe0 + c / 4096
    → y ≡ 0x80 + c / 64 % 64
    → z ≡ 0x80 + c % 64
    → character (x ∷ y ∷ z ∷ rest) ≡ some rest
unfolding character
three_bytes c x y z rest a lo hi ex ey ez = ground (arith, refused-IsAllowed 0x800 c a)

four_bytes :
    (c x y z w : ℕ) (rest : List ℕ)
    → IsAllowed c
    → 0x10000 ≤ c
    → x ≡ 0xf0 + c / 262144
    → y ≡ 0x80 + c / 4096 % 64
    → z ≡ 0x80 + c / 64 % 64
    → w ≡ 0x80 + c % 64
    → character (x ∷ y ∷ z ∷ w ∷ rest) ≡ some rest
unfolding character
four_bytes c x y z w rest a lo ex ey ez ew = ground (arith, refused-IsAllowed 0x10000 c a)

pub character-encode :
    (c : ℕ) (rest : List ℕ) → IsAllowed c → character (encode c ++ rest) ≡ some rest
unfolding encode
character-encode c rest a = ground (
  arith,
  one_byte c rest a,
  two_bytes c (0xc0 + c / 64) (0x80 + c % 64) rest a,
  three_bytes c (0xe0 + c / 4096) (0x80 + c / 64 % 64) (0x80 + c % 64) rest a,
  four_bytes c (0xf0 + c / 262144) (0x80 + c / 4096 % 64) (0x80 + c / 64 % 64) (0x80 + c % 64) rest
      a,
)

-- A text of code points.
unfoldable pub encode_all : List ℕ → List ℕ
encode_all [] = []
encode_all (c ∷ cs) = encode c ++ encode_all cs

length-encode_pos : (c : ℕ) → 0 < length (encode c)
unfolding encode
length-encode_pos c = ground arith

pub utf8_loop_step :
    (rounds : ℕ) (text after : List ℕ)
    → character text ≡ some after
    → utf8_loop (suc rounds) text ≡ utf8_loop rounds after
unfolding utf8_loop
utf8_loop_step rounds [] after e = unfold character in cc
utf8_loop_step rounds (b ∷ text) after e = rw (e, utf8_loop)

pub utf8_loop-encode_all :
    (rounds : ℕ) (cs : List ℕ)
    → All IsAllowed cs
    → length (encode_all cs) ≤ rounds
    → utf8_loop rounds (encode_all cs) ≡ true
unfolding encode_all
utf8_loop-encode_all rounds [] a h = unfold utf8_loop in refl
utf8_loop-encode_all zero (c ∷ cs) a h =
    absurd (omega (arith, length-append (encode c) (encode_all cs), length-encode_pos c))
utf8_loop-encode_all (suc rounds) (c ∷ cs) a h =
    utf8_loop_step rounds _ (encode_all cs) (character-encode c (encode_all cs) a.0)
    ∙ utf8_loop-encode_all rounds cs a.1
        (omega (arith, length-append (encode c) (encode_all cs), length-encode_pos c))
