-- ===== src/Utils/Percent.antt =====
-- `esp_mqtt_decode_percent_encoded_string` and `mqtt_create_string` of lib/mqtt_utils/mqtt_utils.c.
-- The `char *` is the memory behind it: the string ends in front of the first NUL, which is no hex
-- digit.
-- The string is decoded in place: a write never comes before the place that is read.
use esp_mqtt.Base.{
  ℕ, zero, suc, ◌+◌, ◌-◌, ◌*◌, ◌/◌, ◌%◌, ◌<◌, ◌≡◌, refl, ap, ◌∙◌, Bool, true, false, ◌&&◌, ◌||◌,
  not, Option, none, some, List, [], ◌∷◌, leb, ltb, ◌==◌, if◌then◌else◌, if_cases, All, arith, take,
}
use esp_mqtt.Base.Int.{ℤ, pos, ltb_ℤ, pos_part}
use esp_mqtt.Base.Bytes.{IsByte}
use esp_mqtt.Base.Text.{IsChar, c_string, c_string-text}

-- `isxdigit`
unfoldable pub is_xdigit : ℕ → Bool
is_xdigit c = (leb b'0' c && leb c b'9') || (leb b'a' c && leb c b'f') || (leb b'A' c && leb c b'F')

-- What `strtol` in base 16 makes of a digit.
unfoldable pub hex_value : ℕ → ℕ
hex_value c = if leb c b'9' then c - b'0' else if leb b'a' c then c - b'a' + 10 else c - b'A' + 10

abbrev cons_if_some : ℕ → Option (List ℕ) → Option (List ℕ)
cons_if_some c none = none
cons_if_some c (some rest) = some (c ∷ rest)

-- The loop over the `strlen(uri)` characters, behind which the terminator stands: the decoded
-- string, whose length is the answer; `none` is -1.
unfoldable pub decode_percent : List ℕ → Option (List ℕ)
decode_percent [] = some []
decode_percent (c ∷ []) = if c == b'%' then none else some (c ∷ [])
decode_percent (c ∷ d ∷ []) =
    let rest = decode_percent (d ∷ []) in if c == b'%' then none else cons_if_some c rest
decode_percent (c ∷ d ∷ e ∷ uri) =
    let behind = decode_percent uri in
    let rest = decode_percent (d ∷ e ∷ uri) in
    if c == b'%'
    then (if is_xdigit d && is_xdigit e
        then cons_if_some (hex_value d * 16 + hex_value e) behind
        else none)
    else cons_if_some c rest

unfoldable pub esp_mqtt_decode_percent_encoded_string : Option (List ℕ) → Option (List ℕ)
esp_mqtt_decode_percent_encoded_string none = none
esp_mqtt_decode_percent_encoded_string (some uri) = decode_percent (c_string uri)

-- `allocated` is the answer of `calloc`.
unfoldable pub mqtt_create_string : Bool → List ℕ → ℤ → Option (List ℕ)
mqtt_create_string allocated ptr len =
    if not (ltb_ℤ (pos 0) len) || not allocated then none else some (take (pos_part len) ptr)

-- Percent encoding, by a choice of which characters to escape besides `%` and of the digits' case.
abbrev pub digit : Bool → ℕ → ℕ
digit upper n = if ltb n 10 then b'0' + n else if upper then b'A' + n - 10 else b'a' + n - 10

unfoldable pub encode_percent : (ℕ → Bool) → Bool → List ℕ → List ℕ
encode_percent escape upper [] = []
encode_percent escape upper (c ∷ text) =
    let rest = encode_percent escape upper text in
    if escape c || (c == b'%')
    then b'%' ∷ digit upper (c / 16) ∷ digit upper (c % 16) ∷ rest
    else c ∷ rest

is_xdigit-digit : (upper : Bool) (n : ℕ) → n < 16 → is_xdigit (digit upper n) ≡ true
unfolding is_xdigit
is_xdigit-digit true n h = ground arith
is_xdigit-digit false n h = ground arith

hex_value-digit : (upper : Bool) (n : ℕ) → n < 16 → hex_value (digit upper n) ≡ n
unfolding hex_value
hex_value-digit true n h = ground arith
hex_value-digit false n h = ground arith

decode_escape :
    (d e : ℕ) (uri : List ℕ)
    → is_xdigit d ≡ true
    → is_xdigit e ≡ true
    → decode_percent (b'%' ∷ d ∷ e ∷ uri)
      ≡ cons_if_some (hex_value d * 16 + hex_value e) (decode_percent uri)
unfolding decode_percent
decode_escape d e uri h k = rw h (rw k refl)

decode_plain :
    (c : ℕ) (uri : List ℕ)
    → (c == b'%') ≡ false
    → decode_percent (c ∷ uri) ≡ cons_if_some c (decode_percent uri)
unfolding decode_percent
decode_plain c [] h = rw h refl
decode_plain c (d ∷ []) h = rw h refl
decode_plain c (d ∷ e ∷ uri) h = ground (arith, h)

or_right : (a b : Bool) → (a || b) ≡ false → b ≡ false
or_right true b h = absurd cc
or_right false b h = h

decode_byte :
    (upper : Bool) (c : ℕ) (uri text : List ℕ)
    → c < 256
    → decode_percent uri ≡ some text
    → decode_percent (b'%' ∷ digit upper (c / 16) ∷ digit upper (c % 16) ∷ uri) ≡ some (c ∷ text)
decode_byte upper c uri text h e =
    let high = hex_value-digit upper (c / 16) (omega arith) in
    let low = hex_value-digit upper (c % 16) (omega arith) in
    decode_escape _ _ uri (is_xdigit-digit upper (c / 16) (omega arith))
      (is_xdigit-digit upper (c % 16) (omega arith))
    ∙ ap (cons_if_some _) e
    ∙ ap (λ v. some (v ∷ text)) (omega (arith, high, low))

decode_empty : decode_percent [] ≡ some []
unfolding decode_percent
decode_empty = refl

decode-encode_text :
    (escape : ℕ → Bool) (upper : Bool) (text : List ℕ)
    → All IsByte text
    → decode_percent (encode_percent escape upper text) ≡ some text
unfolding encode_percent
decode-encode_text escape upper [] h = decode_empty
decode-encode_text escape upper (c ∷ text) (h, hs) =
    let rest = encode_percent escape upper text in
    let found = decode-encode_text escape upper text hs in
    if_cases (λ uri. decode_percent uri ≡ some (c ∷ text)) (escape c || (c == b'%'))
      (b'%' ∷ digit upper (c / 16) ∷ digit upper (c % 16) ∷ rest) (c ∷ rest)
      (λ _. decode_byte upper c rest text h found)
      (λ e. decode_plain c rest (or_right (escape c) (c == b'%') e) ∙ ap (cons_if_some c) found)

digit-IsChar : (upper : Bool) (n : ℕ) → IsChar (digit upper n)
digit-IsChar true n = ground arith
digit-IsChar false n = ground arith

or_left : (a b : Bool) → (a || b) ≡ false → a ≡ false
or_left true b h = absurd cc
or_left false b h = refl

-- A character that is not escaped is not the NUL.
plain-IsChar :
    (escape : ℕ → Bool) (c : ℕ) → escape 0 ≡ true → (escape c || (c == b'%')) ≡ false → IsChar c
plain-IsChar escape zero z e = let plain = or_left (escape 0) false e in absurd cc
plain-IsChar escape (suc c) z e = omega arith

-- When the NUL is escaped, an encoded text has none.
encode_percent-IsChar :
    (escape : ℕ → Bool) (upper : Bool) (text : List ℕ)
    → escape 0 ≡ true
    → All IsChar (encode_percent escape upper text)
unfolding encode_percent
encode_percent-IsChar escape upper [] z = tt
encode_percent-IsChar escape upper (c ∷ text) z =
    let ih = encode_percent-IsChar escape upper text z in
    if_cases (All IsChar) (escape c || (c == b'%')) _ _
      (λ _. (omega arith, (digit-IsChar upper (c / 16), (digit-IsChar upper (c % 16), ih))))
      (λ e. (plain-IsChar escape c z e, ih))

-- Decoding undoes percent encoding, whichever characters are escaped as long as the NUL is among
-- them, and with digits of either case: every text of bytes comes back, a NUL in it included.
pub decode-encode :
    (escape : ℕ → Bool) (upper : Bool) (text : List ℕ)
    → escape 0 ≡ true
    → All IsByte text
    → esp_mqtt_decode_percent_encoded_string (some (encode_percent escape upper text)) ≡ some text
unfolding esp_mqtt_decode_percent_encoded_string
decode-encode escape upper text z h =
    ap decode_percent
      (c_string-text (encode_percent escape upper text) (encode_percent-IsChar escape upper text z))
    ∙ decode-encode_text escape upper text h
