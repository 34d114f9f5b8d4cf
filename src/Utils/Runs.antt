-- ===== src/Utils/Runs.antt =====
-- Runs of the percent decoder.
use esp_mqtt.Base.{◌≡◌, refl, true, none, some, [], ◌∷◌, ltb, arith}
use esp_mqtt.Base.Text.{c_string}
use esp_mqtt.Utils.Percent.{
  decode_percent, esp_mqtt_decode_percent_encoded_string, encode_percent, is_xdigit, hex_value,
  decode-encode,
}

decode_run :
    esp_mqtt_decode_percent_encoded_string (some (b'a' ∷ b'%' ∷ b'4' ∷ b'0' ∷ []))
    ≡ some (b'a' ∷ b'@' ∷ [])
unfolding esp_mqtt_decode_percent_encoded_string decode_percent is_xdigit hex_value c_string
decode_run = refl

cut_run : esp_mqtt_decode_percent_encoded_string (some (b'a' ∷ b'%' ∷ b'4' ∷ [])) ≡ none
unfolding esp_mqtt_decode_percent_encoded_string decode_percent c_string
cut_run = refl

decode-encode_example :
    esp_mqtt_decode_percent_encoded_string
      (some (encode_percent (λ c. ltb c b'A') true (b'p' ∷ 0 ∷ b'@' ∷ b'%' ∷ [])))
    ≡ some (b'p' ∷ 0 ∷ b'@' ∷ b'%' ∷ [])
decode-encode_example =
    decode-encode (λ c. ltb c b'A') true (b'p' ∷ 0 ∷ b'@' ∷ b'%' ∷ []) refl
      (omega arith, (omega arith, (omega arith, (omega arith, tt))))

-- The string ends at a NUL.
nul_run : esp_mqtt_decode_percent_encoded_string (some (b'a' ∷ 0 ∷ b'%' ∷ [])) ≡ some (b'a' ∷ [])
unfolding esp_mqtt_decode_percent_encoded_string decode_percent c_string
nul_run = refl
