-- ===== src/Base/Text.antt =====
-- Strings in memory: a `char *` is the memory behind it, and the string ends in front of the first
-- NUL, or at the end of the list, behind which a NUL stands.
use esp_mqtt.Base.{ℕ, ◌<◌, ◌≡◌, refl, ap, ◌∙◌, List, [], ◌∷◌, ◌==◌, if◌then◌else◌, All, arith}

-- The characters that `strlen` counts.
unfoldable pub c_string : List ℕ → List ℕ
c_string [] = []
c_string (c ∷ cs) = let rest = c_string cs in if c == 0 then [] else c ∷ rest

-- A character of a string is not the terminator.
abbrev pub IsChar : ℕ → Type 0
IsChar c = 0 < c

c_string_more : (c : ℕ) (cs : List ℕ) → IsChar c → c_string (c ∷ cs) ≡ c ∷ c_string cs
unfolding c_string
c_string_more c cs h = ground arith

pub c_string-text : (text : List ℕ) → All IsChar text → c_string text ≡ text
unfolding c_string
c_string-text [] h = refl
c_string-text (c ∷ cs) (h, hs) = c_string_more c cs h ∙ ap (λ rest. c ∷ rest) (c_string-text cs hs)
