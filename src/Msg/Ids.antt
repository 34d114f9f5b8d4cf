-- ===== src/Msg/Ids.antt =====
-- The message ids that `append_message_id` of lib/mqtt_msg.c chooses.
use mathlib.Core.Path.{subst}
use esp_mqtt.Base.{
  ℕ, zero, suc, ◌+◌, ◌%◌, ◌<◌, ◌≡◌, Option, none, some, List, [], ◌∷◌, ◌==◌, if◌then◌else◌, arith,
}
use esp_mqtt.Msg.Types.{IdSource, incremental, random}
use esp_mqtt.Msg.Build.{next_id, count_up, draw}

-- What a choice promises: an id that is neither 0 nor wider than 16 bits.
abbrev IsId : Option (ℕ × IdSource) → Type 0
IsId none = Unit
IsId (some (id, ids)) = (0 < id) × (id < 65536)

count_up-IsId : (rounds last : ℕ) → IsId (count_up rounds last)
unfolding count_up
count_up-IsId zero last = tt
count_up-IsId (suc rounds) last = ground (arith, count_up-IsId rounds ((last + 1) % 65536))

draw-IsId : (answers : List ℕ) → IsId (draw answers)
unfolding draw
draw-IsId [] = tt
draw-IsId (answer ∷ answers) = ground (arith, draw-IsId answers)

-- An id is chosen: not 0 and within 16 bits, wherever ids come from.
pub next_id-bounds :
    (ids rest : IdSource) (id : ℕ) → next_id 0 ids ≡ some (id, rest) → (0 < id) × (id < 65536)
unfolding next_id
next_id-bounds (incremental last) rest id e = subst IsId e (count_up-IsId 2 last)
next_id-bounds (random answers) rest id e = subst IsId e (draw-IsId answers)

-- Counting always comes to an id: the next one, or 1 when the counter wraps.
pub next_id-incremental :
    (last : ℕ)
    → last < 65536
    → next_id 0 (incremental last)
      ≡ (let next = if last == 65535 then 1 else last + 1 in some (next, incremental next))
unfolding next_id count_up
next_id-incremental last h = ground arith
