-- ===== src/Contract/Topic.antt =====
-- `emqtt_topic_valid` of runtime/emqtt_contract.c, against the rules of topic levels.
use esp_mqtt.Base.{
  ℕ, ◌≤◌, ◌<◌, ◌≡◌, ◌↔◌, sym, refl, ==_iff, ◌++◌, Bool, true, false, ◌&&◌, ◌||◌, not, Option, none,
  some, List, [], ◌∷◌, ltb, ◌==◌, if◌then◌else◌, take, arith,
}
use esp_mqtt.Contract.Utf8.{utf8}

abbrev pub topic_max : ℕ
topic_max = 256

-- `i > 0 && topic[i - 1] != '/'`
abbrev after_other : Option ℕ → Bool
after_other none = false
after_other (some c) = not (c == b'/')

-- `i + 1 < length && topic[i + 1] != '/'`
abbrev before_other : List ℕ → Bool
before_other [] = false
before_other (c ∷ rest) = not (c == b'/')

-- `i + 1 != length`
abbrev not_last : List ℕ → Bool
not_last [] = false
not_last (c ∷ rest) = true

-- The two tests of the loop's body, with the character before and the characters behind.
unfoldable pub char_refused : Bool → Option ℕ → ℕ → List ℕ → Bool
char_refused filter prev c rest =
    (c == b'#' && (not filter || not_last rest || after_other prev))
    || (c == b'+' && (not filter || after_other prev || before_other rest))

unfoldable pub topic_loop : Bool → Option ℕ → List ℕ → Bool
topic_loop filter prev [] = true
topic_loop filter prev (c ∷ rest) =
    let more = topic_loop filter (some c) rest in
    if char_refused filter prev c rest then false else more

-- `topic` is NULL or points to at least `len` characters.
unfoldable pub emqtt_topic_valid : Option (List ℕ) → ℕ → Bool → Bool
emqtt_topic_valid none len filter = false
emqtt_topic_valid (some text) len filter =
    let topic = take len text in
    if len == 0 || ltb topic_max len || not (utf8 topic)
    then false
    else topic_loop filter none topic

-- The level in front and the levels behind it: the parts between the slashes.
abbrev add_char : ℕ → List ℕ × List (List ℕ) → List ℕ × List (List ℕ)
add_char c (l, ls) = if c == b'/' then ([], l ∷ ls) else (c ∷ l, ls)

unfoldable pub split : List ℕ → List ℕ × List (List ℕ)
split [] = ([], [])
split (c ∷ rest) = add_char c (split rest)

abbrev is_char : ℕ → List ℕ → Bool
is_char c [] = false
is_char c (x ∷ []) = x == c
is_char c (x ∷ y ∷ rest) = false

abbrev pub has_no_wildcard : List ℕ → Bool
has_no_wildcard [] = true
has_no_wildcard (c ∷ rest) = not (c == b'#') && not (c == b'+') && has_no_wildcard rest

-- A level alone: `#` only in a filter and only as the last level, `+` only in a filter, and else no
-- wildcard character at all.
abbrev pub level_ok : Bool → Bool → List ℕ → Bool
level_ok filter last l =
    if is_char b'#' l then filter && last else if is_char b'+' l then filter else has_no_wildcard l

abbrev is_last : List (List ℕ) → Bool
is_last [] = true
is_last (l ∷ ls) = false

abbrev pub levels_ok : Bool → List ℕ → List (List ℕ) → Bool
levels_ok filter l [] = level_ok filter true l
levels_ok filter l (m ∷ ls) = level_ok filter false l && levels_ok filter m ls

-- The rest of a level that has begun.
abbrev begun_ok : Bool → List ℕ → List (List ℕ) → Bool
begun_ok filter l [] = has_no_wildcard l
begun_ok filter l (m ∷ ls) = has_no_wildcard l && levels_ok filter m ls

abbrev expected : Bool → Bool → List ℕ × List (List ℕ) → Bool
expected filter begun p = if begun then begun_ok filter p.0 p.1 else levels_ok filter p.0 p.1

-- One character, with the levels behind it given.
expected_inner :
    (filter : Bool) (prev : Option ℕ) (c d : ℕ) (rest l : List ℕ) (ls : List (List ℕ))
    → expected filter (after_other prev) (add_char c (add_char d (l, ls))) ≡ (
        if char_refused filter prev c (d ∷ rest)
        then false
        else expected filter (after_other (some c)) (add_char d (l, ls)))
unfolding char_refused
expected_inner filter none c d rest l [] = ground arith
expected_inner filter (some p) c d rest l [] = ground arith
expected_inner filter none c d rest l (m ∷ ls) = ground arith
expected_inner filter (some p) c d rest l (m ∷ ls) = ground arith

expected_end :
    (filter : Bool) (prev : Option ℕ) (c : ℕ)
    → expected filter (after_other prev) (add_char c ([], [])) ≡ (
        if char_refused filter prev c []
        then false
        else expected filter (after_other (some c)) ([], []))
unfolding char_refused
expected_end filter none c = ground arith
expected_end filter (some p) c = ground arith

topic_loop-expected :
    (filter : Bool) (prev : Option ℕ) (text : List ℕ)
    → topic_loop filter prev text ≡ expected filter (after_other prev) (split text)
unfolding topic_loop split
topic_loop-expected filter none [] = ground arith
topic_loop-expected filter (some p) [] = ground arith
topic_loop-expected filter prev (c ∷ []) =
    ground (arith, expected_end filter prev c, topic_loop-expected filter (some c) [])
topic_loop-expected filter prev (c ∷ d ∷ rest) = rw (
  topic_loop-expected filter (some c) (d ∷ rest),
  sym (expected_inner filter prev c d rest (split rest).0 (split rest).1),
)

-- The levels joined by slashes again.
unfoldable pub join : List ℕ → List (List ℕ) → List ℕ
join l [] = l
join l (m ∷ ls) = l ++ (b'/' ∷ join m ls)

-- `split` loses nothing.
pub join-split : (text : List ℕ) → join (split text).0 (split text).1 ≡ text
unfolding split join
join-split [] = refl
join-split (c ∷ rest) = join-add_char c (split rest).0 (split rest).1 rest (join-split rest)
  where
    join-add_char :
        (c : ℕ) (l : List ℕ) (ls : List (List ℕ)) (rest : List ℕ)
        → join l ls ≡ rest
        → join (add_char c (l, ls)).0 (add_char c (l, ls)).1 ≡ c ∷ rest
    join-add_char c l [] rest e = ground (arith, ==_iff c b'/')
    join-add_char c l (m ∷ ls) rest e = ground (arith, ==_iff c b'/')

-- `emqtt_topic_valid` accepts a text exactly when it has 1 to 256 bytes, passes `utf8`, and each of
-- its levels, the parts between the slashes, is allowed: `#` alone and last and only in a filter,
-- `+` alone and only in a filter, and otherwise any level without wildcard characters.
pub emqtt_topic_valid_iff :
    (text : List ℕ) (len : ℕ) (filter : Bool)
    → (emqtt_topic_valid (some text) len filter ≡ true) ↔ (
        (0 < len)
        × (len ≤ topic_max)
        × (utf8 (take len text) ≡ true)
        × (levels_ok filter (split (take len text)).0 (split (take len text)).1 ≡ true))
unfolding emqtt_topic_valid
emqtt_topic_valid_iff text len filter =
    ground (arith, topic_loop-expected filter none (take len text))
