-- ===== src/Topic.antt =====
-- Matching a topic name against a topic filter: _aws_iot_mqtt_internal_is_topic_matched of
-- arduino-esp32/AWS_IOT/src/aws_iot_mqtt_client_common_internal.c.
-- The filter is a C string, so its characters up to the NUL; the name is its topicNameLen characters.
pub mod Levels
use hornbill_examples.Common.{
  ℕ, ◌==◌, ◌!=◌, if◌then◌else◌, ◌&&◌, Bool, true, false, List, [], ◌∷◌, Option, none, some,
}

abbrev pub slash : ℕ
slash = b'/'

abbrev pub plus : ℕ
plus = b'+'

abbrev pub hash : ℕ
hash = b'#'

-- `while(nextpos < curn_end && *nextpos != '/') nextpos = ++curn + 1;` and the `curn++` after it,
-- from the character behind `curn` on: what is left of the name.
unfoldable pub skip_level : List ℕ → List ℕ
skip_level [] = []
skip_level (n ∷ name) = let rest = skip_level name in if n == slash then n ∷ name else rest

-- The `while(*curf && (curn < curn_end))` loop, from `curf` and `curn` on, with the test after it:
-- both strings must be used up. A `break` leaves `curn` before the end.
unfoldable pub match_loop : List ℕ → List ℕ → Bool
match_loop [] [] = true
match_loop [] (n ∷ name) = false
match_loop (f ∷ filter) [] = false
match_loop (f ∷ filter) (n ∷ name) =
    let behind_plus = match_loop filter (skip_level name) in
    let behind_hash = match_loop filter [] in
    let behind_char = match_loop filter name in
    if n == slash && f != slash
    then false
    else (if f != plus && (f != hash && f != n)
        then false
        else (if f == plus then behind_plus else (if f == hash then behind_hash else behind_char)))

-- NULL arguments give NULL_VALUE_ERROR, which as a char is not 0, so that the caller takes it for a
-- match.
unfoldable pub is_topic_matched : Option (List ℕ) → Option (List ℕ) → Bool
is_topic_matched (some topic_filter) (some topic_name) = match_loop topic_filter topic_name
is_topic_matched (some topic_filter) none = true
is_topic_matched none topic_name = true
