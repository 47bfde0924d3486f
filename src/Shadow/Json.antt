-- ===== src/Shadow/Json.antt =====
-- The documents that the shadow client builds in a buffer of bounded size:
-- arduino-esp32/AWS_IOT/src/aws_iot_shadow_json.c. A buffer is the text before its NUL, and a byte
-- that is written behind its size is a fault.
pub mod Built
pub mod Whole
pub mod Bounds
pub mod Overflow
use hornbill_examples.Common.{
  ℕ, zero, suc, ◌+◌, ◌-◌, ◌%◌, ◌^◌, ◌==◌, ltb, leb, if◌then◌else◌, Bool, List, [], ◌∷◌, ◌++◌,
  Option, none, some, length, take, codes,
}
use hornbill_examples.Errors.{
  Result, ok, err, fault, null_value_error, shadow_json_error, shadow_json_buffer_truncated,
}

-- What snprintf prints for a number: `%d` for the bits of a signed number of a width, `%u`, and `%f`
-- for the bits of a double and of a float.
pub record Formats : Type 0 where
  pub signed : ℕ → ℕ → List ℕ
  pub unsigned : ℕ → List ℕ
  pub of_double : ℕ → List ℕ
  pub of_float : ℕ → List ℕ

-- The type of a jsonStruct_t with what its pData points to: the bits of a number, or a text.
pub data JsonData : Type 0 where
  shadow_json_int32 shadow_json_int16 shadow_json_int8 : ℕ → JsonData
  shadow_json_uint32 shadow_json_uint16 shadow_json_uint8 : ℕ → JsonData
  shadow_json_float shadow_json_double : ℕ → JsonData
  shadow_json_bool : Bool → JsonData
  shadow_json_string : List ℕ → JsonData
  shadow_json_object : JsonData

-- jsonStruct_t, without the callback, which is for received documents.
pub record JsonStruct : Type 0 where
  pub key : Option (List ℕ)
  pub data_ : Option JsonData

-- A code with the text in the buffer.
abbrev pub Printed : Type 0
Printed = Result (Unit {0}) × List ℕ

-- `if(ret_val != SUCCESS) return ret_val;`
abbrev pub after : Printed → (List ℕ → Printed) → Printed
after (ok _, text) f = f text
after (err e, text) f = (err e, text)
after (fault, text) f = (fault, text)

abbrev pub on_document : (List ℕ → Printed) → Option (List ℕ) → Printed
on_document f none = (err null_value_error, [])
on_document f (some document) = f document

-- checkReturnValueOfSnPrintf, for a number of characters that is not negative.
unfoldable pub check_return_value_of_snprintf : ℕ → ℕ → Result (Unit {0})
check_return_value_of_snprintf printed room =
    if ltb printed room then ok tt else err shadow_json_buffer_truncated

-- snprintf(buffer + at, room, …) into a buffer of max bytes, with the check of its value.
unfoldable pub print_at : ℕ → ℕ → ℕ → List ℕ → List ℕ → Printed
print_at max at room text document =
    if room == 0
    then (err shadow_json_buffer_truncated, document)
    else (if ltb (at + length (take (room - 1) text)) max
        then (
          check_return_value_of_snprintf (length text) room,
          take at document ++ take (room - 1) text,
        )
        else (fault, document))

-- At the NUL of the document.
abbrev pub print_end : ℕ → ℕ → List ℕ → List ℕ → Printed
print_end max room text document = print_at max (length document) room text document

-- At the last character of the document; an empty one has none.
abbrev pub print_back : ℕ → ℕ → List ℕ → List ℕ → Printed
print_back max room text [] = (fault, [])
print_back max room text (a ∷ document) = print_at max (length document) room text (a ∷ document)

-- sprintf(buffer + strlen(buffer), …) into a buffer of max bytes.
abbrev pub print_all : ℕ → List ℕ → List ℕ → Printed
print_all max text document =
    if ltb (length document + length text) max then (ok tt, document ++ text) else (fault, document)

-- `maxSizeOfJsonDocument - strlen(pJsonDocument)`, which wraps as a size_t.
unfoldable pub room_left : ℕ → List ℕ → ℕ
room_left max document =
    if leb (length document) max then max - length document else (max + 2 ^ 32) - length document

abbrev pub with_room : ℕ → (ℕ → List ℕ → Printed) → List ℕ → Printed
with_room max f document =
    let room = room_left max document in
    if leb room 1 then (err shadow_json_error, document) else f room document

abbrev pub bool_text : Bool → List ℕ
bool_text b = if b then codes "true" else codes "false"

abbrev pub quoted : List ℕ → List ℕ
quoted text = codes "\"" ++ (text ++ codes "\"")

-- The counter is an int8_t and the count an uint8_t: a count above 127 is never reached.
abbrev pub passes : ℕ → List (Option JsonStruct) → ℕ
passes count fields = if leb count 127 then count else suc (length fields)

module _ (formats : Formats) where
  -- What convertDataToString prints in front of the comma, if it prints.
  unfoldable pub value_text : JsonData → Option (List ℕ)
  value_text (shadow_json_int32 n) = some (formats.signed 32 (n % 2 ^ 32))
  value_text (shadow_json_int16 n) = some (formats.signed 16 (n % 2 ^ 16))
  value_text (shadow_json_int8 n) = some (formats.signed 8 (n % 2 ^ 8))
  value_text (shadow_json_uint32 n) = some (formats.unsigned (n % 2 ^ 32))
  value_text (shadow_json_uint16 n) = some (formats.unsigned (n % 2 ^ 16))
  value_text (shadow_json_uint8 n) = some (formats.unsigned (n % 2 ^ 8))
  value_text (shadow_json_double n) = some (formats.of_double n)
  value_text (shadow_json_float n) = some (formats.of_float n)
  value_text (shadow_json_bool b) = some (bool_text b)
  value_text (shadow_json_string text) = some (quoted text)
  value_text shadow_json_object = none

  abbrev pub print_value : ℕ → ℕ → Option (List ℕ) → List ℕ → Printed
  print_value max room none document = (check_return_value_of_snprintf 0 room, document)
  print_value max room (some text) document = print_end max room (text ++ codes ",") document

  -- convertDataToString, at the end of the document.
  unfoldable pub convert_data_to_string : ℕ → ℕ → JsonData → List ℕ → Printed
  convert_data_to_string max room value document =
      if room == 0
      then (err shadow_json_error, document)
      else print_value max room (value_text value) document

  -- The print of the key; the "%s" of a key that is NULL has no meaning in C.
  abbrev pub write_key : ℕ → ℕ → Option (List ℕ) → List ℕ → Printed
  write_key max room none document = (fault, document)
  write_key max room (some key) document = print_end max room (quoted key ++ codes ":") document

  abbrev pub write_value : ℕ → ℕ → Option JsonData → List ℕ → Printed
  write_value max room none document = (err null_value_error, document)
  write_value max room (some value) document = convert_data_to_string max room value document

  -- One argument; the value is printed with the room that was left in front of the key.
  abbrev pub add_field : ℕ → Option JsonStruct → ℕ → List ℕ → Printed
  add_field max none room document = (err null_value_error, document)
  add_field max (some field) room document =
      after (write_key max room field.key document) (write_value max room field.data_)

  -- The loop over the arguments with what follows it, which uses the room of the last pass. Past the
  -- last argument va_arg has no meaning.
  unfoldable pub fields_loop : ℕ → ℕ → List (Option JsonStruct) → ℕ → List ℕ → Printed
  fields_loop max zero fields room document = print_back max room (codes "},") document
  fields_loop max (suc n) [] room document =
      with_room max (λ room' document'. (fault, document')) document
  fields_loop max (suc n) (field ∷ fields) room document =
      with_room max
        (λ room' document'.
          after (add_field max field room' document') (fields_loop max n fields room'))
        document

  abbrev pub add_section : List ℕ → ℕ → ℕ → List (Option JsonStruct) → Option (List ℕ) → Printed
  add_section name max count fields document =
      on_document
        (with_room max (λ room document'.
          after (print_end max room name document')
            (fields_loop max (passes count fields) fields room)))
        document

  -- aws_iot_shadow_add_desired
  unfoldable pub add_desired : ℕ → ℕ → List (Option JsonStruct) → Option (List ℕ) → Printed
  add_desired max count fields document =
      add_section (codes "\"desired\":{") max count fields document

  -- aws_iot_shadow_add_reported
  unfoldable pub add_reported : ℕ → ℕ → List (Option JsonStruct) → Option (List ℕ) → Printed
  add_reported max count fields document =
      add_section (codes "\"reported\":{") max count fields document

-- aws_iot_shadow_init_json_document
unfoldable pub init_json_document : ℕ → Option (List ℕ) → Printed
init_json_document max document =
    on_document (λ old. print_at max 0 max (codes "{\"state\":{") old) document

-- The text before the number of a client token and the number, clientTokenNum.
pub record Tokens : Type 0 where
  pub client_id : List ℕ
  pub client_token_num : ℕ

abbrev pub next_token : Tokens → Tokens
next_token tokens = record tokens { client_token_num = (tokens.client_token_num + 1) % 2 ^ 32 }

-- resetClientTokenSequenceNum
abbrev pub reset_client_token_sequence_num : Tokens → Tokens
reset_client_token_sequence_num tokens = record tokens { client_token_num = 0 }

abbrev pub max_size_client_token_client_sequence : ℕ
max_size_client_token_client_sequence = 110

module _ (formats : Formats) where
  -- "%s-%d"
  unfoldable pub token_text : Tokens → List ℕ
  token_text tokens = tokens.client_id ++ (codes "-" ++ formats.signed 32 tokens.client_token_num)

  -- aws_iot_fill_with_client_token, with FillWithClientTokenSize.
  unfoldable pub fill_with_client_token : ℕ → Tokens → List ℕ → Printed × Tokens
  fill_with_client_token max tokens buffer =
      (print_at max 0 max (token_text tokens) buffer, next_token tokens)

  -- emptyJsonWithClientToken, into the buffers of aws_iot_shadow_get and aws_iot_shadow_delete.
  unfoldable pub empty_json_with_client_token : Tokens → Printed × Tokens
  empty_json_with_client_token tokens =
      let max = max_size_client_token_client_sequence in
      (
        after
            (after (print_all max (codes "{\"clientToken\":\"") [])
              (print_all max (token_text tokens)))
            (print_all max (codes "\"}")),
        next_token tokens,
      )

  -- What follows the first print of aws_iot_finalize_json_document.
  abbrev pub token_behind : ℕ → Tokens → Printed → Printed × Tokens
  token_behind max tokens (ok _, document) =
      let room = room_left max document in
      if leb room 1 then ((err shadow_json_error, document), tokens) else (
        after (print_end max room (token_text tokens) document)
            (with_room max (λ room'. print_end max room' (codes "\"}"))),
        next_token tokens,
      )
  token_behind max tokens (err e, document) = ((err e, document), tokens)
  token_behind max tokens (fault, document) = ((fault, document), tokens)

  -- aws_iot_finalize_json_document
  unfoldable pub finalize_json_document : ℕ → Tokens → Option (List ℕ) → Printed × Tokens
  finalize_json_document max tokens document = token_behind max tokens (
      on_document (with_room max (λ room. print_back max room (codes "}, \"clientToken\":\"")))
        document)
