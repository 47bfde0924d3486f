-- ===== src/Examples/Documents.antt =====
-- The documents of the shadow client in concrete buffers.
use hornbill_examples.Common.{
  ℕ, ◌+◌, ◌≡◌, refl, arith, true, List, [], ◌∷◌, ◌++◌, Option, some, codes,
}
use hornbill_examples.Errors.{ok, fault}
use hornbill_examples.Shadow.Json.{
  Formats, JsonStruct, shadow_json_int32, shadow_json_bool, shadow_json_string,
  check_return_value_of_snprintf, print_at, value_text, fields_loop, quoted, add_field,
  add_reported, Tokens, room_left, token_text, empty_json_with_client_token,
}
use hornbill_examples.Shadow.Json.Whole.{built, document_text, built-document_text}
use hornbill_examples.Shadow.Json.Overflow.{add_field-overflows}
use hornbill_examples.Shadow.Json.Bounds.{empty_json_with_client_token_lem}

-- Numbers below ten.
abbrev digits : Formats
digits = record {
  signed = λ width n. (n + 48) ∷ [];
  unsigned = λ n. (n + 48) ∷ [];
  of_double = λ n. (n + 48) ∷ [];
  of_float = λ n. (n + 48) ∷ [];
}

abbrev tokens : Tokens
tokens = record { client_id = codes "hornbill"; client_token_num = 4 }

abbrev temperature : Option JsonStruct
temperature = some record { key = some (codes "t"); data_ = some (shadow_json_int32 7) }

abbrev window : Option JsonStruct
window = some record { key = some (codes "open"); data_ = some (shadow_json_bool true) }

-- The text as a reader sees it.
document_text_test :
    document_text digits
      ((codes "open", codes "true") ∷ [])
      ((codes "t", codes "7") ∷ (codes "open", codes "true") ∷ [])
      tokens
    ≡ codes
        "{\"state\":{\"desired\":{\"open\":true},\"reported\":{\"t\":7,\"open\":true}}, \"clientToken\":\"hornbill-4\"}"
unfolding token_text
document_text_test = refl

built-document_text_example :
    built digits 200 (window ∷ []) (temperature ∷ window ∷ []) tokens (codes "old") ≡ (
      ok tt,
      document_text digits
          ((codes "open", codes "true") ∷ [])
          ((codes "t", codes "7") ∷ (codes "open", codes "true") ∷ [])
          tokens,
    )
unfolding value_text token_text
built-document_text_example =
    built-document_text digits 200 (window ∷ []) (temperature ∷ window ∷ [])
      (codes "open", codes "true") (codes "t", codes "7") [] ((codes "open", codes "true") ∷ [])
      tokens (codes "old") ((shadow_json_bool true, refl, refl), tt)
      ((shadow_json_int32 7, refl, refl), ((shadow_json_bool true, refl, refl), tt)) (omega arith)
      (omega arith) (omega arith)

-- A section without arguments has no opening brace, so that the document is no JSON.
empty_section_test :
    add_reported digits 200 0 [] (some (codes "{\"state\":{"))
    ≡ (ok tt, codes "{\"state\":{\"reported\":},")
unfolding add_reported fields_loop print_at check_return_value_of_snprintf room_left
empty_section_test = refl

-- A text of 10 characters behind the key "note" in a buffer of 16 bytes.
abbrev note : List ℕ
note = codes "0123456789"

add_field-overflows_example :
    (add_field digits 16
      (some record { key = some (codes "note"); data_ = some (shadow_json_string note) })
      15
      (codes "{")).0
    ≡ fault
unfolding value_text
add_field-overflows_example =
    add_field-overflows digits 16 (codes "note") (quoted note) (shadow_json_string note) (codes "{")
      refl (omega arith) (omega arith) (omega arith)

empty_json_with_client_token_lem_example : empty_json_with_client_token digits tokens ≡ (
  (
    ok tt,
    codes "{\"clientToken\":\"" ++ (codes "hornbill" ++ (codes "-" ++ codes "4")) ++ codes "\"}",
  ),
  record tokens { client_token_num = 5 },
)
empty_json_with_client_token_lem_example =
    empty_json_with_client_token_lem digits tokens (omega arith) (omega arith)
