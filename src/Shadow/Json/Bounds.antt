-- ===== src/Shadow/Json/Bounds.antt =====
-- The requests of a shadow get and delete in their buffers.
use hornbill_examples.Common.{
  ◌+◌, ◌%◌, ◌^◌, ◌≤◌, ◌<◌, lt→ltb, ◌++◌, length, length-append, codes, ◌≡◌, refl, arith,
}
use hornbill_examples.Errors.{ok}
use hornbill_examples.Shadow.Json.{Formats, Tokens, token_text, empty_json_with_client_token}

module _ (formats : Formats) where
  -- The request of a shadow get or delete is written whole into its buffer of 110 bytes, where the
  -- client id is shorter than its own buffer of 80 bytes and the number is printed with at most 11
  -- characters, and the number of the next request is one more, modulo 2 ^ 32.
  pub empty_json_with_client_token_lem :
      (tokens : Tokens)
      → length tokens.client_id < 80
      → length (formats.signed 32 tokens.client_token_num) ≤ 11
      → empty_json_with_client_token formats tokens ≡ (
        (
          ok tt,
          codes "{\"clientToken\":\""
              ++ (tokens.client_id ++ (codes "-" ++ formats.signed 32 tokens.client_token_num))
              ++ codes "\"}",
        ),
        record tokens { client_token_num = (tokens.client_token_num + 1) % 2 ^ 32 },
      )
  unfolding empty_json_with_client_token token_text
  empty_json_with_client_token_lem tokens lt le =
      let number = formats.signed 32 tokens.client_token_num in
      let opening = codes "{\"clientToken\":\"" in
      let token = tokens.client_id ++ (codes "-" ++ number) in
      let t = length-append tokens.client_id (codes "-" ++ number) in
      let e = length-append opening token in
      let inside = lt→ltb (length opening + length token) 110 (omega (arith, t)) in
      let ends = lt→ltb (length (opening ++ token) + 2) 110 (omega (arith, t, e)) in
      rw (inside, ends) refl
