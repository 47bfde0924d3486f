-- ===== src/Shadow/Json/Whole.antt =====
-- A document from its start to its client token.
use hornbill_examples.Common.{
  ℕ, ◌+◌, ◌≤◌, ◌<◌, List, [], ◌∷◌, ◌++◌, append_assoc, length, length-append, Option, some, codes,
  ◌≡◌, ap, ◌∙◌, arith,
}
use hornbill_examples.Errors.{ok}
use hornbill_examples.Shadow.Json.{
  room_left, Formats, JsonStruct, Printed, after, with_room, print_end, add_desired, add_reported,
  init_json_document, Tokens, next_token, token_text, token_behind, finalize_json_document,
}
use hornbill_examples.Shadow.Json.Built.{
  print_at-fits, print_end-fits, print_back-fits, has_room, room_left-fits, joined, PrintAll,
  section_text, add_section-fits,
}

init_json_document-fits :
    (max : ℕ) (old : List ℕ)
    → 10 < max
    → init_json_document max (some old) ≡ (ok tt, codes "{\"state\":{")
unfolding init_json_document
init_json_document-fits max old fits = print_at-fits max 0 max (codes "{\"state\":{") old fits fits

after_ok :
    (p : Printed) (f : List ℕ → Printed) (text : List ℕ) → p ≡ (ok tt, text) → after p f ≡ f text
after_ok p f text e = ap (λ r. after r f) e

module _ (formats : Formats) where
  abbrev pub token_end : Tokens → List ℕ
  token_end tokens = codes "}, \"clientToken\":\"" ++ (token_text formats tokens ++ codes "\"}")

  finalize_json_document-fits :
      (max a : ℕ) (tokens : Tokens) (document : List ℕ)
      → length document + length (token_end tokens) < max
      → finalize_json_document formats max tokens (some (document ++ (a ∷ [])))
        ≡ ((ok tt, document ++ token_end tokens), next_token tokens)
  unfolding finalize_json_document
  finalize_json_document-fits max a tokens document fits =
      let opening = codes "}, \"clientToken\":\"" in
      let token = token_text formats tokens in
      let c = length-append document (a ∷ []) in
      let d = length-append document opening in
      let e = length-append (document ++ opening) token in
      let t = length-append token (codes "\"}") in
      let r = room_left-fits max (document ++ (a ∷ [])) (omega (arith, fits, c, t)) in
      let r' = room_left-fits max (document ++ opening) (omega (arith, fits, d, t)) in
      let r'' = room_left-fits max (document ++ opening ++ token) (omega (arith, fits, d, e, t)) in
      ap (token_behind formats max tokens) (
        has_room max (document ++ (a ∷ [])) _ _ (omega (arith, fits, c, t))
        ∙ print_back-fits max (room_left max (document ++ (a ∷ []))) a opening document
            (omega (arith, fits, c, t, r)) (omega (arith, fits, t)))
      ∙ has_room max (document ++ opening) _ _ (omega (arith, fits, d, t, r'))
      ∙ ap (λ r. (r, next_token tokens))
          (ap (λ r. after r (with_room max (λ room'. print_end max room' (codes "\"}"))))
              (print_end-fits max (room_left max (document ++ opening)) token (document ++ opening)
                (omega (arith, fits, d, t, r')) (omega (arith, fits, d, t, r')))
            ∙ has_room max (document ++ opening ++ token) _ _ (omega (arith, fits, d, e, t, r''))
            ∙ print_end-fits max (room_left max (document ++ opening ++ token)) (codes "\"}")
                (document ++ opening ++ token) (omega (arith, fits, d, e, t, r''))
                (omega (arith, fits, d, e, t, r''))
            ∙ ap (λ text. (ok tt, text))
                (append_assoc (document ++ opening) token (codes "\"}")
                  ∙ append_assoc document opening (token ++ codes "\"}")))

  -- A document with both sections and its client token.
  abbrev pub document_text : List (List ℕ × List ℕ) → List (List ℕ × List ℕ) → Tokens → List ℕ
  document_text desired reported tokens =
      codes "{\"state\":{"
      ++ (section_text (codes "\"desired\":{") desired
          ++ (codes "\"reported\":{" ++ (joined reported ++ (codes "}" ++ token_end tokens))))

  -- The document that is started, filled with both sections and finished in one buffer.
  abbrev pub built :
      ℕ → List (Option JsonStruct) → List (Option JsonStruct) → Tokens → List ℕ → Printed
  built max desired reported tokens old = after (init_json_document max (some old)) (λ text.
      after (add_desired formats max (length desired) desired (some text)) (λ text'.
        after (add_reported formats max (length reported) reported (some text'))
          (λ text''. (finalize_json_document formats max tokens (some text'')).0)))

  commas :
      (start desired name reported brace comma : List ℕ)
      → start ++ desired ++ (name ++ (reported ++ (brace ++ comma)))
        ≡ start ++ (desired ++ (name ++ (reported ++ brace))) ++ comma
  commas start desired name reported brace comma = simp append_assoc

  ends :
      (start desired name reported brace token : List ℕ)
      → start ++ (desired ++ (name ++ (reported ++ brace))) ++ token
        ≡ start ++ (desired ++ (name ++ (reported ++ (brace ++ token))))
  ends start desired name reported brace token = simp append_assoc

  -- Both sections, of at most 127 arguments each, and the token are put together to the document,
  -- where every argument has a key and a printable value, no section is empty, and the document fits
  -- into the buffer with its NUL.
  pub built-document_text :
      (max : ℕ) (desired reported : List (Option JsonStruct)) (d r : List ℕ × List ℕ)
      (ds rs : List (List ℕ × List ℕ)) (tokens : Tokens) (old : List ℕ)
      → PrintAll formats desired (d ∷ ds)
      → PrintAll formats reported (r ∷ rs)
      → length desired ≤ 127
      → length reported ≤ 127
      → length (document_text (d ∷ ds) (r ∷ rs) tokens) < max
      → built max desired reported tokens old ≡ (ok tt, document_text (d ∷ ds) (r ∷ rs) tokens)
  unfolding add_desired add_reported
  built-document_text max desired reported d r ds rs tokens old p q few few' fits =
      let start = codes "{\"state\":{" in
      let name = codes "\"reported\":{" in
      let first = section_text (codes "\"desired\":{") (d ∷ ds) in
      let second = section_text name (r ∷ rs) in
      let body = start ++ (first ++ (name ++ (joined (r ∷ rs) ++ codes "}"))) in
      let c = length-append (joined (r ∷ rs)) (codes "},") in
      let b = length-append (joined (r ∷ rs)) (codes "}" ++ token_end tokens) in
      let f = length-append first (name ++ (joined (r ∷ rs) ++ (codes "}" ++ token_end tokens))) in
      let w = length-append body (token_end tokens) in
      let s = length-append start first in
      let e = ends start first name (joined (r ∷ rs)) (codes "}") (token_end tokens) in
      after_ok _ _ start (init_json_document-fits max old (omega (arith, fits, f)))
      ∙ after_ok _ _ (start ++ first) (
          add_section-fits formats max (codes "\"desired\":{") desired d ds start p few
            (omega (arith, fits, f)))
      ∙ after_ok _ _ (start ++ first ++ second) (
          add_section-fits formats max name reported r rs (start ++ first) q few'
            (omega (arith, fits, f, s, c, b)))
      ∙ ap (λ text. (finalize_json_document formats max tokens (some text)).0)
          (commas start first name (joined (r ∷ rs)) (codes "}") (codes ","))
      ∙ ap (λ t. t.0)
          (finalize_json_document-fits max 44 tokens body
            (omega (arith, fits, w, ap (λ text. length text) e)))
      ∙ ap (λ text. (ok tt, text)) e
