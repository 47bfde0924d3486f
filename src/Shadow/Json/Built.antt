-- ===== src/Shadow/Json/Built.antt =====
-- The text of a document that fits into its buffer.
use hornbill_examples.Common.{
  ℕ, suc, ◌+◌, ◌-◌, ◌^◌, ◌≤◌, ◌<◌, false, leb, lt→ltb, leb_of_le, leb-false, ◌==◌, if◌then◌else◌,
  List, [], ◌∷◌, ◌++◌, append_assoc, length, length-append, take, take_all, take-append,
  take-length, Option, some, codes, ◌≡◌, refl, sym, ap, ◌∙◌, arith,
}
use hornbill_examples.Errors.{ok}
use hornbill_examples.Shadow.Json.{
  room_left, Formats, JsonData, JsonStruct, after, check_return_value_of_snprintf, print_at,
  print_end, print_back, passes, quoted, value_text, convert_data_to_string, add_field, fields_loop,
  add_section,
}

pub print_at-fits :
    (max at room : ℕ) (text document : List ℕ)
    → length text < room
    → at + length text < max
    → print_at max at room text document ≡ (ok tt, take at document ++ text)
unfolding print_at check_return_value_of_snprintf
print_at-fits max at room text document lt fits =
    let whole = take_all (room - 1) text (omega arith) in
    let nonzero : (room == 0) ≡ false = ground (arith, lt) in
    let inside = lt→ltb (at + length text) max fits in
    let printed = lt→ltb (length text) room lt in rw (nonzero, whole, inside, printed) refl

pub print_end-fits :
    (max room : ℕ) (text document : List ℕ)
    → length text < room
    → length document + length text < max
    → print_end max room text document ≡ (ok tt, document ++ text)
print_end-fits max room text document lt fits =
    print_at-fits max (length document) room text document lt fits
    ∙ ap (λ d. (ok tt, d ++ text)) (take-length document)

-- The last character of the document is overwritten.
pub print_back-fits :
    (max room a : ℕ) (text document : List ℕ)
    → length text < room
    → length document + length text < max
    → print_back max room text (document ++ (a ∷ [])) ≡ (ok tt, document ++ text)
print_back-fits max room a text [] lt fits = print_at-fits max 0 room text (a ∷ []) lt fits
print_back-fits max room a text (b ∷ document) lt fits =
    let e : length (document ++ (a ∷ [])) ≡ length document + 1 = length-append document (a ∷ []) in
    ap (λ n. print_at max n room text (b ∷ document ++ (a ∷ []))) (e ∙ omega arith)
    ∙ print_at-fits max (length (b ∷ document)) room text (b ∷ document ++ (a ∷ [])) lt fits
    ∙ ap (λ d. (ok tt, d ++ text)) (take-append (b ∷ document) (a ∷ []))

pub room_left-fits :
    (max : ℕ) (document : List ℕ)
    → length document ≤ max
    → room_left max document ≡ max - length document
unfolding room_left
room_left-fits max document le =
    ap (λ b. if b then max - length document else (max + 2 ^ 32) - length document)
      (leb_of_le (length document) max le)

pub has_room {ℓ} :
    {A : Type ℓ} (max : ℕ) (document : List ℕ) (e t : A)
    → length document + 1 < max
    → (if leb (room_left max document) 1 then e else t) ≡ t
has_room max document e t lt =
    let r = room_left-fits max document (omega (arith, lt)) in
    ap (λ b. if b then e else t) (leb-false (room_left max document) 1 (omega (arith, lt, r)))

-- A key with the text of its value.
abbrev pub member : List ℕ × List ℕ → List ℕ
member (key, value) = quoted key ++ (codes ":" ++ value)

-- Members with commas between them.
abbrev pub joined : List (List ℕ × List ℕ) → List ℕ
joined [] = []
joined (m ∷ []) = member m
joined (m ∷ n ∷ members) = member m ++ (codes "," ++ joined (n ∷ members))

-- A section of a document with its name.
abbrev pub section_text : List ℕ → List (List ℕ × List ℕ) → List ℕ
section_text name members = name ++ (joined members ++ codes "},")

regroup :
    (document key colon value comma : List ℕ)
    → document ++ (key ++ colon) ++ (value ++ comma)
      ≡ document ++ (key ++ (colon ++ value) ++ comma)
regroup document key colon value comma = simp append_assoc

module _ (formats : Formats) where
  -- An argument with a key and with a value that is printed as a text.
  abbrev pub Prints : Option JsonStruct → List ℕ × List ℕ → Type 0
  Prints field (key, text) =
      (value : JsonData) × (field ≡ some record { key = some key; data_ = some value })
      × (value_text formats value ≡ some text)

  abbrev pub PrintAll : List (Option JsonStruct) → List (List ℕ × List ℕ) → Type 0
  PrintAll [] [] = Unit {0}
  PrintAll (field ∷ fields) (m ∷ members) = Prints field m × PrintAll fields members
  PrintAll _ _ = ⊥

  pub PrintAll-length :
      (fields : List (Option JsonStruct)) (members : List (List ℕ × List ℕ))
      → PrintAll fields members
      → length fields ≡ length members
  PrintAll-length [] [] prints = refl
  PrintAll-length [] (m ∷ members) prints = absurd prints
  PrintAll-length (field ∷ fields) [] prints = absurd prints
  PrintAll-length (field ∷ fields) (m ∷ members) (p, prints) =
      ap suc (PrintAll-length fields members prints)

  add_field-fits :
      (max room : ℕ) (field : Option JsonStruct) (m : List ℕ × List ℕ) (document : List ℕ)
      → Prints field m
      → length (member m) + 1 < room
      → length document + (length (member m) + 1) < max
      → add_field formats max field room document ≡ (ok tt, document ++ (member m ++ codes ","))
  unfolding convert_data_to_string
  add_field-fits max room field (key, text) document (value, e, v) lt fits =
      let nonzero : (room == 0) ≡ false = ground (arith, lt) in
      let k = length-append (quoted key) (codes ":") in
      let m = length-append (quoted key) (codes ":" ++ text) in
      let t = length-append text (codes ",") in
      let d = length-append document (quoted key ++ codes ":") in
      let keyed =
        print_end-fits max room (quoted key ++ codes ":") document (omega (arith, lt, k, m))
          (omega (arith, fits, k, m)) in
      rw (e, keyed, nonzero, v)
        (print_end-fits max room (text ++ codes ",") (document ++ (quoted key ++ codes ":"))
            (omega (arith, lt, m, t)) (omega (arith, fits, k, m, t, d))
          ∙ ap (λ text'. (ok tt, text'))
              (regroup document (quoted key) (codes ":") text (codes ",")))

  fields_loop-fits :
      (max room : ℕ) (fields : List (Option JsonStruct)) (m : List ℕ × List ℕ)
      (members : List (List ℕ × List ℕ)) (document : List ℕ)
      → PrintAll fields (m ∷ members)
      → length document + (length (joined (m ∷ members)) + 2) < max
      → fields_loop formats max (length (m ∷ members)) fields room document
        ≡ (ok tt, document ++ (joined (m ∷ members) ++ codes "},"))
  unfolding fields_loop
  fields_loop-fits max room [] m members document prints fits = absurd prints
  fields_loop-fits max room (field ∷ fields) m [] document (prints, rest) fits =
      let room' = room_left max document in
      let r = room_left-fits max document (omega (arith, fits)) in
      has_room max document _ _ (omega (arith, fits, r))
      ∙ ap (λ r. after r (fields_loop formats max 0 fields room'))
          (add_field-fits max room' field m document prints (omega (arith, fits, r))
            (omega (arith, fits, r)))
      ∙ ap (print_back max room' (codes "},")) (sym (append_assoc document (member m) (codes ",")))
      ∙ print_back-fits max room' 44 (codes "},") (document ++ member m) (omega (arith, fits, r))
          (omega (arith, fits, r, length-append document (member m)))
      ∙ ap (λ text. (ok tt, text)) (append_assoc document (member m) (codes "},"))
  fields_loop-fits max room (field ∷ fields) m (n ∷ members) document (prints, rest) fits =
      let room' = room_left max document in
      let r = room_left-fits max document (omega (arith, fits)) in
      let j = length-append (member m) (codes "," ++ joined (n ∷ members)) in
      let c = length-append (member m) (codes ",") in
      let d = length-append document (member m ++ codes ",") in
      has_room max document _ _ (omega (arith, fits, r))
      ∙ ap (λ r. after r (fields_loop formats max (length (n ∷ members)) fields room'))
          (add_field-fits max room' field m document prints (omega (arith, fits, r, j))
            (omega (arith, fits, r, j)))
      ∙ fields_loop-fits max room' fields n members (document ++ (member m ++ codes ",")) rest
          (omega (arith, fits, r, j, c, d))
      ∙ ap (λ text. (ok tt, text))
          (regroup document (member m) (codes ",") (joined (n ∷ members)) (codes "},"))

  pub add_section-fits :
      (max : ℕ) (name : List ℕ) (fields : List (Option JsonStruct)) (m : List ℕ × List ℕ)
      (members : List (List ℕ × List ℕ)) (document : List ℕ)
      → PrintAll fields (m ∷ members)
      → length fields ≤ 127
      → length document + length (section_text name (m ∷ members)) < max
      → add_section formats name max (length fields) fields (some document)
        ≡ (ok tt, document ++ section_text name (m ∷ members))
  add_section-fits max name fields m members document prints few fits =
      let room = room_left max document in
      let s = length-append name (joined (m ∷ members) ++ codes "},") in
      let j = length-append (joined (m ∷ members)) (codes "},") in
      let d = length-append document name in
      let r = room_left-fits max document (omega (arith, fits, s, j)) in
      has_room max document _ _ (omega (arith, fits, r, s, j))
      ∙ ap (λ r. after r (fields_loop formats max (passes (length fields) fields) fields room))
          (print_end-fits max room name document (omega (arith, fits, r, s, j))
            (omega (arith, fits, r, s, j)))
      ∙ ap (λ n. fields_loop formats max n fields room (document ++ name))
          (ap (λ b. if b then length fields else suc (length fields))
              (leb_of_le (length fields) 127 few)
            ∙ PrintAll-length fields (m ∷ members) prints)
      ∙ fields_loop-fits max room fields m members (document ++ name) prints
          (omega (arith, fits, r, s, j, d))
      ∙ ap (λ text. (ok tt, text)) (append_assoc document name (joined (m ∷ members) ++ codes "},"))
