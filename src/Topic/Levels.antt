-- ===== src/Topic/Levels.antt =====
-- The matcher against the rule of MQTT on topic levels.
use hornbill_examples.Common.{
  ℕ, ◌≡◌, ◌≢◌, refl, ap, ◌∙◌, arith, ◌&&◌, Bool, true, false, List, [], ◌∷◌, ◌++◌, All, some,
  append-nil, same,
}
use hornbill_examples.Topic.{slash, plus, hash, skip_level, match_loop, is_topic_matched}

-- A topic filter by its levels: `#` stands last, `+` for a whole level, and any other level for
-- itself.
pub data Filter : Type 0 where
  any_rest : Filter
  any_last : Filter
  last_word : List ℕ → Filter
  any_then : Filter → Filter
  word_then : List ℕ → Filter → Filter

-- A topic name by its levels.
pub data Name : Type 0 where
  last_level : List ℕ → Name
  level_then : List ℕ → Name → Name

abbrev pub filter_text : Filter → List ℕ
filter_text any_rest = hash ∷ []
filter_text any_last = plus ∷ []
filter_text (last_word w) = w
filter_text (any_then f) = plus ∷ slash ∷ filter_text f
filter_text (word_then w f) = w ++ (slash ∷ filter_text f)

abbrev pub name_text : Name → List ℕ
name_text (last_level l) = l
name_text (level_then l n) = l ++ (slash ∷ name_text n)

abbrev pub nonempty : List ℕ → Bool
nonempty [] = false
nonempty (_ ∷ _) = true

-- `+` takes one level that is not empty, and `#` all levels from one that is not empty on.
abbrev pub matches : Filter → Name → Bool
matches any_rest (last_level l) = nonempty l
matches any_rest (level_then l n) = nonempty l
matches any_last (last_level l) = nonempty l
matches any_last (level_then l n) = false
matches (last_word w) (last_level l) = same w l
matches (last_word w) (level_then l n) = false
matches (any_then f) (last_level l) = false
matches (any_then f) (level_then l n) = nonempty l && matches f n
matches (word_then w f) (last_level l) = false
matches (word_then w f) (level_then l n) = same w l && matches f n

-- A character of a level, and of a level of a filter without wildcards.
abbrev pub IsLevelChar : ℕ → Type 0
IsLevelChar c = c ≢ slash

abbrev pub IsWordChar : ℕ → Type 0
IsWordChar c = (c ≢ slash) × (c ≢ plus) × (c ≢ hash)

abbrev pub IsFilter : Filter → Type 0
IsFilter any_rest = Unit
IsFilter any_last = Unit
IsFilter (last_word w) = All IsWordChar w
IsFilter (any_then f) = IsFilter f
IsFilter (word_then w f) = All IsWordChar w × IsFilter f

abbrev pub IsName : Name → Type 0
IsName (last_level l) = All IsLevelChar l
IsName (level_then l n) = All IsLevelChar l × IsName n

-- What stands behind a level: nothing, or a separator and more.
data Tail : List ℕ → Type 0 where
  ends : Tail []
  goes_on : (rest : List ℕ) → Tail (slash ∷ rest)

match_word :
    (w l filter name : List ℕ)
    → All IsWordChar w
    → All IsLevelChar l
    → Tail filter
    → Tail name
    → match_loop (w ++ filter) (l ++ name) ≡ (same w l && match_loop filter name)
unfolding match_loop
match_word [] [] filter name hw hl tf tn = refl
match_word [] (c ∷ l) [] name hw hl ends tn = refl
match_word [] (c ∷ l) (f ∷ filter) name hw hl (goes_on rest) tn = ground arith
match_word (x ∷ w) [] filter [] hw hl tf ends = refl
match_word (x ∷ w) [] filter (n ∷ name) hw hl tf (goes_on rest) = ground arith
match_word (x ∷ w) (c ∷ l) filter name hw hl tf tn =
    ground (arith, match_word w l filter name hw.1 hl.1 tf tn)

skip_level_lem : (l name : List ℕ) → All IsLevelChar l → Tail name → skip_level (l ++ name) ≡ name
unfolding skip_level
skip_level_lem [] [] hl ends = refl
skip_level_lem [] (n ∷ name) hl (goes_on rest) = refl
skip_level_lem (c ∷ l) name hl tn = ground (arith, skip_level_lem l name hl.1 tn)

match_plus :
    (l filter name : List ℕ)
    → All IsLevelChar l
    → Tail name
    → match_loop (plus ∷ filter) (l ++ name) ≡ (nonempty l && match_loop filter name)
unfolding match_loop
match_plus [] filter [] hl ends = refl
match_plus [] filter (n ∷ name) hl (goes_on rest) = refl
match_plus (c ∷ l) filter name hl tn = ground (arith, skip_level_lem l name hl.1 tn)

match_hash :
    (l name : List ℕ)
    → All IsLevelChar l
    → Tail name
    → match_loop (hash ∷ []) (l ++ name) ≡ nonempty l
unfolding match_loop
match_hash [] [] hl ends = refl
match_hash [] (n ∷ name) hl (goes_on rest) = refl
match_hash (c ∷ l) name hl tn = ground arith

and_true : (b : Bool) → (b && true) ≡ b
and_true true = refl
and_true false = refl

and_false : (b : Bool) → (b && false) ≡ false
and_false true = refl
and_false false = refl

match_both_end : match_loop [] [] ≡ true
unfolding match_loop
match_both_end = refl

match_filter_ends : (c : ℕ) (name : List ℕ) → match_loop [] (c ∷ name) ≡ false
unfolding match_loop
match_filter_ends c name = refl

match_name_ends : (c : ℕ) (filter : List ℕ) → match_loop (c ∷ filter) [] ≡ false
unfolding match_loop
match_name_ends c filter = refl

match_separator :
    (filter name : List ℕ) → match_loop (slash ∷ filter) (slash ∷ name) ≡ match_loop filter name
unfolding match_loop
match_separator filter name = refl

match_loop-matches :
    (f : Filter) (n : Name)
    → IsFilter f
    → IsName n
    → match_loop (filter_text f) (name_text n) ≡ matches f n
match_loop-matches any_rest (last_level l) hf hn =
    let e : l ++ [] ≡ l = append-nil l in rw e at (match_hash l [] hn ends)
match_loop-matches any_rest (level_then l n) hf hn =
    match_hash l (slash ∷ name_text n) hn.0 (goes_on (name_text n))
match_loop-matches any_last (last_level l) hf hn =
    let e : l ++ [] ≡ l = append-nil l in
    (rw e at (match_plus l [] [] hn ends))
    ∙ ap (λ b. nonempty l && b) match_both_end
    ∙ and_true (nonempty l)
match_loop-matches any_last (level_then l n) hf hn =
    match_plus l [] (slash ∷ name_text n) hn.0 (goes_on (name_text n))
    ∙ ap (λ b. nonempty l && b) (match_filter_ends slash (name_text n))
    ∙ and_false (nonempty l)
match_loop-matches (last_word w) (last_level l) hf hn =
    let e : l ++ [] ≡ l = append-nil l in
    let d : w ++ [] ≡ w = append-nil w in
    (rw (e, d) at (match_word w l [] [] hf hn ends ends))
    ∙ ap (λ b. same w l && b) match_both_end
    ∙ and_true (same w l)
match_loop-matches (last_word w) (level_then l n) hf hn =
    let d : w ++ [] ≡ w = append-nil w in
    (rw d at (match_word w l [] (slash ∷ name_text n) hf hn.0 ends (goes_on (name_text n))))
    ∙ ap (λ b. same w l && b) (match_filter_ends slash (name_text n))
    ∙ and_false (same w l)
match_loop-matches (any_then f) (last_level l) hf hn =
    let e : l ++ [] ≡ l = append-nil l in
    (rw e at (match_plus l (slash ∷ filter_text f) [] hn ends))
    ∙ ap (λ b. nonempty l && b) (match_name_ends slash (filter_text f))
    ∙ and_false (nonempty l)
match_loop-matches (any_then f) (level_then l n) hf hn =
    match_plus l (slash ∷ filter_text f) (slash ∷ name_text n) hn.0 (goes_on (name_text n))
    ∙ ap (λ b. nonempty l && b)
        (match_separator (filter_text f) (name_text n) ∙ match_loop-matches f n hf hn.1)
match_loop-matches (word_then w f) (last_level l) hf hn =
    let e : l ++ [] ≡ l = append-nil l in
    (rw e at (match_word w l (slash ∷ filter_text f) [] hf.0 hn (goes_on (filter_text f)) ends))
    ∙ ap (λ b. same w l && b) (match_name_ends slash (filter_text f))
    ∙ and_false (same w l)
match_loop-matches (word_then w f) (level_then l n) hf hn =
    match_word w l (slash ∷ filter_text f) (slash ∷ name_text n) hf.0 hn.0 (goes_on (filter_text f))
      (goes_on (name_text n))
    ∙ ap (λ b. same w l && b)
        (match_separator (filter_text f) (name_text n) ∙ match_loop-matches f n hf.1 hn.1)

-- For a filter and a name given by their levels, where no level holds a separator and no word of the
-- filter a wildcard: the matcher on their texts answers what the levels say. Each word equals the
-- level at its place, a `+` stands for one level that is not empty, and a last `#` for all levels
-- from one that is not empty on.
pub is_topic_matched-matches :
    (f : Filter) (n : Name)
    → IsFilter f
    → IsName n
    → is_topic_matched (some (filter_text f)) (some (name_text n)) ≡ matches f n
unfolding is_topic_matched
is_topic_matched-matches = match_loop-matches
