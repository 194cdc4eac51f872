-- ===== src/Retrieval/Tokenizer.antt =====
-- internal/retrieval/tokenizer/tokenizer.go, on texts of ASCII codes.
pub mod Camel
pub mod Distinct
use repolens.Base.{
  ℕ, zero, suc, ◌+◌, ◌-◌, Bool, true, false, not, ◌&&◌, ◌||◌, List, [], ◌∷◌, ◌++◌, ltb, leb, nat_eq,
  nat_key, length, take, drop, if◌then◌else◌,
}
use repolens.Base.Text.{codes, same_codes, to_lower, trim_space}

abbrev pub is_upper : ℕ → Bool
is_upper c = leb 65 c && leb c 90

abbrev pub is_lower : ℕ → Bool
is_lower c = leb 97 c && leb c 122

abbrev pub is_digit : ℕ → Bool
is_digit c = leb 48 c && leb c 57

-- runes[i], and 0 behind the end.
abbrev pub rune_at : List ℕ → ℕ → ℕ
rune_at [] i = 0
rune_at (c ∷ s) zero = c
rune_at (c ∷ s) (suc i) = rune_at s i

-- runes[a:b]
abbrev pub slice : ℕ → ℕ → List ℕ → List ℕ
slice a b s = take (b - a) (drop a s)

-- "fooBar" at B: from a lower case letter or a digit to an upper case letter.
unfoldable pub starts_word : ℕ → List ℕ → Bool
starts_word i s =
    ltb 0 i
    && is_upper (rune_at s i)
    && (is_lower (rune_at s (i - 1)) || is_digit (rune_at s (i - 1)))

-- "HTTPServer" at e: behind the first letter of a word that follows an acronym.
unfoldable pub ends_acronym : ℕ → List ℕ → Bool
ends_acronym i s =
    ltb 1 i
    && is_upper (rune_at s (i - 1))
    && is_lower (rune_at s i)
    && is_upper (rune_at s (i - 2))

-- The loop of splitCamelCase from `i` on, for the runes that are left, and what follows it.
unfoldable pub camel_loop : ℕ → ℕ → ℕ → List ℕ → List (List ℕ)
unfolding starts_word ends_acronym
camel_loop zero i start s = if ltb start (length s) then drop start s ∷ [] else []
camel_loop (suc left) i start s =
    let word = starts_word i s in
    let start1 = (if word then i else start) in
    let acronym = ends_acronym i s in
    let start2 = (if acronym then i - 1 else start1) in
    (if word then slice start i s ∷ [] else [])
    ++ (if acronym then slice start1 (i - 1) s ∷ [] else [])
    ++ camel_loop left (i + 1) start2 s

unfoldable pub split_camel_case : List ℕ → List (List ℕ)
unfolding camel_loop
split_camel_case s = camel_loop (length s) 0 0 s

-- strings.FieldsFunc: the runs of codes that do not separate.
unfoldable pub fields : (ℕ → Bool) → List ℕ → List ℕ → List (List ℕ)
fields sep [] [] = []
fields sep (c ∷ run) [] = (c ∷ run) ∷ []
fields sep [] (c ∷ s) = if sep c then fields sep [] s else fields sep (c ∷ []) s
fields sep (d ∷ run) (c ∷ s) =
    if sep c then (d ∷ run) ∷ fields sep [] s else fields sep ((d ∷ run) ++ c ∷ []) s

abbrev pub separates_words : ℕ → Bool
separates_words c =
    not (is_upper c || is_lower c || is_digit c)
    && not (nat_eq c 95 || nat_eq c 46 || nat_eq c 58 || nat_eq c 47 || nat_eq c 45)

abbrev pub separates_parts : ℕ → Bool
separates_parts c = nat_eq c 46 || nat_eq c 58 || nat_eq c 47 || nat_eq c 45 || nat_eq c 95

unfoldable pub has_token : List ℕ → List (List ℕ) → Bool
unfolding same_codes
has_token t [] = false
has_token t (u ∷ us) = same_codes t u || has_token t us

-- addToken, on the tokens in their order; `seen` holds the same texts.
unfoldable pub add_token : List ℕ → List (List ℕ) → List (List ℕ)
unfolding has_token trim_space
add_token t tokens =
    let trimmed = trim_space t in
    if nat_eq (length trimmed) 0 || has_token trimmed tokens then tokens else tokens ++ trimmed ∷ []

-- A text and its lower case form.
unfoldable pub add_both : List ℕ → List (List ℕ) → List (List ℕ)
unfolding add_token to_lower
add_both t tokens = add_token (to_lower t) (add_token t tokens)

unfoldable pub add_all : List (List ℕ) → List (List ℕ) → List (List ℕ)
unfolding add_both
add_all [] tokens = tokens
add_all (t ∷ ts) tokens = add_all ts (add_both t tokens)

unfoldable pub add_parts : List (List ℕ) → List (List ℕ) → List (List ℕ)
unfolding add_both add_all split_camel_case
add_parts [] tokens = tokens
add_parts (p ∷ ps) tokens = add_parts ps (add_all (split_camel_case p) (add_both p tokens))

unfoldable pub add_words : List (List ℕ) → List (List ℕ) → List (List ℕ)
unfolding add_both add_parts fields
add_words [] tokens = tokens
add_words (w ∷ ws) tokens =
    add_words ws (add_parts (fields separates_parts [] w) (add_both w tokens))

unfoldable pub tokenize : List ℕ → List (List ℕ)
unfolding add_words fields
tokenize text = add_words (fields separates_words [] text) []
