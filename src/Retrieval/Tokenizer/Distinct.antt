-- ===== src/Retrieval/Tokenizer/Distinct.antt =====
-- The tokens of a text (internal/retrieval/tokenizer/tokenizer.go, Tokenize).
use repolens.Base.{
  ℕ, ◌<◌, ◌≡◌, refl, false, ◌||◌, List, [], ◌∷◌, ◌++◌, arith, nat_eq, length, Bool-cases, inl, inr,
}
use repolens.Base.Text.{same_codes, to_lower, trim_space}
use repolens.Retrieval.Tokenizer.{
  has_token, add_token, add_both, add_all, add_parts, add_words, fields, separates_parts,
  separates_words, split_camel_case, tokenize,
}

-- No text stands in the list twice, and none is empty.
abbrev pub AreTokens : List (List ℕ) → Type 0
AreTokens [] = Unit
AreTokens (t ∷ ts) = (has_token t ts ≡ false) × (0 < length t) × AreTokens ts

same_codes_comm : (s t : List ℕ) → same_codes s t ≡ same_codes t s
unfolding same_codes
same_codes_comm [] [] = refl
same_codes_comm [] (b ∷ t) = refl
same_codes_comm (a ∷ s) [] = refl
same_codes_comm (a ∷ s) (b ∷ t) = ground (arith, same_codes_comm s t)

has_token-append :
    (u t : List ℕ) (ts : List (List ℕ))
    → has_token u ts ≡ false
    → same_codes t u ≡ false
    → has_token u (ts ++ t ∷ []) ≡ false
unfolding has_token
has_token-append u t [] h k = ground (arith, same_codes_comm t u)
has_token-append u t (v ∷ ts) h k = ground (arith, has_token-append u t ts)

append-AreTokens :
    (t : List ℕ) (ts : List (List ℕ))
    → has_token t ts ≡ false
    → 0 < length t
    → AreTokens ts
    → AreTokens (ts ++ t ∷ [])
unfolding has_token
append-AreTokens t [] h n a = (refl, n, tt)
append-AreTokens t (u ∷ us) h n a =
    (has_token-append u t us a.0 (ground arith), a.1, append-AreTokens t us (ground arith) n a.2)

add_token-AreTokens : (t : List ℕ) (ts : List (List ℕ)) → AreTokens ts → AreTokens (add_token t ts)
unfolding add_token
add_token-AreTokens t ts a =
    elim (Bool-cases (nat_eq (length (trim_space t)) 0 || has_token (trim_space t) ts)) [
      | inl skipped ↦ rw skipped a
      | inr new ↦ rw new (append-AreTokens (trim_space t) ts (ground arith) (ground arith) a)
    ]

add_both-AreTokens : (t : List ℕ) (ts : List (List ℕ)) → AreTokens ts → AreTokens (add_both t ts)
unfolding add_both
add_both-AreTokens t ts a =
    add_token-AreTokens (to_lower t) (add_token t ts) (add_token-AreTokens t ts a)

add_all-AreTokens : (ws ts : List (List ℕ)) → AreTokens ts → AreTokens (add_all ws ts)
unfolding add_all
add_all-AreTokens [] ts a = a
add_all-AreTokens (w ∷ ws) ts a = add_all-AreTokens ws (add_both w ts) (add_both-AreTokens w ts a)

add_parts-AreTokens : (ps ts : List (List ℕ)) → AreTokens ts → AreTokens (add_parts ps ts)
unfolding add_parts
add_parts-AreTokens [] ts a = a
add_parts-AreTokens (p ∷ ps) ts a =
    add_parts-AreTokens ps (add_all (split_camel_case p) (add_both p ts))
      (add_all-AreTokens (split_camel_case p) (add_both p ts) (add_both-AreTokens p ts a))

add_words-AreTokens : (ws ts : List (List ℕ)) → AreTokens ts → AreTokens (add_words ws ts)
unfolding add_words
add_words-AreTokens [] ts a = a
add_words-AreTokens (w ∷ ws) ts a =
    add_words-AreTokens ws (add_parts (fields separates_parts [] w) (add_both w ts)) (
      add_parts-AreTokens (fields separates_parts [] w) (add_both w ts) (add_both-AreTokens w ts a))

-- The tokens of any text are distinct, and none is empty.
pub tokenize-AreTokens : (text : List ℕ) → AreTokens (tokenize text)
unfolding tokenize
tokenize-AreTokens text = add_words-AreTokens (fields separates_words [] text) [] tt
