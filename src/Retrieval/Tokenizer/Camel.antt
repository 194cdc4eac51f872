-- ===== src/Retrieval/Tokenizer/Camel.antt =====
-- The parts of a camel case word put together are the word
-- (internal/retrieval/tokenizer/tokenizer.go, splitCamelCase).
use repolens.Base.{
  ℕ, zero, suc, ◌+◌, ◌-◌, ◌≤◌, ◌<◌, ◌≡◌, sym, ap, ◌∙◌, true, false, List, [], ◌∷◌, ◌++◌, arith, ltb,
  length, drop, All, drop-all, drop-drop, take-append-drop, append-nil, length-drop, length-take,
  Bool-cases, inl, inr, not_both,
}
use native.Mathlib.Decide.{dec_lt}
use repolens.Retrieval.Tokenizer.{
  is_upper, rune_at, slice, starts_word, ends_acronym, camel_loop, split_camel_case,
}

abbrev pub concat : List (List ℕ) → List ℕ
concat [] = []
concat (p ∷ ps) = p ++ concat ps

slice-append-drop : (a b : ℕ) (s : List ℕ) → a ≤ b → slice a b s ++ drop b s ≡ drop a s
slice-append-drop a b s h =
    let e : b ≡ a + (b - a) = omega arith in
    ap (λ (n : ℕ). slice a b s ++ drop n s) e
    ∙ rw (← drop-drop (b - a) a s) (take-append-drop (b - a) (drop a s))

word_or_acronym : (i : ℕ) (s : List ℕ) → starts_word i s ≡ true → ends_acronym i s ≡ false
unfolding starts_word ends_acronym
word_or_acronym i s h = ground arith

word_inside : (i : ℕ) (s : List ℕ) → starts_word i s ≡ true → 0 < i
unfolding starts_word
word_inside i s h = ground arith

loop_concat :
    (left i start : ℕ) (s : List ℕ)
    → i + left ≡ length s
    → start ≤ i - 1
    → concat (camel_loop left i start s) ≡ drop start s
unfolding camel_loop
loop_concat zero i start s e h = elim (Bool-cases (ltb start (length s))) [
  | inl some_left ↦ rw some_left (append-nil (drop start s))
  | inr none_left ↦ rw none_left (sym (drop-all start s (ground arith)))
]
loop_concat (suc left) i start s e h = elim (Bool-cases (starts_word i s)) [
  | inl word ↦
      let positive = word_inside i s word in
      rw (word, word_or_acronym i s word)
        (ap (λ t. slice start i s ++ t) (loop_concat left (i + 1) i s (omega arith) (omega arith))
          ∙ slice-append-drop start i s (omega arith))
  | inr same ↦ elim (Bool-cases (ends_acronym i s)) [
    | inl acronym ↦
        rw (same, acronym)
          (ap (λ t. slice start (i - 1) s ++ t)
              (loop_concat left (i + 1) (i - 1) s (omega arith) (omega arith))
            ∙ slice-append-drop start (i - 1) s h)
    | inr inside ↦ rw (same, inside) (loop_concat left (i + 1) start s (omega arith) (omega arith))
  ]
]

length-slice : (a b : ℕ) (s : List ℕ) → a < b → b ≤ length s → 0 < length (slice a b s)
length-slice a b s h k = omega (arith, length-take (b - a) (drop a s), length-drop a s)

-- Where a part begins right before the current rune, the rune before that is no capital.
abbrev IsApart : ℕ → ℕ → List ℕ → Type 0
IsApart i start s = start ≡ i - 1 → 1 < i → is_upper (rune_at s (i - 2)) ≡ false

word-IsApart : (i : ℕ) (s : List ℕ) → starts_word i s ≡ true → is_upper (rune_at s (i - 1)) ≡ false
unfolding starts_word
word-IsApart i s h = ground arith

acronym_capital :
    (i : ℕ) (s : List ℕ) → ends_acronym i s ≡ true → (1 < i) × (is_upper (rune_at s (i - 2)) ≡ true)
unfolding ends_acronym
acronym_capital i s h = ground arith

part_before :
    (i start : ℕ) (s : List ℕ)
    → start ≤ i - 1
    → IsApart i start s
    → 1 < i
    → is_upper (rune_at s (i - 2)) ≡ true
    → start < i - 1
part_before i start s h apart far capital = elim (dec_lt start (i - 1)) [
  | yes before ↦ before
  | no at ↦ absurd (not_both capital (apart (omega arith) far))
]

loop_parts :
    (left i start : ℕ) (s : List ℕ)
    → i + left ≡ length s
    → start ≤ i - 1
    → IsApart i start s
    → All (λ p. 0 < length p) (camel_loop left i start s)
unfolding camel_loop
loop_parts zero i start s e h apart = elim (Bool-cases (ltb start (length s))) [
  | inl some_left ↦
      let more : start < length s = ground arith in
      rw some_left (omega (arith, length-drop start s), tt)
  | inr none_left ↦ rw none_left tt
]
loop_parts (suc left) i start s e h apart = elim (Bool-cases (starts_word i s)) [
  | inl word ↦
      let positive = word_inside i s word in
      let next : i + 1 - 2 ≡ i - 1 = omega arith in
      rw (word, word_or_acronym i s word)
        (
          length-slice start i s (omega arith) (omega arith),
          loop_parts left (i + 1) i s (omega arith) (omega arith)
              (λ a b. rw next (word-IsApart i s word)),
        )
  | inr same ↦ elim (Bool-cases (ends_acronym i s)) [
    | inl acronym ↦
        let (far, capital) = acronym_capital i s acronym in
        rw (same, acronym)
          (
            length-slice start (i - 1) s (part_before i start s h apart far capital) (omega arith),
            loop_parts left (i + 1) (i - 1) s (omega arith) (omega arith)
                (λ a b. absurd (omega arith)),
          )
    | inr inside ↦
        rw (same, inside)
          (loop_parts left (i + 1) start s (omega arith) (omega arith)
            (λ a b. absurd (omega arith)))
  ]
]

-- Splitting a word at its camel case loses, adds and moves nothing, and no part is empty.
pub split_camel_case_lem :
    (s : List ℕ) → (concat (split_camel_case s) ≡ s) × All (λ p. 0 < length p) (split_camel_case s)
unfolding split_camel_case
split_camel_case_lem s = (
  loop_concat (length s) 0 0 s (omega arith) (omega arith),
  loop_parts (length s) 0 0 s (omega arith) (omega arith) (λ a b. absurd (omega arith)),
)
