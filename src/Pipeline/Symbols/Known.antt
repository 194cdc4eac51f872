-- ===== src/Pipeline/Symbols/Known.antt =====
-- internal/codeintel/store/store.go, saveAnalysisResultTx: the symbols that it saves, and what
-- symbolMap knows of them.
use repolens.Base.{
  ◌≡◌, refl, ap, ◌⊎◌, inl, inr, ℕ, suc, String, Bool, true, false, Option, none, some, List, [],
  ◌∷◌, length, All, All-map, Bool-cases, text_key, ◌==◌, eq_iff, arith,
}
use repolens.Sql.Result.{Result, ok, err}
use repolens.Pipeline.Model.{Symbol, PipelineError, symbol_collision}
use repolens.Pipeline.Symbols.{IdMap, lookup, is_found, symbol_row, save_symbols}

-- A symbol with the id and the hash is among the rows.
abbrev pub HasSymbol : List Symbol → ℕ → String → Type 0
HasSymbol [] id hash = ⊥
HasSymbol (s ∷ ss) id hash = ((s.id ≡ id) × (s.symbol_key_hash ≡ hash)) ⊎ HasSymbol ss id hash

-- No two rows have the same hash.
abbrev pub HasNoCollision : List Symbol → Type 0
HasNoCollision [] = Unit
HasNoCollision (s ∷ ss) =
    All (λ (t : Symbol). (s.symbol_key_hash == t.symbol_key_hash) ≡ false) ss × HasNoCollision ss

-- What the map knows was there before, or is the id of a row with the hash.
abbrev pub IsKnown : IdMap → IdMap → List Symbol → Type 0
IsKnown seen entries rows =
    (hash : String) (id : ℕ)
    → lookup hash entries ≡ some id
    → (lookup hash seen ≡ some id) ⊎ HasSymbol rows id hash

abbrev AreNew : IdMap → List Symbol → Type 0
AreNew seen = All (λ (t : Symbol). lookup t.symbol_key_hash seen ≡ none)

abbrev pub Saved : IdMap → List Symbol → Result PipelineError (List Symbol × IdMap) → Type 0
Saved seen ss (err e) = Unit
Saved seen ss (ok (rows, entries)) =
    IsKnown seen entries rows × AreNew seen rows × HasNoCollision rows × (length rows ≡ length ss)

-- A lookup behind a new entry.
behind :
    (hash key : String) (id next : ℕ) (seen : IdMap)
    → lookup hash ((key, next) ∷ seen) ≡ some id
    → (lookup hash seen ≡ some id) ⊎ ((next ≡ id) × (key ≡ hash))
unfolding lookup
behind hash key id next seen e = elim (Bool-cases (key == hash)) [
  | inl hit ↦ inr (ground (arith, e), (eq_iff key hash).0 hit)
  | inr miss ↦ inl (ground (arith, e))
]

missing :
    (hash key : String) (next : ℕ) (seen : IdMap)
    → lookup hash ((key, next) ∷ seen) ≡ none
    → ((key == hash) ≡ false) × (lookup hash seen ≡ none)
unfolding lookup
missing hash key next seen e = elim (Bool-cases (key == hash)) [
  | inl hit ↦ ground (arith, e)
  | inr miss ↦ (miss, ground (arith, e))
]

is_found-none : (o : Option ℕ) → is_found o ≡ false → o ≡ none
is_found-none none h = refl
is_found-none (some id) h = ground arith

module _ (build : ℕ) (files : IdMap) where
  one_symbol :
      (next : ℕ) (seen : IdMap) (s : Symbol) (ss : List Symbol) (b : Bool)
      (r : Result PipelineError (List Symbol × IdMap))
      → is_found (lookup s.symbol_key_hash seen) ≡ b
      → Saved ((s.symbol_key_hash, next) ∷ seen) ss r
      → Saved seen (s ∷ ss) (elim b as (λ _. Result PipelineError (List Symbol × IdMap)) [
        | true ↦ err symbol_collision
        | false ↦ elim r as (λ _. Result PipelineError (List Symbol × IdMap)) [
          | err e ↦ err e
          | ok (rows, entries) ↦ ok (symbol_row build files next s ∷ rows, entries)
        ]
      ])
  one_symbol next seen s ss true r is h = tt
  one_symbol next seen s ss false (err e) is h = tt
  one_symbol next seen s ss false (ok (rows, entries)) is (known, new, clean, count) = (
    λ hash id found. elim (known hash id found) [
      | inr later ↦ inr (inr later)
      | inl e ↦ elim (behind hash s.symbol_key_hash id next seen e) [
        | inl before ↦ inl before
        | inr (at, same) ↦ inr (inl (at, same))
      ]
    ],
    (
      is_found-none _ is,
      All-map _ _ (λ (t : Symbol) e. (missing t.symbol_key_hash s.symbol_key_hash next seen e).1)
          rows new,
    ),
    (
      All-map _ _ (λ (t : Symbol) e. (missing t.symbol_key_hash s.symbol_key_hash next seen e).0)
          rows new,
      clean,
    ),
    ap suc count,
  )

  pub save_symbols-Saved :
      (next : ℕ) (seen : IdMap) (ss : List Symbol)
      → Saved seen ss (save_symbols build files next seen ss)
  unfolding save_symbols
  save_symbols-Saved next seen [] = (λ hash id e. inl e, tt, tt, refl)
  save_symbols-Saved next seen (s ∷ ss) =
      one_symbol next seen s ss _ _ refl
        (save_symbols-Saved (suc next) ((s.symbol_key_hash, next) ∷ seen) ss)
