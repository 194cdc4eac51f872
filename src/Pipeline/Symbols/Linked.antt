-- ===== src/Pipeline/Symbols/Linked.antt =====
-- internal/codeintel/store/store.go, saveAnalysisResultTx: the relations that it saves point to saved
-- symbols, and each discovered test has one.
use repolens.Base.{
  ◌≡◌, refl, sym, subst, ◌⊎◌, inl, inr, ℕ, suc, String, Bool, true, false, Option, none, some, List,
  [], ◌∷◌, ◌++◌, All, All-map, All-append, Bool-cases, text_key, ◌==◌, ==_refl, eq_iff,
  if◌then◌else◌, arith,
}
use repolens.Sql.Result.{Result, ok, err}
use repolens.Pipeline.Model.{Symbol, SymbolRelation, PipelineError}
use repolens.Pipeline.Symbols.{
  RelatedTestDiscovery, IdMap, lookup, link, save_relations, is_test_relation, related_test_key,
  key_of_relation, test_relation_keys, has_key, test_relation_row, discovered, save_related_tests,
}
use repolens.Pipeline.Symbols.Known.{HasSymbol, IsKnown}

-- A symbol id that is set is the id of a row with the hash beside it.
abbrev pub PointsTo : List Symbol → Option ℕ → String → Type 0
PointsTo symbols none hash = Unit
PointsTo symbols (some id) hash = HasSymbol symbols id hash

abbrev pub IsLinked : List Symbol → SymbolRelation → Type 0
IsLinked symbols r =
    PointsTo symbols r.from_symbol_id r.from_symbol_key_hash
    × PointsTo symbols r.to_symbol_id r.to_symbol_key_hash

-- The analyzer leaves the ids of a relation to the store.
abbrev pub IsUnlinked : SymbolRelation → Type 0
IsUnlinked r = (r.from_symbol_id ≡ none) × (r.to_symbol_id ≡ none)

abbrev pub key_of_discovery : RelatedTestDiscovery → String
key_of_discovery d = related_test_key d.target_symbol_key_hash d.test_symbol_key_hash

-- A test relation of the target and the test is among the rows.
abbrev pub HasTest : List SymbolRelation → RelatedTestDiscovery → Type 0
HasTest rows d = has_key (key_of_discovery d) (test_relation_keys rows) ≡ true

has_key-head : (key : String) (keys : List String) → has_key key (key ∷ keys) ≡ true
unfolding has_key
has_key-head key keys = rw (==_refl key) refl

has_key-later :
    (key k : String) (keys : List String) → has_key key keys ≡ true → has_key key (k ∷ keys) ≡ true
unfolding has_key
has_key-later key k keys h = elim (Bool-cases (k == key)) [
  | inl hit ↦ rw hit refl
  | inr miss ↦ rw (miss, h) refl
]

has_key-cases :
    (key k : String) (keys : List String)
    → has_key key (k ∷ keys) ≡ true
    → (k ≡ key) ⊎ (has_key key keys ≡ true)
unfolding has_key
has_key-cases key k keys h = elim (Bool-cases (k == key)) [
  | inl hit ↦ inl ((eq_iff k key).0 hit)
  | inr miss ↦ inr (ground (arith, h))
]

HasTest-later :
    (d : RelatedTestDiscovery) (r : SymbolRelation) (rows : List SymbolRelation)
    → HasTest rows d
    → HasTest (r ∷ rows) d
unfolding test_relation_keys
HasTest-later d r rows h = elim (Bool-cases (is_test_relation r.relation_type)) [
  | inl hit ↦
      rw hit (has_key-later (key_of_discovery d) (key_of_relation r) (test_relation_keys rows) h)
  | inr miss ↦ rw miss h
]

HasTest-row :
    (r : SymbolRelation) (rows : List SymbolRelation) (d : RelatedTestDiscovery)
    → is_test_relation r.relation_type ≡ true
    → key_of_relation r ≡ key_of_discovery d
    → HasTest (r ∷ rows) d
unfolding test_relation_keys
HasTest-row r rows d test same = rw test (
    subst (λ k. has_key k (key_of_relation r ∷ test_relation_keys rows) ≡ true) same
      (has_key-head (key_of_relation r) (test_relation_keys rows)))

pub HasTest-append :
    (d : RelatedTestDiscovery) (rows more : List SymbolRelation)
    → HasTest more d
    → HasTest (rows ++ more) d
HasTest-append d [] more h = h
HasTest-append d (r ∷ rows) more h = HasTest-later d r (rows ++ more) (HasTest-append d rows more h)

pub HasTest-before :
    (d : RelatedTestDiscovery) (rows more : List SymbolRelation)
    → HasTest rows d
    → HasTest (rows ++ more) d
unfolding test_relation_keys has_key
HasTest-before d [] more h = ground (arith, h)
HasTest-before d (r ∷ rows) more h = elim (Bool-cases (is_test_relation r.relation_type)) [
  | inl hit ↦
      let first : has_key (key_of_discovery d) (key_of_relation r ∷ test_relation_keys rows)
          ≡ true =
        subst
          (λ b.
            has_key (key_of_discovery d)
              (if b then key_of_relation r ∷ test_relation_keys rows else test_relation_keys rows)
            ≡ true)
          hit h in
      rw hit
        (elim (has_key-cases (key_of_discovery d) (key_of_relation r) (test_relation_keys rows)
          first) [
            | inl same ↦
                subst
                  (λ k. has_key k (key_of_relation r ∷ test_relation_keys (rows ++ more)) ≡ true)
                  same (has_key-head (key_of_relation r) (test_relation_keys (rows ++ more)))
            | inr later ↦
                has_key-later (key_of_discovery d) (key_of_relation r)
                  (test_relation_keys (rows ++ more)) (HasTest-before d rows more later)
          ])
  | inr miss ↦
      let later : HasTest rows d =
        subst
          (λ b.
            has_key (key_of_discovery d)
              (if b then key_of_relation r ∷ test_relation_keys rows else test_relation_keys rows)
            ≡ true)
          miss h in
      rw miss (HasTest-before d rows more later)
]

module _ (build : ℕ) (files entries : IdMap) (symbols : List Symbol)
    (known : IsKnown [] entries symbols) where
  points : (hash : String) (id : ℕ) → lookup hash entries ≡ some id → HasSymbol symbols id hash
  unfolding lookup
  points hash id e = elim (known hash id e) [
    | inl no_entry ↦ ground (arith, no_entry)
    | inr has ↦ has
  ]

  link_cases :
      (hash : String) (b : Bool) (o old : Option ℕ)
      → old ≡ none
      → ((id : ℕ) → o ≡ some id → HasSymbol symbols id hash)
      → PointsTo symbols
          (if b then old else elim o as (λ _. Option ℕ) [ none ↦ old | some id ↦ some id ])
          hash
  link_cases hash true o old unset h = subst (λ x. PointsTo symbols x hash) (sym unset) tt
  link_cases hash false none old unset h = subst (λ x. PointsTo symbols x hash) (sym unset) tt
  link_cases hash false (some id) old unset h = h id refl

  link-PointsTo :
      (hash : String) (old : Option ℕ) → old ≡ none → PointsTo symbols (link entries hash old) hash
  link-PointsTo hash old unset =
      link_cases hash (hash == "") (lookup hash entries) old unset (points hash)

  save_relations-IsLinked :
      (next : ℕ) (rs : List SymbolRelation)
      → All IsUnlinked rs
      → All (IsLinked symbols) (save_relations build files entries next rs)
  unfolding save_relations
  save_relations-IsLinked next [] h = tt
  save_relations-IsLinked next (r ∷ rs) ((from, to), h) = (
    (
      link-PointsTo r.from_symbol_key_hash r.from_symbol_id from,
      link-PointsTo r.to_symbol_key_hash r.to_symbol_id to,
    ),
    save_relations-IsLinked (suc next) rs h,
  )

  -- What saving the discoveries leaves, where it succeeds.
  abbrev TestsSaved :
      List String → List RelatedTestDiscovery → Result PipelineError (List SymbolRelation) → Type 0
  TestsSaved keys ds (err e) = Unit
  TestsSaved keys ds (ok rows) =
      All (IsLinked symbols) rows
      × All (λ d. (has_key (key_of_discovery d) keys ≡ true) ⊎ HasTest rows d) ds

  one_test :
      (next : ℕ) (keys : List String) (d : RelatedTestDiscovery) (ds : List RelatedTestDiscovery)
      (b : Bool) (from to file : Option ℕ) (r1 r2 : Result PipelineError (List SymbolRelation))
      → has_key (key_of_discovery d) keys ≡ b
      → lookup d.target_symbol_key_hash entries ≡ from
      → lookup d.test_symbol_key_hash entries ≡ to
      → TestsSaved keys ds r1
      → TestsSaved (key_of_discovery d ∷ keys) ds r2
      → TestsSaved keys (d ∷ ds) (elim b as (λ _. Result PipelineError (List SymbolRelation)) [
        | true ↦ r1
        | false ↦
            elim (discovered build next from to file d)
              as (λ _. Result PipelineError (List SymbolRelation)) [
                | err e ↦ err e
                | ok row ↦ elim r2 as (λ _. Result PipelineError (List SymbolRelation)) [
                  | err e ↦ err e
                  | ok rows ↦ ok (row ∷ rows)
                ]
              ]
      ])
  one_test next keys d ds true from to file (err e) r2 is f t h k = tt
  one_test next keys d ds true from to file (ok rows) r2 is f t (linked, done) k =
      (linked, (inl is, done))
  one_test next keys d ds false none to file r1 r2 is f t h k = tt
  one_test next keys d ds false (some from) none file r1 r2 is f t h k = tt
  one_test next keys d ds false (some from) (some to) none r1 r2 is f t h k = tt
  one_test next keys d ds false (some from) (some to) (some file) r1 (err e) is f t h k = tt
  one_test next keys d ds false (some from) (some to) (some file) r1 (ok rows) is f t h
        (linked, done) =
      let row = test_relation_row build next from to file d in
      (
        ((points d.target_symbol_key_hash from f, points d.test_symbol_key_hash to t), linked),
        (
          inr (HasTest-row row rows d refl refl),
          All-map _ _
              (λ (x : RelatedTestDiscovery) e. elim e [
                | inr later ↦ inr (HasTest-later x row rows later)
                | inl before ↦
                    elim (has_key-cases (key_of_discovery x) (key_of_discovery d) keys before) [
                      | inl same ↦ inr (HasTest-row row rows x refl same)
                      | inr there ↦ inl there
                    ]
              ])
              ds done,
        ),
      )

  save_related_tests-TestsSaved :
      (next : ℕ) (keys : List String) (ds : List RelatedTestDiscovery)
      → TestsSaved keys ds (save_related_tests build files entries next keys ds)
  unfolding save_related_tests
  save_related_tests-TestsSaved next keys [] = (tt, tt)
  save_related_tests-TestsSaved next keys (d ∷ ds) =
      one_test next keys d ds _ _ _ _ _ _ refl refl refl
        (save_related_tests-TestsSaved next keys ds)
        (save_related_tests-TestsSaved (suc next) (key_of_discovery d ∷ keys) ds)

  -- All relations of a result that is saved: linked, and one for each discovered test.
  pub relations-AreLinked :
      (next later : ℕ) (rs : List SymbolRelation) (ds : List RelatedTestDiscovery)
      (tests : List SymbolRelation)
      → All IsUnlinked rs
      → save_related_tests build files entries later
          (test_relation_keys (save_relations build files entries next rs))
          ds
        ≡ ok tests
      → All (IsLinked symbols) (save_relations build files entries next rs ++ tests)
        × All (HasTest (save_relations build files entries next rs ++ tests)) ds
  relations-AreLinked next later rs ds tests unlinked e =
      let rows = save_relations build files entries next rs in
      let (linked, done) =
        subst (TestsSaved (test_relation_keys rows) ds) e
          (save_related_tests-TestsSaved later (test_relation_keys rows) ds) in
      (
        All-append (IsLinked symbols) rows tests (save_relations-IsLinked next rs unlinked) linked,
        All-map _ _
            (λ d x. elim x [
              | inl before ↦ HasTest-before d rows tests before
              | inr there ↦ HasTest-append d rows tests there
            ])
            ds done,
      )
