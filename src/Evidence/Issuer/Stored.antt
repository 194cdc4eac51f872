-- ===== src/Evidence/Issuer/Stored.antt =====
-- What Issue leaves in the table of items, and which row it returns.
use repolens.Base.{
  String, ◌≡◌, refl, sym, ◌∙◌, subst, Bool, true, false, ◌&&◌, Bool-cases, Option-cases, All-map,
  inl, inr, Option, none, some, [], ◌∷◌, ◌++◌, text_key, nat_key, ◌==◌, ==_refl, if◌then◌else◌, All,
  All-append, arith,
}
use repolens.Base.Text.{same_codes_self}
use repolens.Sql.Result.{Result, ok, err}
use repolens.Evidence.Item.{
  EvidenceError, AttemptEvidenceItem, AttemptLineage, ItemTable, first, is_canonical, clashes,
  find_canonical, not_persisted,
}
use repolens.Evidence.Issuer.{settle_create, issue_item, canonical_of}

-- The primary key: a row is what its id finds.
abbrev pub IsIndexed : ItemTable → AttemptEvidenceItem → Type 0
IsIndexed t i = first (λ j. j.id == i.id) t ≡ some i

-- A row has an id, and carries the run, the snapshot and the build of its attempt.
abbrev pub IsLinked : (String → Option AttemptLineage) → AttemptEvidenceItem → Type 0
IsLinked lineage_of i =
    ((i.id == "") ≡ false)
    × (l : AttemptLineage) × (lineage_of i.attempt_id ≡ some l)
    × (l.diagnosis_run_id ≡ i.diagnosis_run_id)
    × (l.snapshot_id ≡ i.snapshot_id)
    × (l.code_index_build_id ≡ i.code_index_build_id)

pub record IsSoundTable (lineage_of : String → Option AttemptLineage) (t : ItemTable) : Type 0 where
  pub indexed : All (IsIndexed t) t
  pub linked : All (IsLinked lineage_of) t

abbrev OfSome : (AttemptEvidenceItem → Type 0) → Option AttemptEvidenceItem → Type 0
OfSome P none = Unit
OfSome P (some i) = P i

module _ (c : AttemptEvidenceItem → Bool) where
  first_found :
      (P : AttemptEvidenceItem → Type 0) (t : ItemTable)
      → All P t
      → OfSome (λ i. P i × (c i ≡ true)) (first c t)
  unfolding first
  first_found P [] a = tt
  first_found P (j ∷ t) a = elim (Bool-cases (c j)) [
    | inl hit ↦ rw hit (a.0, hit)
    | inr miss ↦ rw miss (first_found P t a.1)
  ]

  of_first :
      (P : AttemptEvidenceItem → Type 0) (t : ItemTable) (i : AttemptEvidenceItem)
      → All P t
      → first c t ≡ some i
      → P i × (c i ≡ true)
  of_first P t i a h = subst (OfSome (λ j. P j × (c j ≡ true))) h (first_found P t a)

  first-append :
      (t u : ItemTable)
      → first c (t ++ u) ≡ elim (first c t) as (λ _. Option AttemptEvidenceItem) [
        | some i ↦ some i
        | none ↦ first c u
      ]
  unfolding first
  first-append [] u = refl
  first-append (i ∷ t) u = ground (arith, first-append t u)

  -- A stronger condition that the first hit meets has the same first hit.
  pub first_and :
      (d : AttemptEvidenceItem → Bool) (t : ItemTable) (i : AttemptEvidenceItem)
      → first c t ≡ some i
      → d i ≡ true
      → first (λ j. d j && c j) t ≡ some i
  unfolding first
  first_and d [] i h k = h
  first_and d (j ∷ t) i h k = elim (Bool-cases (c j)) [
    | inl hit ↦
        let same : some j ≡ some i =
          subst (λ (b : Bool). (if b then some j else first c t) ≡ some i) hit h in
        let both : (d j && c j) ≡ true =
          subst (OfSome (λ x. (d x && c x) ≡ true)) (sym same)
            (rw (k, subst (OfSome (λ x. c x ≡ true)) same hit) refl) in
        rw both same
    | inr miss ↦
        let rest = subst (λ (b : Bool). (if b then some j else first c t) ≡ some i) miss h in
        let neither : (d j && c j) ≡ false = ground (arith, miss) in
        rw neither (first_and d t i rest k)
  ]

none_of_weaker :
    (c d : AttemptEvidenceItem → Bool) (t : ItemTable)
    → ((j : AttemptEvidenceItem) → d j ≡ true → c j ≡ true)
    → first c t ≡ none
    → first d t ≡ none
unfolding first
none_of_weaker c d [] h k = refl
none_of_weaker c d (j ∷ t) h k = elim (Bool-cases (d j)) [
  | inl hit ↦ let seen = rw (h j hit) at k in ground arith
  | inr miss ↦ ground (arith, miss, none_of_weaker c d t h)
]

last_found : (i : AttemptEvidenceItem) → first (λ j. j.id == i.id) (i ∷ []) ≡ some i
unfolding first
last_found i = rw (==_refl i.id)

-- A row that an INSERT accepts shares no id with another.
IsIndexed-new :
    (i : AttemptEvidenceItem) (t : ItemTable)
    → first (clashes i) t ≡ none
    → IsIndexed (t ++ i ∷ []) i
IsIndexed-new i t fresh =
    let alone : first (λ j. j.id == i.id) t ≡ none =
      none_of_weaker (clashes i) (λ j. j.id == i.id) t (λ j h. ground arith) fresh in
    first-append (λ j. j.id == i.id) t (i ∷ []) ∙ rw alone (last_found i)

IsIndexed-create :
    (i : AttemptEvidenceItem) (t : ItemTable)
    → All (IsIndexed t) t
    → first (clashes i) t ≡ none
    → All (IsIndexed (t ++ i ∷ [])) (t ++ i ∷ [])
IsIndexed-create i t a fresh =
    All-append (IsIndexed (t ++ i ∷ [])) t (i ∷ [])
      (All-map (IsIndexed t) (IsIndexed (t ++ i ∷ []))
        (λ j h. first-append (λ k. k.id == j.id) t (i ∷ []) ∙ rw h) t a)
      (IsIndexed-new i t fresh, tt)

canonical_self :
    (i : AttemptEvidenceItem)
    → is_canonical i.attempt_id i.snapshot_id i.file_path i.start_line i.end_line i.raw_content_hash
        i
      ≡ true
canonical_self i =
    rw
      (
        ==_refl i.attempt_id,
        ==_refl i.snapshot_id,
        ==_refl i.file_path,
        ==_refl i.start_line,
        ==_refl i.end_line,
        same_codes_self i.raw_content_hash,
      )
      refl

module _ (lineage_of : String → Option AttemptLineage) where
  -- What issuing leaves: a sound table, with the row that is returned for the wanted one.
  pub record Issued (i j : AttemptEvidenceItem) (t : ItemTable) : Type 0 where
    pub sound : IsSoundTable lineage_of t
    pub indexed : IsIndexed t j
    pub linked : IsLinked lineage_of j
    pub canonical :
        is_canonical i.attempt_id i.snapshot_id i.file_path i.start_line i.end_line
          i.raw_content_hash j
        ≡ true

  abbrev pub After :
      AttemptEvidenceItem → Result EvidenceError AttemptEvidenceItem × ItemTable → Type 0
  After i (ok j, t) = Issued i j t
  After i (err e, t) = IsSoundTable lineage_of t

  found_After :
      (i j : AttemptEvidenceItem) (t : ItemTable)
      → IsSoundTable lineage_of t
      → canonical_of i t ≡ some j
      → Issued i j t
  unfolding find_canonical
  found_After i j t sound hit =
      let one = of_first _ (IsIndexed t) t j sound.indexed hit in
      let two = of_first _ (IsLinked lineage_of) t j sound.linked hit in
      record { sound = sound; indexed = one.0; linked = two.0; canonical = one.1 }

  settle_After :
      (i : AttemptEvidenceItem) (t : ItemTable)
      → IsSoundTable lineage_of t
      → IsLinked lineage_of i
      → After i (settle_create i t)
  unfolding settle_create
  settle_After i t sound linked = elim (Option-cases (first (clashes i) t)) [
    | inl fresh ↦
        let done : settle_create i t ≡ (ok i, t ++ i ∷ []) = rw (fresh, settle_create) in
        subst (After i) (sym done) (record {
          sound = record {
            indexed = IsIndexed-create i t sound.indexed fresh;
            linked = All-append (IsLinked lineage_of) t (i ∷ []) sound.linked (linked, tt);
          };
          indexed = IsIndexed-new i t fresh;
          linked = linked;
          canonical = canonical_self i;
        })
    | inr (k, hit) ↦ elim (Option-cases (canonical_of i t)) [
      | inl missing ↦
          let lost : settle_create i t ≡ (err not_persisted, t) =
            rw (hit, missing, settle_create) in
          subst (After i) (sym lost) sound
      | inr (j, seen) ↦
          let again : settle_create i t ≡ (ok j, t) = rw (hit, seen, settle_create) in
          subst (After i) (sym again) (found_After i j t sound seen)
    ]
  ]

  pub issue_item-After :
      (others : ItemTable → ItemTable) (i : AttemptEvidenceItem) (t : ItemTable)
      → IsSoundTable lineage_of t
      → IsSoundTable lineage_of (others t)
      → IsLinked lineage_of i
      → After i (issue_item others i t)
  unfolding issue_item
  issue_item-After others i t sound later linked = elim (Option-cases (canonical_of i t)) [
    | inl missing ↦
        let new : issue_item others i t ≡ settle_create i (others t) = rw (missing, issue_item) in
        subst (After i) (sym new) (settle_After i (others t) later linked)
    | inr (j, seen) ↦
        let old : issue_item others i t ≡ (ok j, t) = rw (seen, issue_item) in
        subst (After i) (sym old) (found_After i j t sound seen)
  ]
