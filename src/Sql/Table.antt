-- ===== src/Sql/Table.antt =====
-- Tables with a primary key, as lists of rows.
use repolens.Base.{
  subst, ◌++◌, zero, suc, filter, take, ==_refl, All-map, ℕ, ◌≡◌, refl, Bool, ◌&&◌, true, false,
  Option, none, some, List, [], ◌∷◌, arith, Eq, ◌==◌, if◌then◌else◌, All, Bool-cases, inl, inr,
}

-- The row of a new state, or the old one, by the statement's condition.
abbrev pub when_row : {R : Type 0} → (R → Bool) → (R → R) → R → R
when_row c f r = if c r then f r else r

abbrev pub map_row : {R : Type 0} → (R → R) → Option R → Option R
map_row f none = none
map_row f (some r) = some (f r)

-- How many rows, of none or one, meet the condition.
abbrev pub count_row : {R : Type 0} → (R → Bool) → Option R → ℕ
count_row c none = 0
count_row c (some r) = if c r then 1 else 0

-- A stronger condition is met by no row that a weaker one does not meet.
pub count_row_and :
    {R : Type 0} (c d : R → Bool) (o : Option R)
    → count_row c o ≡ 0
    → count_row (λ r. c r && d r) o ≡ 0
count_row_and c d none h = refl
count_row_and c d (some r) h = ground arith

-- Two tables whose rows stand in a relation, one by one.
abbrev pub Rows : {R : Type 0} → (R → R → Type 0) → List R → List R → Type 0
Rows M [] [] = Unit
Rows M (r ∷ rs) (s ∷ ss) = M r s × Rows M rs ss
Rows M [] (s ∷ ss) = ⊥
Rows M (r ∷ rs) [] = ⊥

pub Rows-refl : {R : Type 0} (M : R → R → Type 0) → ((r : R) → M r r) → (t : List R) → Rows M t t
Rows-refl M h [] = tt
Rows-refl M h (r ∷ rs) = (h r, Rows-refl M h rs)

pub Rows-trans :
    {R : Type 0} (M : R → R → Type 0)
    → ((a b c : R) → M a b → M b c → M a c)
    → (t u v : List R) → Rows M t u
    → Rows M u v
    → Rows M t v
Rows-trans M h [] [] [] p q = tt
Rows-trans M h [] [] (c ∷ v) p q = elim q [ ]
Rows-trans M h [] (b ∷ u) v p q = elim p [ ]
Rows-trans M h (a ∷ t) [] v p q = elim p [ ]
Rows-trans M h (a ∷ t) (b ∷ u) [] p q = elim q [ ]
Rows-trans M h (a ∷ t) (b ∷ u) (c ∷ v) p q = (h a b c p.0 q.0, Rows-trans M h t u v p.1 q.1)

-- An invariant that the relation carries over.
pub All-Rows :
    {R : Type 0} (M : R → R → Type 0) (P : R → Type 0)
    → ((a b : R) → M a b → P a → P b)
    → (t u : List R) → Rows M t u
    → All P t
    → All P u
All-Rows M P h [] [] m a = tt
All-Rows M P h [] (s ∷ u) m a = elim m [ ]
All-Rows M P h (r ∷ t) [] m a = elim m [ ]
All-Rows M P h (r ∷ t) (s ∷ u) m a = (h r s m.0 a.0, All-Rows M P h t u m.1 a.1)

when_moves :
    {R : Type 0} (M : R → R → Type 0) (c : R → Bool) (f : R → R) (r : R)
    → M r r
    → (c r ≡ true → M r (f r))
    → M r (when_row c f r)
when_moves M c f r same step = elim (Bool-cases (c r)) [ inl t ↦ rw t (step t) | inr n ↦ rw n same ]

abbrev OfSome : {R : Type 0} → (R → Type 0) → Option R → Type 0
OfSome P none = Unit
OfSome P (some r) = P r

module _ {R K : Type 0} ⦃e : Eq K⦄ (key : R → K) where
  -- SELECT ... WHERE id = k
  unfoldable pub find : K → List R → Option R
  find k [] = none
  find k (r ∷ rs) = if key r == k then some r else find k rs

  -- UPDATE ... WHERE id = k AND c
  unfoldable pub update : K → (R → Bool) → (R → R) → List R → List R
  update k c f [] = []
  update k c f (r ∷ rs) = if key r == k then when_row c f r ∷ rs else r ∷ update k c f rs

  pub find-update_self :
      (k : K) (c : R → Bool) (f : R → R) (t : List R)
      → ((r : R) → key (f r) ≡ key r)
      → find k (update k c f t) ≡ map_row (when_row c f) (find k t)
  unfolding find update
  find-update_self k c f [] h = refl
  find-update_self k c f (r ∷ rs) h = ground (arith, h r, find-update_self k c f rs h)

  pub find-update_ne :
      (k j : K) (c : R → Bool) (f : R → R) (t : List R)
      → ((r : R) → key (f r) ≡ key r)
      → (k == j) ≡ false
      → find j (update k c f t) ≡ find j t
  unfolding find update
  find-update_ne k j c f [] h n = refl
  find-update_ne k j c f (r ∷ rs) h n =
      ground (arith, h r, e.same_iff (key r) k, e.same_iff (key r) j, find-update_ne k j c f rs h n)

  -- What a key finds has it.
  pub key-find : (k : K) (t : List R) (r : R) → find k t ≡ some r → key r ≡ k
  unfolding find
  key-find k [] r found = ground arith
  key-find k (a ∷ t) r found = elim (Bool-cases (key a == k)) [
    | inl hit ↦
        let same : some a ≡ some r =
          subst (λ (c : Bool). (if c then some a else find k t) ≡ some r) hit found in
        subst (OfSome (λ x. key x ≡ k)) same ((e.same_iff (key a) k).0 hit)
    | inr miss ↦
        key-find k t r (subst (λ (c : Bool). (if c then some a else find k t) ≡ some r) miss found)
  ]

  -- So that its own key finds it.
  pub find-found : (k : K) (t : List R) (r : R) → find k t ≡ some r → find (key r) t ≡ some r
  find-found k t r found = rw (key-find k t r found) found

  -- A statement that meets no row changes nothing.
  pub update_noop :
      (k : K) (c : R → Bool) (f : R → R) (t : List R)
      → count_row c (find k t) ≡ 0
      → update k c f t ≡ t
  unfolding find update
  update_noop k c f [] h = refl
  update_noop k c f (r ∷ rs) h = ground (arith, update_noop k c f rs)

  -- A statement moves each row by a relation: the rows that it leaves by reflexivity.
  pub Rows-update :
      (M : R → R → Type 0) (k : K) (c : R → Bool) (f : R → R) (t : List R)
      → ((r : R) → M r r)
      → ((r : R) → key r ≡ k → c r ≡ true → M r (f r))
      → Rows M t (update k c f t)
  unfolding update
  Rows-update M k c f [] same h = tt
  Rows-update M k c f (r ∷ rs) same h =
      ground (
        arith,
        e.same_iff (key r) k,
        same r,
        h r,
        Rows-refl M same rs,
        Rows-update M k c f rs same h,
      )

  -- The same, with what is known of the one row that the key finds.
  pub Rows-update_found :
      (M : R → R → Type 0) (k : K) (c : R → Bool) (f : R → R) (t : List R)
      → ((r : R) → M r r)
      → ((r : R) → find k t ≡ some r → c r ≡ true → M r (f r))
      → Rows M t (update k c f t)
  unfolding find update
  Rows-update_found M k c f [] same h = tt
  Rows-update_found M k c f (r ∷ rs) same h = elim (Bool-cases (key r == k)) [
    | inl hit ↦
        let step : (c r ≡ true → M r (f r)) = h r (rw hit refl) in
        rw hit (when_moves M c f r (same r) step, Rows-refl M same rs)
    | inr miss ↦ rw miss (same r, Rows-update_found M k c f rs same (λ s e. h s (rw miss e)))
  ]

  -- Distinct keys.
  abbrev pub IsKeyed : List R → Type 0
  IsKeyed [] = Unit
  IsKeyed (r ∷ rs) = (find (key r) rs ≡ none) × IsKeyed rs

  find-skip :
      (r s : R) (rs : List R)
      → find (key r) rs ≡ none
      → find (key s) rs ≡ some s
      → find (key s) (r ∷ rs) ≡ some s
  unfolding find
  find-skip r s rs absent found = ground (arith, e.same_iff (key r) (key s))

  -- In a table with distinct keys, the key of a row finds it.
  pub IsKeyed-found : (t : List R) → IsKeyed t → All (λ r. find (key r) t ≡ some r) t
  unfolding find
  IsKeyed-found [] k = tt
  IsKeyed-found (r ∷ rs) k = (
    rw (==_refl (key r)) refl,
    All-map (λ s. find (key s) rs ≡ some s) (λ s. find (key s) (r ∷ rs) ≡ some s)
        (λ s found. find-skip r s rs k.0 found) rs (IsKeyed-found rs k.1),
  )

  find-filter : (p : R → Bool) (k : K) (t : List R) → find k t ≡ none → find k (filter p t) ≡ none
  unfolding find
  find-filter p k [] absent = refl
  find-filter p k (r ∷ rs) absent = ground (arith, find-filter p k rs)

  find-take : (n : ℕ) (k : K) (t : List R) → find k t ≡ none → find k (take n t) ≡ none
  unfolding find
  find-take zero k t absent = refl
  find-take (suc n) k [] absent = refl
  find-take (suc n) k (r ∷ rs) absent = ground (arith, find-take n k rs)

  pub IsKeyed-filter : (p : R → Bool) (t : List R) → IsKeyed t → IsKeyed (filter p t)
  IsKeyed-filter p [] k = tt
  IsKeyed-filter p (r ∷ rs) k = elim (Bool-cases (p r)) [
    | inl hit ↦ rw hit (find-filter p (key r) rs k.0, IsKeyed-filter p rs k.1)
    | inr miss ↦ rw miss (IsKeyed-filter p rs k.1)
  ]

  pub IsKeyed-take : (n : ℕ) (t : List R) → IsKeyed t → IsKeyed (take n t)
  IsKeyed-take zero t k = tt
  IsKeyed-take (suc n) [] k = tt
  IsKeyed-take (suc n) (r ∷ rs) k = (find-take n (key r) rs k.0, IsKeyed-take n rs k.1)

  -- A relation that keeps the key of each row keeps what the keys find, and so distinct keys.
  find-Rows-none :
      (M : R → R → Type 0) (keeps : (a b : R) → M a b → key b ≡ key a) (k : K) (t u : List R)
      → Rows M t u
      → find k t ≡ none
      → find k u ≡ none
  unfolding find
  find-Rows-none M keeps k [] [] m absent = refl
  find-Rows-none M keeps k [] (s ∷ u) m absent = elim m [ ]
  find-Rows-none M keeps k (r ∷ t) [] m absent = elim m [ ]
  find-Rows-none M keeps k (r ∷ t) (s ∷ u) m absent =
      ground (arith, keeps r s m.0, find-Rows-none M keeps k t u m.1)

  pub IsKeyed-Rows :
      (M : R → R → Type 0) (keeps : (a b : R) → M a b → key b ≡ key a) (t u : List R)
      → Rows M t u
      → IsKeyed t
      → IsKeyed u
  IsKeyed-Rows M keeps [] [] m k = tt
  IsKeyed-Rows M keeps [] (s ∷ u) m k = elim m [ ]
  IsKeyed-Rows M keeps (r ∷ t) [] m k = elim m [ ]
  IsKeyed-Rows M keeps (r ∷ t) (s ∷ u) m k = (
    rw (keeps r s m.0) (find-Rows-none M keeps (key r) t u m.1 k.0),
    IsKeyed-Rows M keeps t u m.1 k.1,
  )

  -- What a key finds moves along, and nothing new is found.
  pub find-Rows :
      (M : R → R → Type 0) (keeps : (a b : R) → M a b → key b ≡ key a) (k : K) (t u : List R)
      (r : R)
      → Rows M t u
      → find k t ≡ some r
      → (s : R) × (find k u ≡ some s) × M r s
  unfolding find
  find-Rows M keeps k [] u r m found = ground arith
  find-Rows M keeps k (a ∷ t) [] r m found = elim m [ ]
  find-Rows M keeps k (a ∷ t) (b ∷ u) r m found = elim (Bool-cases (key a == k)) [
    | inl hit ↦
        let same : some a ≡ some r =
          subst (λ (c : Bool). (if c then some a else find k t) ≡ some r) hit found in
        (b, rw (keeps a b m.0, hit) refl, subst (OfSome (λ x. M x b)) same m.0)
    | inr miss ↦
        let later : find k t ≡ some r =
          subst (λ (c : Bool). (if c then some a else find k t) ≡ some r) miss found in
        rw (keeps a b m.0, miss) (find-Rows M keeps k t u r m.1 later)
  ]

  pub find-append :
      (k : K) (t : List R) (r new : R) → find k t ≡ some r → find k (t ++ new ∷ []) ≡ some r
  unfolding find
  find-append k [] r new found = ground arith
  find-append k (a ∷ t) r new found = ground (arith, find-append k t r new)

  pub find-append_new :
      (k : K) (t : List R) (new : R)
      → find k t ≡ none
      → key new ≡ k
      → find k (t ++ new ∷ []) ≡ some new
  unfolding find
  find-append_new k [] new absent same = rw (same, ==_refl k) refl
  find-append_new k (a ∷ t) new absent same = ground (arith, find-append_new k t new)

  find-append_none :
      (k : K) (t : List R) (new : R)
      → find k t ≡ none
      → (key new == k) ≡ false
      → find k (t ++ new ∷ []) ≡ none
  unfolding find
  find-append_none k [] new absent other = ground arith
  find-append_none k (a ∷ t) new absent other = ground (arith, find-append_none k t new)

  -- A row with a new key may be appended.
  pub IsKeyed-append :
      (t : List R) (new : R) → find (key new) t ≡ none → IsKeyed t → IsKeyed (t ++ new ∷ [])
  unfolding find
  IsKeyed-append [] new absent k = (refl, tt)
  IsKeyed-append (r ∷ rs) new absent k = (
    find-append_none (key r) rs new k.0
        (ground (arith, e.same_iff (key new) (key r), e.same_iff (key r) (key new))),
    IsKeyed-append rs new (ground arith) k.1,
  )
