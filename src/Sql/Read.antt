-- ===== src/Sql/Read.antt =====
-- Reads that fail on a missing row, and what a body ensures of its value and of the state it leaves.
use repolens.Base.{
  ◌≡◌, refl, sym, subst, Bool, true, false, Option, none, some, List, [], ◌∷◌, if◌then◌else◌,
}
use repolens.Sql.Result.{Result, ok, err, Tx, pure, fail, query, guard, ◌>>=◌, bind_ok, bind_err}

abbrev pub row_or_error : {S E A : Type 0} → Option A → E → Tx S E A
row_or_error none e s = err e
row_or_error (some a) e s = ok (a, s)

-- SELECT of one row, with the error that stands for a missing one.
unfoldable pub read : {S E A : Type 0} → (S → Option A) → E → Tx S E A
read f e s = row_or_error (f s) e s

-- The first row that meets the condition, as First orders by the primary key.
unfoldable pub first_row : {R : Type 0} → (R → Bool) → List R → Option R
first_row c [] = none
first_row c (r ∷ rs) = if c r then some r else first_row c rs

abbrev pub Post : {S E A : Type 0} → (A → S → Type 0) → Result E (A × S) → Type 0
Post Q (ok (a, s)) = Q a s
Post Q (err e) = Unit

-- If the body commits from this state, its value and its new state are in the relation.
pub record Ensures {S E A : Type 0} (Q : A → S → Type 0) (m : Tx S E A) (s : S) : Type 0 where
  pub at : Post Q (m s)

module _ {S E A : Type 0} {Q : A → S → Type 0} where
  pub Ensures-ok : {m : Tx S E A} {s s' : S} {a : A} → Ensures Q m s → m s ≡ ok (a, s') → Q a s'
  Ensures-ok h e = subst (Post Q) e h.at

  later_of :
      (P : A → S → Type 0) (r : Result E (A × S))
      → ((a : A) (t : S) → P a t → Q a t)
      → Post P r
      → Post Q r
  later_of P (ok (a, t)) h k = h a t k
  later_of P (err e) h k = tt

  pub Ensures-weaken :
      (P : A → S → Type 0) (m : Tx S E A) (s : S)
      → ((a : A) (t : S) → P a t → Q a t)
      → Ensures P m s
      → Ensures Q m s
  Ensures-weaken P m s h k = record { at = later_of P (m s) h k.at }

  -- A body of known outcome.
  pub Ensures-run : (m : Tx S E A) (s s' : S) (a : A) → m s ≡ ok (a, s') → Q a s' → Ensures Q m s
  Ensures-run m s s' a e q = record { at = subst (Post Q) (sym e) q }

  pub Ensures-pure : (a : A) (s : S) → Q a s → Ensures {E = E} Q (pure a) s
  unfolding ◌>>=◌
  Ensures-pure a s q = record { at = q }

  pub Ensures-fail : (e : E) (s : S) → Ensures Q (fail e) s
  unfolding ◌>>=◌
  Ensures-fail e s = record { at = tt }

  pub Ensures-if :
      (b : Bool) (m n : Tx S E A) (s : S)
      → (b ≡ true → Ensures Q m s)
      → (b ≡ false → Ensures Q n s)
      → Ensures Q (if b then m else n) s
  Ensures-if true m n s h k = h refl
  Ensures-if false m n s h k = k refl

module _ {S E A B : Type 0} {Q : B → S → Type 0} where
  -- A first part of known outcome.
  pub Ensures-then :
      (m : Tx S E A) (f : A → Tx S E B) (s s' : S) (a : A)
      → m s ≡ ok (a, s')
      → Ensures Q (f a) s'
      → Ensures Q (m >>= f) s
  Ensures-then m f s s' a e h = record { at = subst (Post Q) (sym (bind_ok m f s s' a e)) h.at }

  pub Ensures-stop :
      (m : Tx S E A) (f : A → Tx S E B) (s : S) (e : E) → m s ≡ err e → Ensures Q (m >>= f) s
  Ensures-stop m f s e h = record { at = subst (Post Q) (sym (bind_err m f s e h)) tt }

  -- A first part of which some property is known.
  rest_of :
      (P : A → S → Type 0) (f : A → Tx S E B) (r : Result E (A × S))
      → Post P r
      → ((a : A) (t : S) → P a t → Ensures Q (f a) t)
      → Post Q (elim r as (λ _. Result E (B × S)) [ ok (a, t) ↦ f a t | err e ↦ err e ])
  rest_of P f (ok (a, t)) h k = (k a t h).at
  rest_of P f (err e) h k = tt

  pub Ensures-bind :
      (P : A → S → Type 0) (m : Tx S E A) (f : A → Tx S E B) (s : S)
      → Ensures P m s
      → ((a : A) (t : S) → P a t → Ensures Q (f a) t)
      → Ensures Q (m >>= f) s
  unfolding ◌>>=◌
  Ensures-bind P m f s h k = record { at = rest_of P f (m s) h.at k }

  pub Ensures-query :
      (g : S → A) (f : A → Tx S E B) (s : S) → Ensures Q (f (g s)) s → Ensures Q (query g >>= f) s
  unfolding ◌>>=◌
  Ensures-query g f s h = record { at = h.at }

  read_then :
      (g : S → Option A) (e : E) (f : A → Tx S E B) (s : S) (o : Option A)
      → g s ≡ o
      → ((a : A) → o ≡ some a → Ensures Q (f a) s)
      → Ensures Q (read g e >>= f) s
  unfolding read
  read_then g e f s none h k = Ensures-stop (read g e) f s e (rw h refl)
  read_then g e f s (some a) h k = Ensures-then (read g e) f s s a (rw h refl) (k a refl)

  pub Ensures-read :
      (g : S → Option A) (e : E) (f : A → Tx S E B) (s : S)
      → ((a : A) → g s ≡ some a → Ensures Q (f a) s)
      → Ensures Q (read g e >>= f) s
  Ensures-read g e f s k = read_then g e f s (g s) refl k

module _ {S E B : Type 0} {Q : B → S → Type 0} where
  pub Ensures-guard :
      (b : Bool) (e : E) (f : Unit {0} → Tx S E B) (s : S)
      → (b ≡ true → Ensures Q (f tt) s)
      → Ensures Q (guard b e >>= f) s
  unfolding ◌>>=◌
  Ensures-guard true e f s k = record { at = (k refl).at }
  Ensures-guard false e f s k = record { at = tt }

-- The outcome of a body, one statement at a time.
module _ {S E A : Type 0} where
  pub read_missing : (g : S → Option A) (e : E) (s : S) → g s ≡ none → read g e s ≡ err e
  unfolding read
  read_missing g e s absent = rw absent refl

  pub read_found :
      (g : S → Option A) (e : E) (s : S) (a : A) → g s ≡ some a → read g e s ≡ ok (a, s)
  unfolding read
  read_found g e s a found = rw found refl

module _ {S E A B : Type 0} where
  pub read_step :
      (g : S → Option A) (e : E) (f : A → Tx S E B) (s : S) (a : A)
      → g s ≡ some a
      → (read g e >>= f) s ≡ f a s
  unfolding read
  read_step g e f s a found = bind_ok (read g e) f s s a (rw found refl)

module _ {S E B : Type 0} where
  pub guard_step :
      (b : Bool) (e : E) (f : Unit {0} → Tx S E B) (s : S) → b ≡ true → (guard b e >>= f) s ≡ f tt s
  unfolding ◌>>=◌
  guard_step b e f s holds = rw holds refl

  pub pure_step : (a : B) (s : S) → pure {E = E} a s ≡ ok (a, s)
  unfolding ◌>>=◌
  pure_step a s = refl

  pub if_true : (b : Bool) (m n : Tx S E B) (s : S) → b ≡ true → (if b then m else n) s ≡ m s
  if_true b m n s holds = rw holds refl

  pub if_false : (b : Bool) (m n : Tx S E B) (s : S) → b ≡ false → (if b then m else n) s ≡ n s
  if_false b m n s fails = rw fails refl

pub guard_ok : {S E : Type 0} (b : Bool) (e : E) (s : S) → b ≡ true → guard b e s ≡ ok (tt, s)
unfolding ◌>>=◌
guard_ok b e s holds = rw holds refl

pub Ensures-last_guard :
    {S E : Type 0} {Q : Unit {0} → S → Type 0} (b : Bool) (e : E) (s : S)
    → (b ≡ true → Q tt s)
    → Ensures Q (guard b e) s
unfolding ◌>>=◌
Ensures-last_guard true e s k = record { at = k refl }
Ensures-last_guard false e s k = record { at = tt }
