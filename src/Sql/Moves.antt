-- ===== src/Sql/Moves.antt =====
-- How a transaction that commits moves the database: a relation for every statement, kept along the
-- body by reflexivity and transitivity.
use repolens.Base.{◌≡◌, subst, Bool, true, false, if◌then◌else◌, Option, none, some}
use repolens.Sql.Result.{Result, ok, err, Tx, pure, fail, query, guard, ◌>>=◌}

pub record IsPreorder {S : Type 0} (R : S → S → Type 0) : Type 0 where
  pub same : (s : S) → R s s
  pub follow : (s t u : S) → R s t → R t u → R s u

-- What is said of an outcome: nothing of an error, whose writes are rolled back.
abbrev pub Outcome : {S E A : Type 0} → (S → S → Type 0) → S → Result E (A × S) → Type 0
Outcome R s (ok (a, s')) = R s s'
Outcome R s (err e) = Unit

pub record Moves {S E A : Type 0} (R : S → S → Type 0) (m : Tx S E A) : Type 0 where
  pub at : (s : S) → Outcome R s (m s)

pub Moves-ok :
    {S E A : Type 0} {R : S → S → Type 0} (m : Tx S E A)
    → Moves R m
    → (s s' : S) (a : A) → m s ≡ ok (a, s')
    → R s s'
Moves-ok {R} m h s s' a e = subst (Outcome R s) e (h.at s)

module _ {S E A : Type 0} {R : S → S → Type 0} (o : IsPreorder R) where
  pub Moves-pure : (a : A) → Moves {E = E} R (pure a)
  unfolding ◌>>=◌
  Moves-pure a = record { at = λ s. o.same s }

  pub Moves-query : (f : S → A) → Moves {E = E} R (query f)
  unfolding ◌>>=◌
  Moves-query f = record { at = λ s. o.same s }

module _ {S E A : Type 0} {R : S → S → Type 0} where
  pub Moves-fail : (e : E) → Moves {A = A} R (fail e)
  unfolding ◌>>=◌
  Moves-fail e = record { at = λ s. tt }

  pub Moves-if : (b : Bool) (m n : Tx S E A) → Moves R m → Moves R n → Moves R (if b then m else n)
  Moves-if true m n h k = h
  Moves-if false m n h k = k

  pub Moves-Option :
      {X : Type 0} (x : Option X) (m : Tx S E A) (f : X → Tx S E A)
      → Moves R m
      → ((a : X) → Moves R (f a))
      → Moves R (elim x [ none ↦ m | some a ↦ f a ])
  Moves-Option none m f h k = h
  Moves-Option (some a) m f h k = k a

pub Outcome-map :
    {S E A : Type 0} (Q R : S → S → Type 0) (s s' : S) (r : Result E (A × S))
    → ((t : S) → Q s t → R s' t)
    → Outcome Q s r
    → Outcome R s' r
Outcome-map Q R s s' (ok (a, t)) f h = f t h
Outcome-map Q R s s' (err e) f h = tt

-- At one state.
module _ {S E A : Type 0} (R : S → S → Type 0) where
  pub Outcome-if :
      (b : Bool) (m n : Tx S E A) (s : S)
      → Outcome R s (m s)
      → Outcome R s (n s)
      → Outcome R s ((if b then m else n) s)
  Outcome-if true m n s h k = h
  Outcome-if false m n s h k = k

  pub Outcome-Option :
      {X : Type 0} (x : Option X) (m : Tx S E A) (f : X → Tx S E A) (s : S)
      → Outcome R s (m s)
      → ((a : X) → Outcome R s (f a s))
      → Outcome R s ((elim x as (λ _. Tx S E A) [ none ↦ m | some a ↦ f a ]) s)
  Outcome-Option none m f s h k = h
  Outcome-Option (some a) m f s h k = k a

module _ {S E : Type 0} {R : S → S → Type 0} (o : IsPreorder R) where
  pub Moves-guard : (b : Bool) (e : E) → Moves R (guard b e)
  unfolding ◌>>=◌
  Moves-guard true e = record { at = λ s. o.same s }
  Moves-guard false e = record { at = λ s. tt }

module _ {S E B : Type 0} {R : S → S → Type 0} (o : IsPreorder R) where
  widen : (s s' : S) (r : Result E (B × S)) → R s s' → Outcome R s' r → Outcome R s r
  widen s s' (ok (b, s'')) h k = o.follow s s' s'' h k
  widen s s' (err e) h k = tt

module _ {S E A B : Type 0} {R : S → S → Type 0} (o : IsPreorder R) where
  rest-Moves :
      (f : A → Tx S E B) (s : S) (r : Result E (A × S))
      → ((a : A) → Moves R (f a))
      → Outcome R s r
      → Outcome R s (elim r [ ok (a, s') ↦ f a s' | err e ↦ err e ])
  rest-Moves f s (err e) k h = tt
  rest-Moves f s (ok (a, s')) k h = widen o s s' (f a s') h ((k a).at s')

  pub Moves-bind :
      (m : Tx S E A) (f : A → Tx S E B) → Moves R m → ((a : A) → Moves R (f a)) → Moves R (m >>= f)
  unfolding ◌>>=◌
  Moves-bind m f h k = record { at = λ s. rest-Moves f s (m s) k (h.at s) }

  rest-Outcome :
      (Q : S → S → Type 0) (f : A → Tx S E B) (s : S) (r : Result E (A × S))
      → ((t : S) → Q s t → R s t)
      → Outcome Q s r
      → ((a : A) (t : S) → Q s t → Outcome R t (f a t))
      → Outcome R s (elim r [ ok (a, t) ↦ f a t | err e ↦ err e ])
  rest-Outcome Q f s (err e) weaker first rest = tt
  rest-Outcome Q f s (ok (a, t)) weaker first rest =
      widen o s t (f a t) (weaker t first) (rest a t first)

  -- A body at one state, whose rest may use how the first part moved it.
  pub Outcome-bind :
      (Q : S → S → Type 0) (m : Tx S E A) (f : A → Tx S E B) (s : S)
      → ((t : S) → Q s t → R s t)
      → Outcome Q s (m s)
      → ((a : A) (t : S) → Q s t → Outcome R t (f a t))
      → Outcome R s ((m >>= f) s)
  unfolding ◌>>=◌
  Outcome-bind Q m f s weaker first rest = rest-Outcome Q f s (m s) weaker first rest
