-- ===== src/Sql/Result.antt =====
-- Errors as values, transactions, and what a caller may see of a transaction's outcome.
use repolens.Base.{◌≡◌, ap, Bool, true, false}

pub data Result (E A : Type 0) : Type 0 where
  ok : A → Result E A
  err : E → Result E A

-- The body of a transaction over a database `S`: an error drops what it wrote.
abbrev pub Tx : Type 0 → Type 0 → Type 0 → Type 0
Tx S E A = S → Result E (A × S)

module _ {S E A : Type 0} where
  pub pure : A → Tx S E A
  pure a s = ok (a, s)

  pub fail : E → Tx S E A
  fail e s = err e

  -- A `SELECT`, which changes nothing.
  pub query : (S → A) → Tx S E A
  query f s = ok (f s, s)

pub guard : {S E : Type 0} → Bool → E → Tx S E (Unit {0})
unfolding pure fail
guard true e = pure tt
guard false e = fail e

module _ {S E A B : Type 0} where
  infixl 5 ◌>>=◌ ◌>>◌
  -- Opening this opens `pure`, `fail`, `query` and `guard` too.
  unfoldable pub ◌>>=◌ : Tx S E A → (A → Tx S E B) → Tx S E B
  unfolding pure fail query guard
  ◌>>=◌ m f s = elim (m s) [ ok (a, s') ↦ f a s' | err e ↦ err e ]

  -- A first part that succeeds, and what follows it.
  pub bind_ok :
      (m : Tx S E A) (f : A → Tx S E B) (s s' : S) (a : A) → m s ≡ ok (a, s') → (m >>= f) s ≡ f a s'
  unfolding ◌>>=◌
  bind_ok m f s s' a first =
      ap
        (λ (o : Result E (A × S)). elim o as (λ _. Result E (B × S)) [
          | ok (b, t) ↦ f b t
          | err e ↦ err e
        ])
        first

  pub bind_err :
      (m : Tx S E A) (f : A → Tx S E B) (s : S) (e : E) → m s ≡ err e → (m >>= f) s ≡ err e
  unfolding ◌>>=◌
  bind_err m f s e failed =
      ap
        (λ (o : Result E (A × S)). elim o as (λ _. Result E (B × S)) [
          | ok (b, t) ↦ f b t
          | err d ↦ err d
        ])
        failed

  abbrev pub ◌>>◌ : Tx S E A → Tx S E B → Tx S E B
  m >> k = m >>= λ _. k

-- What the network and the driver make of a transaction. `aborted`: a statement or the commit
-- fails and nothing is applied. `lost_ack`: the commit is applied and its answer is an error.
pub data Delivery : Type 0 where
  delivered lost_ack aborted : Delivery

-- `BeginTx`, the body, and `Commit` or the deferred `Rollback`, under a driver error `fault`.
unfoldable pub transact : {S E A : Type 0} → E → Delivery → Tx S E A → S → Result E A × S
transact fault delivered m s = elim (m s) [ ok (a, s') ↦ (ok a, s') | err e ↦ (err e, s) ]
transact fault lost_ack m s = elim (m s) [ ok (a, s') ↦ (err fault, s') | err e ↦ (err e, s) ]
transact fault aborted m s = (err fault, s)
