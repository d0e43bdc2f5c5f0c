-- ===== src/StateStore/Tx/Rules.antt =====
-- What a transaction does to the tables: a relation between those before it and those it commits,
-- with a rule for each way to build an action. A rollback commits nothing.
use failroom.Prelude.{Option, none, some, Bool, true, false, if◌then◌else◌, ◌≡◌, refl, arith}
use failroom.StateStore.Models.{Code}
use failroom.StateStore.Tx.{
  Db, Tx, Result, ok, err, Outcome, done, fail, deny, pure, raise, lift, reads, gets, raise_if,
  or_raise, commit_denial, or_else, ◌>>=◌, transaction,
}

-- the tables that an outcome commits are related to those before it
abbrev pub After : {A : Type 0} → (Db → Db → Type 0) → Db → Outcome A → Type 0
After R s (done a s') = R s s'
After R s (fail e) = Unit
After R s (deny e s') = R s s'

pub record Keeps {A : Type 0} (R : Db → Db → Type 0) (m : Tx A) : Type 0 where
  pub at : (s : Db) → After R s (m s)

pub record IsPreorder (R : Db → Db → Type 0) : Type 0 where
  pub same : (s : Db) → R s s
  pub then_ : (s t u : Db) → R s t → R t u → R s u

module _ {R : Db → Db → Type 0} (P : IsPreorder R) where
  module _ {A : Type 0} where
    pub Keeps-pure : (a : A) → Keeps R (pure a)
    Keeps-pure a = record { at = λ s. P.same s }

    pub Keeps-raise : (e : Code) → Keeps R (raise {A = A} e)
    Keeps-raise e = record { at = λ s. tt }

    pub Keeps-commit_denial : (e : Code) → Keeps R (commit_denial {A = A} e)
    Keeps-commit_denial e = record { at = λ s. P.same s }

    pub Keeps-lift : (r : Result A) → Keeps R (lift r)
    Keeps-lift (ok a) = record { at = λ s. P.same s }
    Keeps-lift (err e) = record { at = λ s. tt }

    reads-after : (s : Db) (r : Result A) → After R s (lift r s)
    reads-after s (ok a) = P.same s
    reads-after s (err e) = tt

    pub Keeps-reads : (f : Db → Result A) → Keeps R (reads f)
    Keeps-reads f = record { at = λ s. reads-after s (f s) }

    pub Keeps-gets : (f : Db → A) → Keeps R (gets f)
    Keeps-gets f = record { at = λ s. P.same s }

    pub Keeps-or_raise : (o : Option A) (e : Code) → Keeps R (or_raise o e)
    Keeps-or_raise none e = record { at = λ s. tt }
    Keeps-or_raise (some a) e = record { at = λ s. P.same s }

    pub Keeps-or_else : (o : Option A) (m : Tx A) → Keeps R m → Keeps R (or_else o m)
    Keeps-or_else none m k = k
    Keeps-or_else (some a) m k = record { at = λ s. P.same s }

    pub Keeps-if : (b : Bool) (m n : Tx A) → Keeps R m → Keeps R n → Keeps R (if b then m else n)
    Keeps-if true m n k l = k
    Keeps-if false m n k l = l

  pub Keeps-raise_if : (b : Bool) (e : Code) → Keeps R (raise_if b e)
  Keeps-raise_if true e = record { at = λ s. tt }
  Keeps-raise_if false e = record { at = λ s. P.same s }

  module _ {A B : Type 0} where
    after-bind :
        (s : Db) (o : Outcome A) (f : A → Tx B)
        → After R s o
        → ((a : A) → Keeps R (f a))
        → After R s (◌>>=◌ (λ (_ : Db). o) f s)
    after-bind s (done a t) f h k = go (f a t) ((k a).at t)
      where
        go : (o : Outcome B) → After R t o → After R s o
        go (done b u) l = P.then_ s t u h l
        go (fail e) l = tt
        go (deny e u) l = P.then_ s t u h l
    after-bind s (fail e) f h k = tt
    after-bind s (deny e t) f h k = h

    pub Keeps-bind :
        (m : Tx A) (f : A → Tx B) → Keeps R m → ((a : A) → Keeps R (f a)) → Keeps R (m >>= f)
    Keeps-bind m f h k = record { at = λ s. after-bind s (m s) f (h.at s) k }

  after-transaction :
      {A : Type 0} (s : Db) (o : Outcome A) → After R s o → R s (transaction (λ (_ : Db). o) s).1
  unfolding transaction
  after-transaction s (done a t) h = h
  after-transaction s (fail e) h = P.same s
  after-transaction s (deny e t) h = h

  -- What a committed transaction does, a transaction does.
  pub Keeps-transaction : {A : Type 0} (m : Tx A) (s : Db) → Keeps R m → R s (transaction m s).1
  unfolding transaction
  Keeps-transaction m s k = after-transaction s (m s) (k.at s)

-- A transaction that returns has run to its end.
pub transaction-done :
    {A : Type 0} (m : Tx A) (s s' : Db) (a : A) → transaction m s ≡ (ok a, s') → m s ≡ done a s'
unfolding transaction
transaction-done m s s' a h = ground arith

-- A block that returned has run its first statement, and then the rest.
pub bind-done :
    {A B : Type 0} (m : Tx A) (f : A → Tx B) (s t : Db) (b : B)
    → (m >>= f) s ≡ done b t
    → (a : A) × (s' : Db) × (m s ≡ done a s') × (f a s' ≡ done b t)
bind-done {A} {B} m f s t b h = go (m s) refl h
  where
    go :
        (o : Outcome A)
        → m s ≡ o
        → ◌>>=◌ (λ (_ : Db). o) f s ≡ done b t
        → (a : A) × (s' : Db) × (m s ≡ done a s') × (f a s' ≡ done b t)
    go (done a s') e k = (a, s', e, k)
    go (fail x) e k = cc
    go (deny x s') e k = cc
