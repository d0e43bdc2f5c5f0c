-- ===== src/Rooms/Acts.antt =====
-- Calls of a service, which may raise its own errors and those of the store.
use failroom.Prelude.{Bool, true, false}
use failroom.Prelude.Answers.{Answer, returns, raises}
use failroom.StateStore.Models.{Code}
use failroom.StateStore.Tx.{Result, ok, err}
use failroom.StateStore.Worker.World.{World, Job}

abbrev pub Act : Type 0 → Type 0 → Type 0
Act E A = World → Answer E A × World

module _ {E A : Type 0} where
  abbrev pub pure : A → Act E A
  pure a w = (returns a, w)

  abbrev pub raise : E → Act E A
  raise e w = (raises e, w)

  -- `if c: raise Error(e)`, and then the rest
  abbrev pub unless : Bool → E → Act E A → Act E A
  unless true e m = raise e
  unless false e m = m

  -- a call of the store, with what becomes of its StoreError
  abbrev pub answer_of : (Code → E) → Result A → Answer E A
  answer_of f (ok a) = returns a
  answer_of f (err e) = raises (f e)

  abbrev pub store : (Code → E) → Job A → Act E A
  store f m w = let (r, w') = m w in (answer_of f r, w')

infixl 5 ◌>>=◌ ◌>>◌
abbrev pub ◌>>=◌ : {E A B : Type 0} → Act E A → (A → Act E B) → Act E B
◌>>=◌ m f w = let (r, w') = m w in elim r [ returns a ↦ f a w' | raises e ↦ (raises e, w') ]

abbrev pub ◌>>◌ : {E A B : Type 0} → Act E A → Act E B → Act E B
m >> n = m >>= λ _. n

-- `try: … except …: …`, where the handler may raise again
abbrev pub catch : {E F A : Type 0} → Act E A → (E → Act F A) → Act F A
catch m handler w =
    let (r, w') = m w in elim r [ returns a ↦ (returns a, w') | raises e ↦ handler e w' ]
