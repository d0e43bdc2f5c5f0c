-- ===== src/StateStore/Worker/World.antt =====
-- docker_worker.py: what a pass meets outside of its own code, and calls that may raise.
use failroom.Prelude.{ℕ, suc, String, Option, none, some, text_eq}
use failroom.StateStore.Models.{Code, ResourceRef, Clock}
use failroom.StateStore.Tx.{Db, Tx, Result, ok, err, transaction}

-- CleanupTarget
pub record CleanupTarget : Type 0 where
  pub ref : ResourceRef
  pub container_id : Option String
  pub runtime_operation_id : Option String
  pub operation_id : String

-- How `destroy_and_verify_absent` ends: it returns a digest, or raises RuntimeCleanupError with a
-- code, or any other exception.
pub data Reply : Type 0 where
  evidence : String → Reply
  runtime_error : String → Reply
  exception : Reply

-- The n-th reading of the clock; what other writers do before the n-th transaction; the code of
-- an sqlite3.Error that the n-th transaction meets as it begins; the injected runtime.
pub record Env : Type 0 where
  pub clock : ℕ → Clock
  pub others : ℕ → Db → Db
  pub fault : ℕ → Option Code
  pub runtime : CleanupTarget → Reply

pub record World : Type 0 where
  pub db : Db
  pub readings : ℕ
  pub transactions : ℕ

abbrev pub Job : Type 0 → Type 0
Job A = World → Result A × World

module _ {A : Type 0} where
  abbrev pub pure : A → Job A
  pure a w = (ok a, w)

  abbrev pub raise : Code → Job A
  raise e w = (err e, w)

  abbrev pub lift : Result A → Job A
  lift r w = (r, w)

infixl 5 ◌>>=◌ ◌>>◌
abbrev pub ◌>>=◌ : {A B : Type 0} → Job A → (A → Job B) → Job B
◌>>=◌ m f w = let (r, w') = m w in elim r [ ok a ↦ f a w' | err e ↦ (err e, w') ]

abbrev pub ◌>>◌ : {A B : Type 0} → Job A → Job B → Job B
m >> n = m >>= λ _. n

-- `try: … except StoreError as error: …`
abbrev pub catch : {A : Type 0} → Job A → (Code → Job A) → Job A
catch m handler w = let (r, w') = m w in elim r [ ok a ↦ (ok a, w') | err e ↦ handler e w' ]

module _ (env : Env) where
  unfoldable pub tick : Job Clock
  tick w = (ok (env.clock w.readings), record w { readings = suc w.readings })

  -- One method of a store: its transaction, after what the other writers did. Its clock is read
  -- once, so a reading is counted with it.
  abbrev pub attempt_call : {A : Type 0} → Option Code → Tx A → Db → Result A × Db
  attempt_call none m s = transaction m s
  attempt_call (some e) m s = (err e, s)

  unfoldable pub call : {A : Type 0} → (Clock → Tx A) → Job A
  call m w =
      let (r, s) =
        attempt_call (env.fault w.transactions) (m (env.clock w.readings))
          (env.others w.transactions w.db) in
      (r, record { db = s; readings = suc w.readings; transactions = suc w.transactions })
