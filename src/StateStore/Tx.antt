-- ===== src/StateStore/Tx.antt =====
-- database.py: what a transaction may do. `done` commits; `fail` is a StoreError or an
-- sqlite3.Error, which rolls back; `deny` is a CommitDenial, which commits and then raises.
pub mod Rules
use failroom.Prelude.{
  ℕ, ◌+◌, suc, ◌≡◌, refl, String, Bool, true, false, Option, none, some, List, [], if◌then◌else◌,
}
use failroom.StateStore.Models.{Code}
use failroom.StateStore.Rows.{AttemptRow, ResourceRow, CapabilityRow, OperationRow, LeaseRow}

-- The five tables, and the number of UUIDs drawn by the transactions committed so far.
pub record Db : Type 0 where
  pub attempts : List AttemptRow
  pub resources : List ResourceRow
  pub uses : List CapabilityRow
  pub operations : List OperationRow
  pub leases : List LeaseRow
  pub drawn : ℕ

abbrev pub empty_db : Db
empty_db = record {
  attempts = [];
  resources = [];
  uses = [];
  operations = [];
  leases = [];
  drawn = 0;
}

pub data Result (A : Type 0) : Type 0 where
  ok : A → Result A
  err : Code → Result A

pub data Outcome (A : Type 0) : Type 0 where
  done : A → Db → Outcome A
  fail : Code → Outcome A
  deny : Code → Db → Outcome A

abbrev pub Tx : Type 0 → Type 0
Tx A = Db → Outcome A

module _ {A : Type 0} where
  abbrev pub pure : A → Tx A
  pure a s = done a s

  abbrev pub raise : Code → Tx A
  raise e s = fail e

  -- `raise CommitDenial(e)`
  abbrev pub commit_denial : Code → Tx A
  commit_denial e s = deny e s

  abbrev pub lift : Result A → Tx A
  lift (ok a) s = done a s
  lift (err e) s = fail e

  abbrev pub gets : (Db → A) → Tx A
  gets f s = done (f s) s

  -- a check of rows that the tables hold
  abbrev pub reads : (Db → Result A) → Tx A
  reads f s = lift (f s) s

  -- `if row is None: raise StoreError(e)`
  abbrev pub or_raise : Option A → Code → Tx A
  or_raise none e = raise e
  or_raise (some a) e = pure a

  -- `if previous is not None: return previous`
  abbrev pub or_else : Option A → Tx A → Tx A
  or_else (some a) m = pure a
  or_else none m = m

infixl 5 ◌>>=◌ ◌>>◌
abbrev pub ◌>>=◌ : {A B : Type 0} → Tx A → (A → Tx B) → Tx B
◌>>=◌ m f s = elim (m s) [ done a s' ↦ f a s' | fail e ↦ fail e | deny e s' ↦ deny e s' ]

abbrev pub ◌>>◌ : {A B : Type 0} → Tx A → Tx B → Tx B
m >> n = m >>= λ _. n

-- `if c: raise StoreError(e)`
abbrev pub raise_if : Bool → Code → Tx (Unit {0})
raise_if true e s = fail e
raise_if false e s = done tt s

-- `with self._database._transaction()`: the result and the tables that stand afterwards.
unfoldable pub transaction : {A : Type 0} → Tx A → Db → Result A × Db
transaction m s = elim (m s) [
  | done a s' ↦ (ok a, s')
  | fail e ↦ (err e, s)
  | deny e s' ↦ (err e, s')
]
