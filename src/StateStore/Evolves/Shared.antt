-- ===== src/StateStore/Evolves/Shared.antt =====
-- common.py: its helpers, against Steps, and the rules by which `search` goes on.
use failroom.Prelude.{String, Option, Bool, ℕ}
use failroom.StateStore.Models.{UserIdentity, ResourceRef, State}
use failroom.StateStore.Rows.{CapabilityRow, LeaseRow, OperationRow}
use failroom.StateStore.Tx.Rules.{
  Keeps, Keeps-pure, Keeps-raise, Keeps-commit_denial, Keeps-lift, Keeps-gets, Keeps-or_raise,
  Keeps-or_else, Keeps-if, Keeps-raise_if, Keeps-bind, Keeps-reads,
}
use failroom.StateStore.Libs.{Libs}
use failroom.StateStore.Sql.{
  select_operation, select_attempt, select_resource, select_use, select_lease, select_operation_by,
}
use failroom.StateStore.Common.{owned, binding, replay, finish}
use failroom.StateStore.Evolves.Steps.{Steps, Steps-IsPreorder, Steps-refl}
use failroom.StateStore.Evolves.Writes.{
  Keeps-insert_attempt, Keeps-insert_resource, Keeps-insert_operation, Keeps-insert_use,
  Keeps-insert_lease, Keeps-update_attempt, Keeps-update_resource, Keeps-uuid4, Keeps-uuid4_hex,
}

pub ruleset flow = (
  Steps-IsPreorder, Keeps-pure, Keeps-raise, Keeps-commit_denial, Keeps-lift, Keeps-gets,
  Keeps-or_raise, Keeps-or_else, Keeps-if, Keeps-raise_if, Keeps-bind, Keeps-reads,
)

pub Keeps-select_attempt : (id : String) → Keeps Steps (select_attempt id)
Keeps-select_attempt id = record { at = λ s. Steps-refl s }

pub Keeps-select_resource : (id : String) → Keeps Steps (select_resource id)
Keeps-select_resource id = record { at = λ s. Steps-refl s }

pub Keeps-select_operation : (actor key : String) → Keeps Steps (select_operation actor key)
Keeps-select_operation actor key = record { at = λ s. Steps-refl s }

pub Keeps-select_operation_by : (p : OperationRow → Bool) → Keeps Steps (select_operation_by p)
Keeps-select_operation_by p = record { at = λ s. Steps-refl s }

pub Keeps-select_use : (p : CapabilityRow → Bool) → Keeps Steps (select_use p)
Keeps-select_use p = record { at = λ s. Steps-refl s }

pub Keeps-select_lease : (p : LeaseRow → Bool) → Keeps Steps (select_lease p)
Keeps-select_lease p = record { at = λ s. Steps-refl s }

pub Keeps-owned : (i : UserIdentity) (id : String) → Keeps Steps (owned i id)
unfolding owned
Keeps-owned i id = search flow depth 20

pub Keeps-binding : (b : Bool) (ref : ResourceRef) → Keeps Steps (binding b ref)
unfolding binding
Keeps-binding b ref = search flow depth 20

pub Keeps-replay : (actor key fingerprint : String) → Keeps Steps (replay actor key fingerprint)
unfolding replay
Keeps-replay actor key fingerprint = search flow depth 20

module _ ⦃lib : Libs⦄ where
  pub Keeps-finish :
      (actor action key fingerprint : String) (ref : ResourceRef) (state : State) (version : ℕ)
      (error_code : Option String)
      → Keeps Steps (finish actor action key fingerprint ref state version error_code)
  unfolding finish
  Keeps-finish actor action key fingerprint ref state version error_code =
      search (flow, Keeps-uuid4, Keeps-insert_operation) depth 20

-- The rules for what a method does once it is authorised.
pub ruleset evolving = (
  Steps-IsPreorder, Keeps-pure, Keeps-raise, Keeps-commit_denial, Keeps-lift, Keeps-gets,
  Keeps-or_raise, Keeps-or_else, Keeps-if, Keeps-raise_if, Keeps-bind, Keeps-reads,
  Keeps-select_attempt, Keeps-select_resource, Keeps-select_operation, Keeps-select_operation_by,
  Keeps-select_use, Keeps-select_lease, Keeps-owned, Keeps-binding, Keeps-replay, Keeps-finish,
  Keeps-insert_attempt, Keeps-insert_resource, Keeps-insert_operation, Keeps-insert_use,
  Keeps-insert_lease, Keeps-update_attempt, Keeps-update_resource, Keeps-uuid4, Keeps-uuid4_hex,
)
