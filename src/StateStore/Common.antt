-- ===== src/StateStore/Common.antt =====
-- common.py: what reads and writes the tables: ownership, the binding of references, and the log
-- of operations.
mod Checks
unfoldable pub use Checks.*
use failroom.Prelude.{
  ℕ, String, Bool, Option, none, some, List, [], ◌∷◌, ◌==◌, text_eq, nat_eq, if◌then◌else◌,
}
use failroom.StateStore.Models.{State, UserIdentity, ResourceRef, Receipt, Attempt, pos}
use failroom.StateStore.Rows.{AttemptRow, OperationRow, succeeded}
use failroom.StateStore.Tx.{Tx, pure, lift, reads, ◌>>=◌, ◌>>◌}
use failroom.StateStore.Libs.{Libs, Value, text, int}
use failroom.StateStore.Sql.{attempt_of, operation_of, insert_operation, uuid4}

unfoldable pub owned : UserIdentity → String → Tx AttemptRow
owned identity attempt_id = do
  lift (identifier attempt_id)
  reads (λ s. owner_check identity (attempt_of s attempt_id))

unfoldable pub binding : Bool → ResourceRef → Tx AttemptRow
binding allow_active ref = do
  lift (ref_valid ref)
  reads (λ s. binding_check allow_active ref (attempt_of s ref.attempt_id))

-- `None` for a key that is new; the logged receipt for the same request.
unfoldable pub replay : String → String → String → Tx (Option Receipt)
replay actor key fingerprint = do
  lift (identifier key)
  reads (λ s. logged_answer fingerprint (operation_of s actor key))

-- `str(x) if x else None` and `int(x) if x else None`: the empty text and 0 read as None
abbrev pub text_column : Option String → Option String
text_column none = none
text_column (some s) = if s == "" then none else some s

abbrev pub int_column : Option ℕ → Option ℕ
int_column none = none
int_column (some n) = if n == 0 then none else some n

unfoldable pub attempt_record : AttemptRow → Attempt
attempt_record row = record {
  ref = row_ref row;
  room_id = row.room_id;
  state = row.state;
  active_sandbox_id = text_column row.active_sandbox_id;
  active_generation = int_column row.active_generation;
  candidate_sandbox_id = text_column row.candidate_sandbox_id;
  candidate_generation = int_column row.candidate_generation;
  session_epoch = row.session_epoch;
  version = row.version;
  expires_at = instant row.expires_at;
  provisioning_intent = row.provisioning_intent;
  reset_intent = row.reset_intent;
  expiry_intent = row.expiry_intent;
  destroy_intent = row.destroy_intent;
}

-- the values [attempt_id, sandbox_id, generation, …] of a fingerprint
abbrev pub ref_values : ResourceRef → List Value → List Value
ref_values ref rest = text ref.attempt_id ∷ text ref.sandbox_id ∷ int (pos ref.generation) ∷ rest

module _ ⦃lib : Libs⦄ where
  unfoldable pub request_hash : String → List Value → String
  request_hash action values = lib.sha256 (lib.dumps action values)

  abbrev pub operation_row :
      String
      → String
      → String
      → String
      → String
      → ResourceRef
      → State
      → ℕ
      → Option String
      → OperationRow
  operation_row id actor action key fingerprint ref state version error_code = record {
    operation_id = id;
    actor = actor;
    action = action;
    idempotency_key = key;
    request_hash = fingerprint;
    attempt_id = ref.attempt_id;
    sandbox_id = ref.sandbox_id;
    generation = ref.generation;
    status = succeeded;
    result_state = state;
    result_version = version;
    retry_count = 0;
    retry_at = 0;
    error_code = error_code;
  }

  unfoldable pub finish :
      String → String → String → String → ResourceRef → State → ℕ → Option String → Tx Receipt
  finish actor action key fingerprint ref state version error_code = do
    id ← uuid4
    insert_operation (operation_row id actor action key fingerprint ref state version error_code)
    pure (record { operation_id = id; ref = ref; state = state; version = version })
