-- ===== src/StateStore/Backend/Live.antt =====
-- backend.py: `_stop` and `_live`, and the methods create, inspect, room_id_for_binding, leave.
use failroom.Prelude.{
  ℕ, ◌+◌, String, Bool, true, false, not, ◌&&◌, ◌||◌, Option, none, some, [], ◌∷◌, leb, ◌==◌,
  text_eq, nat_eq, if◌then◌else◌,
}
use failroom.StateStore.Models.{
  invalid_request, attempt_unavailable, Role, Action, state_eq, provisioning, stopping, destroyed,
  UserIdentity, ServiceIdentity, ResourceRef, Receipt, Attempt, Datetime, Clock, pos,
}
use failroom.StateStore.Rows.{AttemptRow, ResourceRow, ending}
use failroom.StateStore.Tx.{Tx, pure, lift, raise_if, commit_denial, or_else, ◌>>=◌, ◌>>◌}
use failroom.StateStore.Libs.{Libs, text, int}
use failroom.StateStore.Sql.{insert_attempt, update_attempt, uuid4, uuid4_hex}
use failroom.StateStore.Common.{
  timestamp, read_clock, identifier, ref_valid, service, user, owned, binding, attempt_record,
  replay, request_hash, ref_values, finish,
}

-- the row of `_stop`: the intents are set, and the first stop ends the terminal sessions
unfoldable pub stopped : Bool → AttemptRow → AttemptRow
stopped expired r = record r {
  state = stopping;
  destroy_intent = true;
  expiry_intent = r.expiry_intent || expired;
  provisioning_intent = false;
  session_epoch = r.session_epoch + (if r.destroy_intent then 0 else 1);
  version = r.version + 1;
}

unfoldable pub stop : AttemptRow → ℕ → Tx (Unit {0})
stop row now =
    let expired = leb row.expires_at now in
    if not (row.state == destroyed) && (not row.destroy_intent || expired && not row.expiry_intent)
    then update_attempt row.attempt_id (stopped expired)
    else pure tt

-- `_live`: past the deadline the stop is committed with the denial.
unfoldable pub live : AttemptRow → ℕ → Tx (Unit {0})
live row now =
    if leb row.expires_at now
    then (stop row now >> commit_denial attempt_unavailable)
    else raise_if (row.destroy_intent || ending row.state) attempt_unavailable

-- the tail of a method: the version and then the state of a resource that it wants
abbrev pub resource_test : Option ResourceRow → (ResourceRow → Bool) → Bool
resource_test none p = false
resource_test (some r) p = p r

module _ ⦃lib : Libs⦄ where
  abbrev pub new_attempt : String → String → String → String → ℕ → ℕ → String → AttemptRow
  new_attempt attempt_id user_id room_id sandbox_id clock deadline runtime_id = record {
    attempt_id = attempt_id;
    user_id = user_id;
    room_id = room_id;
    sandbox_id = sandbox_id;
    generation = 1;
    active_sandbox_id = none;
    active_generation = none;
    candidate_sandbox_id = some sandbox_id;
    candidate_generation = some 1;
    state = provisioning;
    session_epoch = 0;
    version = 0;
    created_at = clock;
    expires_at = deadline;
    provisioning_intent = true;
    reset_intent = false;
    expiry_intent = false;
    destroy_intent = false;
    runtime_operation_id = some runtime_id;
  }

  unfoldable pub create : UserIdentity → String → String → Datetime → Clock → Tx Receipt
  create identity room_id key expires_at now = do
    actor ← lift (user identity room_id)
    lift (identifier room_id)
    deadline ← lift (timestamp expires_at)
    let fingerprint = request_hash "create" (text room_id ∷ int (pos deadline) ∷ [])
    clock ← lift (read_clock now)
    previous ← replay actor key fingerprint
    or_else previous do
      raise_if (leb deadline clock) invalid_request
      attempt_id ← uuid4
      sandbox_id ← uuid4
      runtime_id ← uuid4_hex
      insert_attempt
          (new_attempt attempt_id identity.user_id room_id sandbox_id clock deadline runtime_id)
      finish actor "create" key fingerprint
          (record { attempt_id = attempt_id; sandbox_id = sandbox_id; generation = 1 }) provisioning
          0 none

  unfoldable pub leave : UserIdentity → ResourceRef → String → Clock → Tx Receipt
  leave identity ref key now = do
    lift (ref_valid ref)
    let fingerprint = request_hash "leave" (ref_values ref [])
    clock ← lift (read_clock now)
    row ← owned identity ref.attempt_id
    binding false ref
    actor ← lift (user identity row.room_id)
    previous ← replay actor key fingerprint
    or_else previous do
      stop row clock
      after ← binding false ref
      finish actor "leave" key fingerprint ref after.state after.version none

unfoldable pub inspect : UserIdentity → String → Tx Attempt
inspect identity attempt_id = do row ← owned identity attempt_id; pure (attempt_record row)

unfoldable pub room_id_for_binding : ServiceIdentity → ResourceRef → Tx String
room_id_for_binding identity ref = do
  lift (service identity Role.backend Action.create)
  lift (ref_valid ref)
  row ← binding false ref
  pure row.room_id
