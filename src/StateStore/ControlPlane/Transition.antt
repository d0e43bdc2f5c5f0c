-- ===== src/StateStore/ControlPlane/Transition.antt =====
-- control_plane.py: transition.
use failroom.Prelude.{
  ℕ, ◌+◌, String, Bool, true, false, not, ◌&&◌, ◌||◌, Option, none, some, List, [], ◌∷◌, leb, ◌==◌,
  text_eq, nat_eq, if◌then◌else◌,
}
use failroom.StateStore.Models.{
  invalid_request, invalid_transition, Role, Action, State, state_eq, provisioning, requested,
  creating, starting, ready, running, resolved, resetting, stopping, failed, destroyed,
  ServiceIdentity, ResourceRef, Receipt, Clock, ℤ,
}
use failroom.StateStore.Rows.{AttemptRow, ResourceRow, OperationRow, succeeded, is_null, ending}
use failroom.StateStore.Tx.{Tx, pure, raise, lift, raise_if, or_else, ◌>>=◌, ◌>>◌}
use failroom.StateStore.Libs.{Libs, Value, text, int, text_or_null}
use failroom.StateStore.Sql.{update_resource, update_operation, operation_key}
use failroom.StateStore.Common.{
  read_clock, identifier, ref_valid, service, binding, is_current, is_active, replay, request_hash,
  ref_values, finish, cas, digest,
}
use failroom.StateStore.ControlPlane.Base.{next, resource, live}

abbrev pub is_resource_state : State → Bool
is_resource_state provisioning = false
is_resource_state resetting = false
is_resource_state _ = true

unfoldable pub is_error_code : String → Bool
is_error_code c =
    c == "CREATE_FAILED"
    || c == "START_FAILED"
    || c == "RUNTIME_UNAVAILABLE"
    || c == "CLEANUP_INCOMPLETE"

abbrev pub error_code_fits : State → Option String → Bool
error_code_fits failed none = false
error_code_fits failed (some c) = is_error_code c
error_code_fits _ c = is_null c

-- the states whose evidence is a digest; the others take none
abbrev pub wants_evidence : State → Bool
wants_evidence ready = true
wants_evidence resolved = true
wants_evidence destroyed = true
wants_evidence _ = false

abbrev pub check_evidence : State → Option String → Tx (Unit {0})
check_evidence state evidence =
    if wants_evidence state
    then (lift (digest evidence) >> pure tt)
    else raise_if (not (is_null evidence)) invalid_request

abbrev pub check_identifier : Option String → Tx (Unit {0})
check_identifier none = raise invalid_request
check_identifier (some id) = lift (identifier id) >> pure tt

abbrev pub check_container : State → Option String → Tx (Unit {0})
check_container state container_id =
    if state == starting
    then check_identifier container_id
    else raise_if (not (is_null container_id)) invalid_request

unfoldable pub check_arguments :
    State → Option String → Option String → Option String → Tx (Unit {0})
check_arguments state container_id evidence error_code = do
  raise_if (not (is_resource_state state)) invalid_request
  raise_if (not (error_code_fits state error_code)) invalid_request
  check_evidence state evidence
  check_container state container_id

-- a move towards removal, which an ended attempt still admits
unfoldable pub is_cleanup : State → ResourceRow → Bool
is_cleanup state r = state == stopping || state == destroyed || state == failed && r.destroy_intent

-- `coalesce(?, column)`
abbrev pub coalesce : Option String → Option String → Option String
coalesce none old = old
coalesce (some x) old = some x

-- the states that set `destroy_intent`
abbrev pub destroys : State → Bool
destroys = ending

abbrev pub evidence_for_state : State → Option String → Option String
evidence_for_state ready e = e
evidence_for_state resolved e = e
evidence_for_state _ e = none

abbrev pub evidence_of_cleanup : State → Option String → Option String
evidence_of_cleanup destroyed e = e
evidence_of_cleanup _ e = none

unfoldable pub moved : State → Option String → Option String → Bool → ResourceRow → ResourceRow
moved state container_id evidence expired r = record r {
  state = state;
  version = r.version + 1;
  container_id = coalesce container_id r.container_id;
  destroy_intent = r.destroy_intent || destroys state;
  expiry_intent = r.expiry_intent || expired;
  evidence_digest = coalesce (evidence_for_state state evidence) r.evidence_digest;
  cleanup_evidence_digest = coalesce (evidence_of_cleanup state evidence) r.cleanup_evidence_digest;
}

abbrev pub cleanup_actor : String
cleanup_actor = "internal:cleanup"

abbrev pub cleanup_done : ℕ → OperationRow → OperationRow
cleanup_done version o = record o {
  status = succeeded;
  result_state = destroyed;
  result_version = version;
  error_code = none;
}

abbrev pub settle_cleanup : State → String → ℕ → Tx (Unit {0})
settle_cleanup state sandbox_id version =
    if state == destroyed
    then update_operation (operation_key cleanup_actor sandbox_id) (cleanup_done version)
    else pure tt

abbrev pub live_unless : Bool → AttemptRow → ResourceRow → ℕ → Tx (Unit {0})
live_unless cleanup attempt r clock = if cleanup then pure tt else live attempt (some r) clock

-- Python names of the states, `state.value`
abbrev pub state_value : State → String
state_value provisioning = "PROVISIONING"
state_value requested = "REQUESTED"
state_value creating = "CREATING"
state_value starting = "STARTING"
state_value ready = "READY"
state_value running = "RUNNING"
state_value resolved = "RESOLVED"
state_value resetting = "RESETTING"
state_value stopping = "STOPPING"
state_value failed = "FAILED"
state_value destroyed = "DESTROYED"

-- the keyword arguments of `transition`
pub record Move : Type 0 where
  pub expected_version : ℤ
  pub state : State
  pub container_id : Option String
  pub evidence_digest : Option String
  pub error_code : Option String

abbrev pub move_values : Move → List Value
move_values m =
    int m.expected_version
    ∷ text (state_value m.state)
    ∷ text_or_null m.container_id
    ∷ text_or_null m.evidence_digest
    ∷ text_or_null m.error_code
    ∷ []

module _ ⦃lib : Libs⦄ where
  -- the statements of `transition` that write
  unfoldable pub write_move : String → String → String → ResourceRef → Move → Bool → ℕ → Tx Receipt
  write_move actor key fingerprint ref m expired version = do
    update_resource ref.sandbox_id (moved m.state m.container_id m.evidence_digest expired)
    settle_cleanup m.state ref.sandbox_id (version + 1)
    finish actor "transition" key fingerprint ref m.state (version + 1) m.error_code

  -- the part of `transition` for a request that was not made before
  unfoldable pub apply_move :
      String → String → String → ResourceRef → Move → AttemptRow → ResourceRow → ℕ → Tx Receipt
  apply_move actor key fingerprint ref m attempt r clock = do
    version ← lift (cas r.version m.expected_version)
    raise_if (not (next r.state m.state)) invalid_transition
    let expired = leb r.expires_at clock || attempt.expiry_intent
    write_move actor key fingerprint ref m expired version

  unfoldable pub transition : ServiceIdentity → ResourceRef → Move → String → Clock → Tx Receipt
  transition identity ref m key now = do
    actor ← lift (service identity Role.control_plane Action.transition)
    lift (ref_valid ref)
    check_arguments m.state m.container_id m.evidence_digest m.error_code
    let fingerprint = request_hash "transition" (ref_values ref (move_values m))
    clock ← lift (read_clock now)
    attempt ← binding true ref
    r ← resource ref
    let cleanup = is_cleanup m.state r
    raise_if (is_active ref attempt && not (is_current ref attempt) && not cleanup)
        invalid_transition
    live_unless cleanup attempt r clock
    previous ← replay actor key fingerprint
    or_else previous (apply_move actor key fingerprint ref m attempt r clock)
