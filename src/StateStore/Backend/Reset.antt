-- ===== src/StateStore/Backend/Reset.antt =====
-- backend.py: begin_reset, publish_reset_ready and fail_reset.
use failroom.Prelude.{
  ℕ, ◌+◌, String, Bool, true, false, not, ◌&&◌, Option, none, some, [], ◌∷◌, leb, ◌==◌, has,
  text_eq, nat_eq, if◌then◌else◌,
}
use failroom.StateStore.Models.{
  attempt_unavailable, invalid_transition, Role, Action, state_eq, ready, resetting, failed,
  destroyed, UserIdentity, ServiceIdentity, ResourceRef, Receipt, Clock, ℤ,
}
use failroom.StateStore.Rows.{AttemptRow, ResourceRow, is_null, in_use}
use failroom.StateStore.Tx.{Tx, pure, lift, raise_if, commit_denial, or_else, ◌>>=◌, ◌>>◌}
use failroom.StateStore.Libs.{Libs, int}
use failroom.StateStore.Sql.{select_resource, update_attempt, uuid4, uuid4_hex}
use failroom.StateStore.Common.{
  read_clock, ref_valid, service, user, owned, binding, is_active, replay, request_hash, ref_values,
  finish, cas,
}
use failroom.StateStore.Backend.Live.{stop, resource_test}

unfoldable pub reset_allowed : AttemptRow → ResourceRef → Bool
reset_allowed row ref = in_use row.state && not row.destroy_intent && is_active ref row

-- past the deadline the stop is committed with the denial, before any intent is looked at
unfoldable pub deny_expired : AttemptRow → ℕ → Tx (Unit {0})
deny_expired row clock =
    if leb row.expires_at clock
    then (stop row clock >> commit_denial attempt_unavailable)
    else pure tt

abbrev pub resetting_row : String → ℕ → ℕ → String → AttemptRow → AttemptRow
resetting_row sandbox_id generation version runtime_id r = record r {
  sandbox_id = sandbox_id;
  generation = generation;
  candidate_sandbox_id = some sandbox_id;
  candidate_generation = some generation;
  state = resetting;
  provisioning_intent = true;
  reset_intent = true;
  session_epoch = r.session_epoch + 1;
  version = version;
  runtime_operation_id = some runtime_id;
}

-- the sandbox was removed, and its removal verified
unfoldable pub is_cleaned : ResourceRow → Bool
is_cleaned r = r.state == destroyed && not (is_null r.cleanup_evidence_digest)

unfoldable pub is_resetting : AttemptRow → ResourceRef → Bool
is_resetting row ref =
    row.state == resetting
    && row.reset_intent
    && row.provisioning_intent
    && has row.candidate_sandbox_id ref.sandbox_id
    && has row.candidate_generation ref.generation

unfoldable pub reset_ready_allowed :
    AttemptRow → ResourceRef → Option ResourceRow → Option ResourceRow → Bool
reset_ready_allowed row ref candidate active =
    is_resetting row ref
    && resource_test candidate (λ r. r.state == ready && not r.destroy_intent)
    && resource_test active is_cleaned

unfoldable pub fail_reset_allowed : AttemptRow → ResourceRef → Option ResourceRow → Bool
fail_reset_allowed row ref candidate =
    is_resetting row ref && resource_test candidate (λ r. r.state == failed && r.destroy_intent)

-- WHERE sandbox_id=? with a NULL finds nothing
abbrev pub select_active : Option String → Tx (Option ResourceRow)
select_active none = pure none
select_active (some id) = select_resource id

abbrev pub reset_published : ResourceRef → AttemptRow → AttemptRow
reset_published ref r = record r {
  state = ready;
  active_sandbox_id = some ref.sandbox_id;
  active_generation = some ref.generation;
  candidate_sandbox_id = none;
  candidate_generation = none;
  provisioning_intent = false;
  reset_intent = false;
  version = r.version + 1;
}

abbrev pub reset_failed : AttemptRow → AttemptRow
reset_failed r = record r { state = failed; provisioning_intent = false; version = r.version + 1 }

module _ ⦃lib : Libs⦄ where
  unfoldable pub begin_reset : UserIdentity → ResourceRef → String → Clock → Tx Receipt
  begin_reset identity ref key now = do
    lift (ref_valid ref)
    clock ← lift (read_clock now)
    row ← owned identity ref.attempt_id
    actor ← lift (user identity row.room_id)
    let fingerprint = request_hash "begin-reset" (ref_values ref [])
    previous ← replay actor key fingerprint
    or_else previous do
      binding false ref
      deny_expired row clock
      raise_if (not (reset_allowed row ref)) invalid_transition
      sandbox_id ← uuid4
      runtime_id ← uuid4_hex
      let generation = ref.generation + 1
      let version = row.version + 1
      update_attempt ref.attempt_id (resetting_row sandbox_id generation version runtime_id)
      finish actor "begin-reset" key fingerprint
          (record { attempt_id = ref.attempt_id; sandbox_id = sandbox_id; generation = generation })
          resetting version none

  unfoldable pub publish_reset_ready :
      ServiceIdentity → ResourceRef → ℤ → String → Clock → Tx Receipt
  publish_reset_ready identity ref expected_version key now = do
    actor ← lift (service identity Role.backend Action.publish)
    lift (ref_valid ref)
    let fingerprint =
        request_hash "publish-reset-ready" (ref_values ref (int expected_version ∷ []))
    clock ← lift (read_clock now)
    row ← binding false ref
    previous ← replay actor key fingerprint
    or_else previous do
      deny_expired row clock
      raise_if row.destroy_intent attempt_unavailable
      version ← lift (cas row.version expected_version)
      candidate ← select_resource ref.sandbox_id
      active ← select_active row.active_sandbox_id
      raise_if (not (reset_ready_allowed row ref candidate active)) invalid_transition
      update_attempt ref.attempt_id (reset_published ref)
      finish actor "publish-reset-ready" key fingerprint ref ready (version + 1) none

  unfoldable pub fail_reset : ServiceIdentity → ResourceRef → ℤ → String → Clock → Tx Receipt
  fail_reset identity ref expected_version key now = do
    actor ← lift (service identity Role.backend Action.publish)
    lift (ref_valid ref)
    let fingerprint = request_hash "fail-reset" (ref_values ref (int expected_version ∷ []))
    clock ← lift (read_clock now)
    row ← binding false ref
    previous ← replay actor key fingerprint
    or_else previous do
      deny_expired row clock
      raise_if row.destroy_intent attempt_unavailable
      version ← lift (cas row.version expected_version)
      candidate ← select_resource ref.sandbox_id
      raise_if (not (fail_reset_allowed row ref candidate)) invalid_transition
      update_attempt ref.attempt_id reset_failed
      finish actor "fail-reset" key fingerprint ref failed (version + 1) none
