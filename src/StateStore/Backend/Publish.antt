-- ===== src/StateStore/Backend/Publish.antt =====
-- backend.py: publish_ready, publish_running and publish_resolved.
use failroom.Prelude.{
  ◌+◌, String, Bool, false, not, ◌&&◌, Option, none, some, [], ◌∷◌, ◌==◌, text_eq, nat_eq,
}
use failroom.StateStore.Models.{
  invalid_transition, Role, Action, State, state_eq, provisioning, ready, running, resolved,
  ServiceIdentity, ResourceRef, Receipt, Clock, ℤ,
}
use failroom.StateStore.Rows.{AttemptRow, ResourceRow, is_null}
use failroom.StateStore.Tx.{Tx, lift, raise_if, or_else, ◌>>=◌, ◌>>◌}
use failroom.StateStore.Libs.{Libs, int}
use failroom.StateStore.Sql.{select_resource, update_attempt}
use failroom.StateStore.Common.{
  read_clock, ref_valid, service, binding, replay, request_hash, ref_values, finish, cas,
}
use failroom.StateStore.Backend.Live.{live, resource_test}

abbrev pub published_ready : AttemptRow → AttemptRow
published_ready r = record r {
  state = ready;
  active_sandbox_id = some r.sandbox_id;
  active_generation = some r.generation;
  candidate_sandbox_id = none;
  candidate_generation = none;
  provisioning_intent = false;
  version = r.version + 1;
}

unfoldable pub ready_allowed : AttemptRow → Option ResourceRow → Bool
ready_allowed row resource =
    row.state == provisioning
    && resource_test resource (λ r. r.state == ready && not r.destroy_intent)

abbrev pub published_state : State → AttemptRow → AttemptRow
published_state target r = record r { state = target; version = r.version + 1 }

-- the test of `_publish_runtime_state`
unfoldable pub runtime_allowed : State → State → AttemptRow → Option ResourceRow → Bool
runtime_allowed source target row resource =
    row.state == source
    && resource_test resource (λ r.
      r.state == target
      && not r.destroy_intent
      && not (target == resolved && is_null r.evidence_digest))

-- `"publish-" + target.lower()`, for the two targets that it is called with
abbrev pub publish_action : State → String
publish_action resolved = "publish-resolved"
publish_action _ = "publish-running"

module _ ⦃lib : Libs⦄ where
  unfoldable pub publish_ready : ServiceIdentity → ResourceRef → ℤ → String → Clock → Tx Receipt
  publish_ready identity ref expected_version key now = do
    actor ← lift (service identity Role.backend Action.publish)
    lift (ref_valid ref)
    let fingerprint = request_hash "publish-ready" (ref_values ref (int expected_version ∷ []))
    clock ← lift (read_clock now)
    row ← binding false ref
    live row clock
    previous ← replay actor key fingerprint
    or_else previous do
      version ← lift (cas row.version expected_version)
      resource ← select_resource ref.sandbox_id
      raise_if (not (ready_allowed row resource)) invalid_transition
      update_attempt ref.attempt_id published_ready
      finish actor "publish-ready" key fingerprint ref ready (version + 1) none

  unfoldable pub publish_runtime_state :
      State → State → ServiceIdentity → ResourceRef → ℤ → String → Clock → Tx Receipt
  publish_runtime_state source target identity ref expected_version key now = do
    actor ← lift (service identity Role.backend Action.publish)
    lift (ref_valid ref)
    let fingerprint =
        request_hash (publish_action target) (ref_values ref (int expected_version ∷ []))
    clock ← lift (read_clock now)
    row ← binding false ref
    live row clock
    previous ← replay actor key fingerprint
    or_else previous do
      version ← lift (cas row.version expected_version)
      resource ← select_resource ref.sandbox_id
      raise_if (not (runtime_allowed source target row resource)) invalid_transition
      update_attempt ref.attempt_id (published_state target)
      finish actor (publish_action target) key fingerprint ref target (version + 1) none

  unfoldable pub publish_running : ServiceIdentity → ResourceRef → ℤ → String → Clock → Tx Receipt
  unfolding publish_runtime_state
  publish_running = publish_runtime_state ready running

  unfoldable pub publish_resolved : ServiceIdentity → ResourceRef → ℤ → String → Clock → Tx Receipt
  unfolding publish_runtime_state
  publish_resolved = publish_runtime_state running resolved
