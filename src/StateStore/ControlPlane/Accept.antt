-- ===== src/StateStore/ControlPlane/Accept.antt =====
-- control_plane.py: accept and inspect.
use failroom.Prelude.{
  ℕ, String, Bool, true, false, not, ◌&&◌, ◌||◌, Option, none, some, [], ◌==◌, has, text_eq, nat_eq,
}
use failroom.Prelude.Tables.{find}
use failroom.StateStore.Models.{
  not_authorized, invalid_transition, resource_exists, Role, role_eq, Action, state_eq,
  provisioning, requested, resetting, ServiceIdentity, ResourceRef, Receipt, Clock, Resource,
}
use failroom.StateStore.Rows.{AttemptRow, ResourceRow, is_null}
use failroom.StateStore.Tx.{Db, Tx, pure, lift, gets, raise_if, or_else, ◌>>=◌, ◌>>◌}
use failroom.StateStore.Libs.{Libs}
use failroom.StateStore.Sql.{select_resource, insert_resource}
use failroom.StateStore.Common.{
  read_clock, instant, ref_valid, service, binding, replay, request_hash, ref_values, finish,
}
use failroom.StateStore.Backend.Reset.{is_cleaned}
use failroom.StateStore.ControlPlane.Base.{resource, runtime_binding, live}

unfoldable pub initial_provisioning : AttemptRow → Bool
initial_provisioning a = a.state == provisioning && a.provisioning_intent

unfoldable pub reset_provisioning : AttemptRow → ResourceRef → Bool
reset_provisioning a ref =
    a.state == resetting
    && a.provisioning_intent
    && a.reset_intent
    && has a.candidate_sandbox_id ref.sandbox_id
    && has a.candidate_generation ref.generation

-- the sandbox that a reset replaces: removed, with evidence
abbrev pub old_cleaned : Db → AttemptRow → Bool
old_cleaned s a = elim a.active_sandbox_id [
  | none ↦ false
  | some id ↦ elim a.active_generation [
    | none ↦ false
    | some generation ↦
        elim (find
          (λ (r : ResourceRow).
            r.sandbox_id == id && r.attempt_id == a.attempt_id && r.generation == generation)
          s.resources) [ none ↦ false | some r ↦ is_cleaned r ]
  ]
]

unfoldable pub accept_allowed : Db → AttemptRow → ResourceRef → Bool
accept_allowed s a ref = initial_provisioning a || reset_provisioning a ref && old_cleaned s a

abbrev pub new_resource : ResourceRef → ℕ → Option String → ResourceRow
new_resource ref expires_at runtime_id = record {
  sandbox_id = ref.sandbox_id;
  attempt_id = ref.attempt_id;
  generation = ref.generation;
  state = requested;
  version = 0;
  container_id = none;
  runtime_operation_id = runtime_id;
  expires_at = expires_at;
  expiry_intent = false;
  destroy_intent = false;
  evidence_digest = none;
  cleanup_evidence_digest = none;
}

module _ ⦃lib : Libs⦄ where
  unfoldable pub accept : ServiceIdentity → ResourceRef → String → Clock → Tx Receipt
  accept identity ref key now = do
    actor ← lift (service identity Role.backend Action.create)
    lift (ref_valid ref)
    let fingerprint = request_hash "accept" (ref_values ref [])
    clock ← lift (read_clock now)
    attempt ← binding false ref
    live attempt none clock
    previous ← replay actor key fingerprint
    or_else previous do
      allowed ← gets (λ s. accept_allowed s attempt ref)
      raise_if (not allowed) invalid_transition
      existing ← select_resource ref.sandbox_id
      raise_if (not (is_null existing)) resource_exists
      runtime_id ← lift (runtime_binding false attempt.runtime_operation_id)
      insert_resource (new_resource ref attempt.expires_at runtime_id)
      finish actor "accept" key fingerprint ref requested 0 none

abbrev pub resource_record : ResourceRef → ResourceRow → Resource
resource_record ref row = record {
  ref = ref;
  state = row.state;
  version = row.version;
  container_id = row.container_id;
  runtime_operation_id = row.runtime_operation_id;
  expires_at = instant row.expires_at;
  expiry_intent = row.expiry_intent;
  destroy_intent = row.destroy_intent;
  evidence_digest = row.evidence_digest;
  cleanup_evidence_digest = row.cleanup_evidence_digest;
}

unfoldable pub inspect : ServiceIdentity → ResourceRef → Tx Resource
inspect identity ref = do
  raise_if (not (identity.role == Role.backend || identity.role == Role.control_plane))
      not_authorized
  lift (service identity identity.role Action.inspect)
  binding true ref
  row ← resource ref
  pure (resource_record ref row)
