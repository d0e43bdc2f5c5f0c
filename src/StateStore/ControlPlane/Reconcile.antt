-- ===== src/StateStore/ControlPlane/Reconcile.antt =====
-- control_plane.py: reconcile and cleanup_failed.
use failroom.Prelude.{
  ℕ, ◌+◌, String, Bool, true, false, not, ◌&&◌, ◌||◌, Option, none, some, List, [], ◌∷◌, map, leb,
  ltb, ◌==◌, has, text_eq, nat_eq, if◌then◌else◌,
}
use mathlib.Core.List.{◌++◌}
use failroom.Prelude.Tables.{keep, take, order_by}
use failroom.StateStore.Models.{
  invalid_request, invalid_transition, store_failure, Role, Action, state_eq, ref_eq, stopping,
  failed, destroyed, ServiceIdentity, ResourceRef, Receipt, Datetime, Clock, CleanupTask, ℤ, pos,
}
use failroom.StateStore.Rows.{
  AttemptRow, ResourceRow, OperationRow, Status, succeeded, pending, is_null,
}
use failroom.StateStore.Tx.{or_raise, Db, Tx, pure, lift, gets, raise_if, or_else, ◌>>=◌, ◌>>◌}
use failroom.StateStore.Libs.{Libs, text, int}
use failroom.StateStore.Sql.{
  select_resource, select_operation, insert_resource, update_resource, update_operation,
  insert_operation, operation_key, uuid4, select_operation_by, operation_of, resource_of,
}
use failroom.StateStore.Common.{
  timestamp, read_clock, identifier, positive, ref_valid, service, binding, row_ref, replay,
  request_hash, ref_values, finish, cas,
}
use failroom.StateStore.Backend.Queries.{text_le}
use failroom.StateStore.ControlPlane.Base.{resource, runtime_binding, stop, is_expired}
use failroom.StateStore.ControlPlane.Transition.{cleanup_actor}

-- A row of the query: an attempt, with the tuple of its resource that wants cleanup, or none if
-- the attempt ended before a resource was recorded.
pub record Candidate : Type 0 where
  pub attempt : AttemptRow
  pub cleanup : Option ResourceRef

abbrev pub retry_due : Option OperationRow → ℕ → Bool
retry_due none clock = true
retry_due (some o) clock = leb o.retry_at clock

unfoldable pub replaced : AttemptRow → ResourceRow → Bool
replaced a r =
    a.reset_intent && has a.active_sandbox_id r.sandbox_id && has a.active_generation r.generation

unfoldable pub wants_cleanup : Db → ℕ → AttemptRow → ResourceRow → Bool
unfolding replaced
wants_cleanup s clock a r =
    r.attempt_id == a.attempt_id
    && not (a.state == destroyed)
    && not (r.state == destroyed)
    && (a.destroy_intent || leb a.expires_at clock || r.destroy_intent || replaced a r)
    && retry_due (operation_of s cleanup_actor r.sandbox_id) clock

unfoldable pub wants_absence : Db → ℕ → AttemptRow → Bool
wants_absence s clock a =
    not (a.state == destroyed)
    && is_null (resource_of s a.sandbox_id)
    && (a.destroy_intent || leb a.expires_at clock)
    && retry_due (operation_of s cleanup_actor a.sandbox_id) clock

abbrev pub of_resource : AttemptRow → ResourceRow → Candidate
of_resource a r = record {
  attempt = a;
  cleanup =
      some (record {
        attempt_id = a.attempt_id;
        sandbox_id = r.sandbox_id;
        generation = r.generation;
      });
}

unfoldable pub joined : Db → ℕ → List AttemptRow → List Candidate
unfolding wants_cleanup
joined s clock [] = []
joined s clock (a ∷ rows) =
    map (of_resource a) (keep (wants_cleanup s clock a) s.resources) ++ joined s clock rows

abbrev pub without_resource : AttemptRow → Candidate
without_resource a = record { attempt = a; cleanup = none }

unfoldable pub candidates : Db → ℕ → List Candidate
unfolding joined wants_absence
candidates s clock =
    joined s clock s.attempts ++ map without_resource (keep (wants_absence s clock) s.attempts)

-- NULL sorts first
abbrev pub cleanup_le : Option ResourceRef → Option ResourceRef → Bool
cleanup_le none b = true
cleanup_le (some a) none = false
cleanup_le (some a) (some b) = text_le a.sandbox_id b.sandbox_id

-- ORDER BY expires_at,attempt_id,cleanup_sandbox_id
unfoldable pub by_urgency : Candidate → Candidate → Bool
by_urgency a b =
    ltb a.attempt.expires_at b.attempt.expires_at
    || a.attempt.expires_at == b.attempt.expires_at
      && (not (text_le b.attempt.attempt_id a.attempt.attempt_id)
          || a.attempt.attempt_id == b.attempt.attempt_id && cleanup_le a.cleanup b.cleanup)

abbrev pub candidate_ref : Candidate → ResourceRef
candidate_ref c = elim c.cleanup [ none ↦ row_ref c.attempt | some ref ↦ ref ]

-- INSERT … ON CONFLICT(sandbox_id) DO NOTHING
abbrev pub insert_absent_resource : ResourceRow → Tx (Unit {0})
insert_absent_resource r = do
  existing ← select_resource r.sandbox_id
  if is_null existing then insert_resource r else pure tt

-- INSERT … ON CONFLICT(actor,idempotency_key) DO NOTHING
abbrev pub insert_absent_operation : OperationRow → Tx (Unit {0})
insert_absent_operation o = do
  existing ← select_operation o.actor o.idempotency_key
  if is_null existing then insert_operation o else pure tt

abbrev pub reserved_resource : ResourceRef → ℕ → Bool → Option String → ResourceRow
reserved_resource ref expires_at expired runtime_id = record {
  sandbox_id = ref.sandbox_id;
  attempt_id = ref.attempt_id;
  generation = ref.generation;
  state = stopping;
  version = 0;
  container_id = none;
  runtime_operation_id = runtime_id;
  expires_at = expires_at;
  expiry_intent = expired;
  destroy_intent = true;
  evidence_digest = none;
  cleanup_evidence_digest = none;
}

-- a create that was interrupted has a reserved identity, whose absence is to be verified
unfoldable pub reserve : AttemptRow → Bool → Tx (Unit {0})
reserve a expired = do
  runtime_id ← lift (runtime_binding true a.runtime_operation_id)
  insert_absent_resource (reserved_resource (row_ref a) a.expires_at expired runtime_id)

abbrev pub reserve_missing : Candidate → Bool → Tx (Unit {0})
reserve_missing c expired = if is_null c.cleanup then reserve c.attempt expired else pure tt

abbrev pub task_of : OperationRow → ResourceRef → ResourceRow → CleanupTask
task_of o ref r = record {
  operation_id = o.operation_id;
  ref = ref;
  state = r.state;
  version = r.version;
  expiry_intent = r.expiry_intent;
  retry_count = o.retry_count;
}

abbrev pub is_error : String → Bool
is_error code = code == "RUNTIME_UNAVAILABLE" || code == "CLEANUP_INCOMPLETE"

abbrev pub retried : ℕ → String → ℕ → OperationRow → OperationRow
retried retry error_code version o = record o {
  status = Status.retry;
  retry_count = o.retry_count + 1;
  retry_at = retry;
  error_code = some error_code;
  result_state = failed;
  result_version = version;
}

abbrev pub resource_failed : ResourceRow → ResourceRow
resource_failed r = record r { state = failed; version = r.version + 1 }

abbrev pub cleanup_pending : Option OperationRow → Bool
cleanup_pending none = false
cleanup_pending (some o) = elim o.status [ succeeded ↦ false | _ ↦ true ]

module _ ⦃lib : Libs⦄ where
  abbrev cleanup_operation : String → ResourceRef → ℕ → OperationRow
  cleanup_operation id ref version = record {
    operation_id = id;
    actor = cleanup_actor;
    action = "cleanup";
    idempotency_key = ref.sandbox_id;
    request_hash = request_hash "cleanup" (ref_values ref []);
    attempt_id = ref.attempt_id;
    sandbox_id = ref.sandbox_id;
    generation = ref.generation;
    status = pending;
    result_state = stopping;
    result_version = version;
    retry_count = 0;
    retry_at = 0;
    error_code = none;
  }

  -- The body of the loop of `reconcile`. The operation is there once it is inserted.
  unfoldable pub visit : ℕ → Candidate → Tx CleanupTask
  unfolding reserve
  visit clock c = do
    let ref = candidate_ref c
    let expired = is_expired c.attempt clock
    reserve_missing c expired
    row ← resource ref
    stop row expired
    r ← resource ref
    id ← uuid4
    insert_absent_operation (cleanup_operation id ref r.version)
    found ← select_operation cleanup_actor ref.sandbox_id
    o ← or_raise found store_failure
    pure (task_of o ref r)

  unfoldable pub visit_all : ℕ → List Candidate → Tx (List CleanupTask)
  visit_all clock [] = pure []
  visit_all clock (c ∷ cs) = do
    task ← visit clock c
    tasks ← visit_all clock cs
    pure (task ∷ tasks)

  unfoldable pub reconcile : ServiceIdentity → Clock → ℕ → Tx (List CleanupTask)
  reconcile identity now limit = do
    lift (service identity Role.control_plane Action.reconcile)
    lift (positive limit 1000)
    clock ← lift (read_clock now)
    rows ← gets (λ s. take limit (order_by by_urgency (candidates s clock)))
    visit_all clock rows

  unfoldable pub cleanup_failed :
      ServiceIdentity → ResourceRef → String → ℤ → String → String → Datetime → Clock → Tx Receipt
  cleanup_failed identity ref operation_id expected_version key error_code retry_at now = do
    actor ← lift (service identity Role.control_plane Action.reconcile)
    lift (identifier operation_id)
    lift (ref_valid ref)
    retry ← lift (timestamp retry_at)
    raise_if (not (is_error error_code)) invalid_request
    let fingerprint = request_hash "cleanup-failed" (
        ref_values ref
          (text operation_id ∷ int expected_version ∷ text error_code ∷ int (pos retry) ∷ []))
    clock ← lift (read_clock now)
    binding true ref
    r ← resource ref
    previous ← replay actor key fingerprint
    or_else previous do
      raise_if (leb retry clock) invalid_request
      version ← lift (cas r.version expected_version)
      found ←
          select_operation_by
            (λ o. o.operation_id == operation_id && operation_key cleanup_actor ref.sandbox_id o)
      raise_if (not (r.state == stopping) || not (cleanup_pending found)) invalid_transition
      update_resource ref.sandbox_id resource_failed
      update_operation (λ o. o.operation_id == operation_id)
          (retried retry error_code (version + 1))
      finish actor "cleanup-failed" key fingerprint ref failed (version + 1) (some error_code)
