-- ===== src/StateStore/Worker/Pass.antt =====
-- docker_worker.py: DockerCleanupWorker.
use Prim.Native.String.{◌++◌}
use failroom.Prelude.{
  ℕ, zero, suc, ◌+◌, ◌-◌, String, Bool, true, false, ◌&&◌, Option, none, some, List, [], ◌∷◌, leb,
  length, ◌==◌, text_eq, nat_eq, if◌then◌else◌,
}
use failroom.StateStore.Models.{
  Code, invalid_request, stale_binding, stale_version, idempotency_conflict, invalid_transition,
  cleanup_unverified, store_busy, store_failure, Role, Action, State, state_eq, ref_eq, stopping,
  ServiceIdentity, ResourceRef, Resource, CleanupTask, pos,
}
use failroom.StateStore.Tx.{Result, ok, err}
use failroom.StateStore.Libs.{Libs, Value, text, int}
use failroom.StateStore.Common.{
  service, positive, read_clock, digest, instant, request_hash, ref_values,
}
use failroom.StateStore.Backend
use failroom.StateStore.ControlPlane
use failroom.StateStore.ControlPlane.Reconcile.{is_error}
use failroom.StateStore.ControlPlane.Transition.{Move}
use failroom.StateStore.Worker.World.{
  CleanupTarget, Reply, evidence, runtime_error, exception, Env, Job, pure, raise, lift, ◌>>=◌,
  ◌>>◌, catch, tick, call,
}

-- CleanupRun
pub record CleanupRun : Type 0 where
  pub destroyed_count : ℕ
  pub deferred : ℕ
  pub finalized : ℕ

-- `_DEFERRED_STORE_ERRORS`
unfoldable pub is_deferred : Code → Bool
is_deferred store_busy = true
is_deferred store_failure = true
is_deferred stale_binding = true
is_deferred stale_version = true
is_deferred invalid_transition = true
is_deferred idempotency_conflict = true
is_deferred cleanup_unverified = true
is_deferred _ = false

-- `_defer_or_raise`, with what the handler returns after it
unfoldable pub defer_or_raise : {A : Type 0} → A → Code → Job A
defer_or_raise a e = if is_deferred e then pure a else raise e

-- a failure of the runtime, as it may be stored
abbrev pub safe_failure : String → String
safe_failure code = if is_error code then code else "CLEANUP_INCOMPLETE"

-- the failure, or the evidence
pub data Verdict : Type 0 where
  failure : String → Verdict
  verified : String → Verdict

abbrev pub verdict_of_digest : Result String → Verdict
verdict_of_digest (ok e) = verified e
verdict_of_digest (err _) = failure "CLEANUP_INCOMPLETE"

unfoldable pub verdict : Reply → Verdict
verdict (evidence e) = verdict_of_digest (digest (some e))
verdict (runtime_error code) = failure (safe_failure code)
verdict exception = failure "CLEANUP_INCOMPLETE"

-- the resource is still the one that the task was made for
unfoldable pub task_current : CleanupTask → Resource → Bool
task_current task r =
    r.ref == task.ref && r.version == task.version && r.state == stopping && r.destroy_intent

abbrev pub count_deferred : CleanupRun → CleanupRun
count_deferred run = record run { deferred = run.deferred + 1 }

abbrev pub count_destroyed : CleanupRun → CleanupRun
count_destroyed run = record run { destroyed_count = run.destroyed_count + 1 }

-- `if self._finalize(…): finalized += 1 else: deferred += 1`
abbrev pub count_finalize : Bool → CleanupRun → CleanupRun
count_finalize true run = record run { finalized = run.finalized + 1 }
count_finalize false run = count_deferred run

-- the code of `cleanup_failed` is INVALID_REQUEST
abbrev pub is_invalid_request : Code → Bool
is_invalid_request invalid_request = true
is_invalid_request _ = false

abbrev pub no_counts : CleanupRun
no_counts = record { destroyed_count = 0; deferred = 0; finalized = 0 }

module _ ⦃lib : Libs⦄ (env : Env) where
  -- `_key`
  cleanup_key : String → ResourceRef → List Value → String
  cleanup_key action ref values =
      "docker-cleanup:" ++ action ++ ":" ++ request_hash action (ref_values ref values)

  unfoldable pub finalize : ServiceIdentity → ResourceRef → Job Bool
  unfolding cleanup_key
  finalize identity ref =
      catch
        (do
          call env (Backend.complete_cleanup identity ref (cleanup_key "finalize" ref []))
          pure true)
        (defer_or_raise false)

  -- `if error.code == "INVALID_REQUEST" and instant(read_clock(now)) >= retry_at: return`
  unfoldable pub failed_handler : ℕ → Code → Job (Unit {0})
  failed_handler retry_at e =
      if is_invalid_request e
      then (do
        now ← tick env
        clock ← lift (read_clock now)
        if leb retry_at clock then pure tt else defer_or_raise tt e)
      else defer_or_raise tt e

  unfoldable pub failed : ℕ → ServiceIdentity → CleanupTask → String → Job (Unit {0})
  unfolding cleanup_key failed_handler
  failed retry_delay identity task code = do
    now ← tick env
    clock ← lift (read_clock now)
    let retry_at = clock + retry_delay
    catch
        (do
          call env (
              ControlPlane.cleanup_failed identity task.ref task.operation_id (pos task.version)
                (cleanup_key "failed" task.ref
                  (text task.operation_id ∷ int (pos task.version) ∷ []))
                code (instant retry_at))
          pure tt)
        (failed_handler retry_at)

  abbrev destroyed_move : CleanupTask → String → Move
  destroyed_move task digest_text = record {
    expected_version = pos task.version;
    state = State.destroyed;
    container_id = none;
    evidence_digest = some digest_text;
    error_code = none;
  }

  -- what follows the runtime's answer
  unfoldable pub settle : ℕ → ServiceIdentity → CleanupTask → Verdict → Job Bool
  unfolding failed
  settle retry_delay identity task (failure code) = do
    failed retry_delay identity task code
    pure false
  settle retry_delay identity task (verified e) =
      catch
        (do
          call env (
              ControlPlane.transition identity task.ref (destroyed_move task e) (
                cleanup_key "destroy" task.ref
                  (text task.operation_id ∷ int (pos task.version) ∷ [])))
          pure true)
        (defer_or_raise false)

  abbrev target_of : CleanupTask → Resource → CleanupTarget
  target_of task r = record {
    ref = task.ref;
    container_id = r.container_id;
    runtime_operation_id = r.runtime_operation_id;
    operation_id = task.operation_id;
  }

  -- `_destroy` for a resource that was read
  unfoldable pub destroy_resource : ℕ → ServiceIdentity → CleanupTask → Resource → Job Bool
  unfolding settle
  destroy_resource retry_delay identity task r =
      if task_current task r
      then settle retry_delay identity task (verdict (env.runtime (target_of task r)))
      else pure false

  abbrev pub when_found : (Resource → Job Bool) → Option Resource → Job Bool
  when_found k none = pure false
  when_found k (some r) = k r

  unfoldable pub destroy : ℕ → ServiceIdentity → CleanupTask → Job Bool
  unfolding destroy_resource
  destroy retry_delay identity task = do
    found ←
        catch (do r ← call env (λ now. ControlPlane.inspect identity task.ref); pure (some r))
          (defer_or_raise none)
    when_found (destroy_resource retry_delay identity task) found

  -- `for ref in pending`
  unfoldable pub finalize_all : ServiceIdentity → List ResourceRef → CleanupRun → Job CleanupRun
  finalize_all identity [] run = pure run
  finalize_all identity (ref ∷ refs) run = do
    done ← finalize identity ref
    finalize_all identity refs (count_finalize done run)

  -- the body of `for task in tasks`
  unfoldable pub run_task :
      ℕ → ServiceIdentity → ServiceIdentity → CleanupTask → CleanupRun → Job CleanupRun
  run_task retry_delay control backend task run = do
    gone ← destroy retry_delay control task
    if gone
        then (do done ← finalize backend task.ref; pure (count_finalize done (count_destroyed run)))
        else pure (count_deferred run)

  unfoldable pub run_tasks :
      ℕ → ServiceIdentity → ServiceIdentity → List CleanupTask → CleanupRun → Job CleanupRun
  run_tasks retry_delay control backend [] run = pure run
  run_tasks retry_delay control backend (task ∷ tasks) run = do
    run' ← run_task retry_delay control backend task run
    run_tasks retry_delay control backend tasks run'

  abbrev pub some_or_none : {A : Type 0} → Job A → Job (Option A)
  some_or_none m = catch (m >>= λ a. pure (some a)) (defer_or_raise none)

  abbrev pub run_answer :
      ℕ
      → ServiceIdentity
      → ServiceIdentity
      → CleanupRun
      → Option (List CleanupTask)
      → Job CleanupRun
  run_answer retry_delay control backend run none = pure (count_deferred run)
  run_answer retry_delay control backend run (some tasks) =
      run_tasks retry_delay control backend tasks run

  -- the scan for tasks, after the pending finalizations
  unfoldable pub run_remaining :
      ℕ → ServiceIdentity → ServiceIdentity → ℕ → CleanupRun → Job CleanupRun
  run_remaining retry_delay control backend zero run = pure run
  run_remaining retry_delay control backend (suc remaining) run = do
    found ← some_or_none (call env (λ now. ControlPlane.reconcile control now (suc remaining)))
    run_answer retry_delay control backend run found

  unfoldable pub run_found :
      ℕ → ServiceIdentity → ServiceIdentity → ℕ → Option (List ResourceRef) → Job CleanupRun
  run_found retry_delay control backend limit none = pure (count_deferred no_counts)
  run_found retry_delay control backend limit (some refs) = do
    run ← finalize_all backend refs no_counts
    run_remaining retry_delay control backend (limit - length refs) run

  -- the pass, once its arguments are checked
  unfoldable pub run_scan : ℕ → ServiceIdentity → ServiceIdentity → ℕ → Job CleanupRun
  unfolding run_found
  run_scan retry_delay control backend limit = do
    found ← some_or_none (call env (λ clock. Backend.pending_finalizations backend limit))
    run_found retry_delay control backend limit found

  unfoldable pub run_once : ℕ → ServiceIdentity → ServiceIdentity → ℕ → Job CleanupRun
  run_once retry_delay control backend limit = do
    lift (service control Role.control_plane Action.reconcile)
    lift (service control Role.control_plane Action.inspect)
    lift (service control Role.control_plane Action.transition)
    lift (service backend Role.backend Action.reconcile)
    lift (service backend Role.backend Action.publish)
    lift (positive limit 1000)
    now ← tick env
    lift (read_clock now)
    run_scan retry_delay control backend limit
