-- ===== src/Rooms/Passes.antt =====
-- docker_worker.py, run_once, against the relation between tables of StateStore/Evolves.
use failroom.Prelude.{ℕ, zero, suc, String, List, [], ◌∷◌, Option, none, some}
use failroom.StateStore.Models.{ServiceIdentity, ResourceRef, Resource, CleanupTask, Code}
use failroom.StateStore.Tx.{Result}
use failroom.StateStore.Libs.{Libs}
use failroom.StateStore.Worker.World.{Env, lift}
use failroom.StateStore.Worker.Pass.{
  Verdict, failure, verified, CleanupRun, defer_or_raise, finalize, failed_handler, failed, settle,
  destroy_resource, destroy, when_found, finalize_all, run_task, run_tasks, run_answer,
  run_remaining, run_found, run_scan, run_once, count_finalize,
}
use failroom.StateStore.Evolves.Steps.{Keeps-Evolves}
use failroom.StateStore.Evolves.Relation.{Evolves, Evolves-IsPreorder}
use failroom.StateStore.Evolves.Attempts.{Keeps-complete_cleanup}
use failroom.StateStore.Evolves.Sandboxes.{Keeps-transition, Keeps-reconcile, Keeps-cleanup_failed}
use failroom.StateStore.Evolves.Reads.{Keeps-inspect_resource, Keeps-pending_finalizations}
use failroom.Rooms.Steady.{
  Steady, OthersKeep, Steady-same, Steady-job_bind, Steady-job_catch, Steady-job_if, Steady-tick,
  Steady-call,
}

Steady-lift : {A : Type 0} (r : Result A) → Steady Evolves (lift r)
Steady-lift r = Steady-same Evolves-IsPreorder r

ruleset jobs = (
  Evolves-IsPreorder, Steady-same, Steady-lift, Steady-job_bind, Steady-job_catch, Steady-job_if,
  Steady-tick, Steady-call, Keeps-Evolves,
)

Steady-defer_or_raise : {A : Type 0} (a : A) (e : Code) → Steady Evolves (defer_or_raise a e)
unfolding defer_or_raise
Steady-defer_or_raise a e = search jobs depth 10

module _ ⦃lib : Libs⦄ (env : Env) (quiet : OthersKeep Evolves env) where
  Steady-finalize : (i : ServiceIdentity) (ref : ResourceRef) → Steady Evolves (finalize env i ref)
  unfolding finalize
  Steady-finalize i ref =
      search (jobs, quiet, Steady-defer_or_raise, Keeps-complete_cleanup) depth 20

  Steady-failed_handler : (retry_at : ℕ) (e : Code) → Steady Evolves (failed_handler env retry_at e)
  unfolding failed_handler
  Steady-failed_handler retry_at e = search (jobs, quiet, Steady-defer_or_raise) depth 20

  Steady-failed :
      (delay : ℕ) (i : ServiceIdentity) (task : CleanupTask) (code : String)
      → Steady Evolves (failed env delay i task code)
  unfolding failed
  Steady-failed delay i task code =
      search (jobs, quiet, Steady-failed_handler, Keeps-cleanup_failed) depth 20

  Steady-settle :
      (delay : ℕ) (i : ServiceIdentity) (task : CleanupTask) (v : Verdict)
      → Steady Evolves (settle env delay i task v)
  unfolding settle
  Steady-settle delay i task (failure code) = search (jobs, Steady-failed) depth 20
  Steady-settle delay i task (verified e) =
      search (jobs, quiet, Steady-defer_or_raise, Keeps-transition) depth 20

  Steady-destroy_resource :
      (delay : ℕ) (i : ServiceIdentity) (task : CleanupTask) (r : Resource)
      → Steady Evolves (destroy_resource env delay i task r)
  unfolding destroy_resource
  Steady-destroy_resource delay i task r = search (jobs, Steady-settle) depth 20

  Steady-when_found :
      (delay : ℕ) (i : ServiceIdentity) (task : CleanupTask) (o : Option Resource)
      → Steady Evolves (when_found env (destroy_resource env delay i task) o)
  Steady-when_found delay i task none = search jobs
  Steady-when_found delay i task (some r) = Steady-destroy_resource delay i task r

  Steady-destroy :
      (delay : ℕ) (i : ServiceIdentity) (task : CleanupTask)
      → Steady Evolves (destroy env delay i task)
  unfolding destroy
  Steady-destroy delay i task =
      search (jobs, quiet, Steady-defer_or_raise, Steady-when_found, Keeps-inspect_resource) depth
        20

  Steady-finalize_all :
      (i : ServiceIdentity) (refs : List ResourceRef) (run : CleanupRun)
      → Steady Evolves (finalize_all env i refs run)
  unfolding finalize_all
  Steady-finalize_all i [] run = search jobs
  Steady-finalize_all i (ref ∷ refs) run =
      Steady-job_bind Evolves-IsPreorder (finalize env i ref) _ (Steady-finalize i ref)
        (λ done. Steady-finalize_all i refs (count_finalize done run))

  Steady-run_task :
      (delay : ℕ) (c b : ServiceIdentity) (task : CleanupTask) (run : CleanupRun)
      → Steady Evolves (run_task env delay c b task run)
  unfolding run_task
  Steady-run_task delay c b task run = search (jobs, Steady-destroy, Steady-finalize) depth 20

  Steady-run_tasks :
      (delay : ℕ) (c b : ServiceIdentity) (tasks : List CleanupTask) (run : CleanupRun)
      → Steady Evolves (run_tasks env delay c b tasks run)
  unfolding run_tasks
  Steady-run_tasks delay c b [] run = search jobs
  Steady-run_tasks delay c b (task ∷ tasks) run =
      Steady-job_bind Evolves-IsPreorder (run_task env delay c b task run) _
        (Steady-run_task delay c b task run) (λ run'. Steady-run_tasks delay c b tasks run')

  Steady-run_answer :
      (delay : ℕ) (c b : ServiceIdentity) (run : CleanupRun) (o : Option (List CleanupTask))
      → Steady Evolves (run_answer env delay c b run o)
  Steady-run_answer delay c b run none = search jobs
  Steady-run_answer delay c b run (some tasks) = Steady-run_tasks delay c b tasks run

  Steady-run_remaining :
      (delay : ℕ) (c b : ServiceIdentity) (remaining : ℕ) (run : CleanupRun)
      → Steady Evolves (run_remaining env delay c b remaining run)
  unfolding run_remaining
  Steady-run_remaining delay c b zero run = search jobs
  Steady-run_remaining delay c b (suc n) run =
      search (jobs, quiet, Steady-defer_or_raise, Steady-run_answer, Keeps-reconcile) depth 20

  Steady-run_found :
      (delay : ℕ) (c b : ServiceIdentity) (limit : ℕ) (o : Option (List ResourceRef))
      → Steady Evolves (run_found env delay c b limit o)
  unfolding run_found
  Steady-run_found delay c b limit none = search jobs
  Steady-run_found delay c b limit (some refs) =
      search (jobs, Steady-finalize_all, Steady-run_remaining) depth 20

  Steady-run_scan :
      (delay : ℕ) (c b : ServiceIdentity) (limit : ℕ)
      → Steady Evolves (run_scan env delay c b limit)
  unfolding run_scan
  Steady-run_scan delay c b limit =
      search (jobs, quiet, Steady-defer_or_raise, Steady-run_found, Keeps-pending_finalizations)
        depth 20

  -- A pass of the cleanup worker, however it ends, lets the tables evolve.
  pub Steady-run_once :
      (delay : ℕ) (c b : ServiceIdentity) (limit : ℕ)
      → Steady Evolves (run_once env delay c b limit)
  unfolding run_once
  Steady-run_once delay c b limit = search (jobs, quiet, Steady-run_scan) depth 40
