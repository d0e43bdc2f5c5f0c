-- ===== src/StateStore/Worker/Counts.antt =====
-- docker_worker.py, run_once: the counts of a pass.
use failroom.Prelude.{
  ◌∙◌, ℕ, zero, suc, ◌+◌, ◌-◌, ◌≤◌, ◌≡◌, List, [], ◌∷◌, Option, some, none, length, arith, refl,
}
use failroom.StateStore.Models.{ServiceIdentity, ResourceRef, CleanupTask, Clock}
use failroom.StateStore.Tx.{Tx, Result, ok, err, transaction}
use failroom.StateStore.ControlPlane.{reconcile}
use failroom.StateStore.Backend.{pending_finalizations}
use failroom.StateStore.Common.{positive}
use failroom.StateStore.Libs.{Libs}
use failroom.StateStore.Worker.World.{Env, World, Job, ◌>>=◌, call, tick}
use failroom.StateStore.Worker.Pass.{
  CleanupRun, finalize, finalize_all, run_task, run_tasks, run_remaining, run_found, run_scan,
  run_once, count_finalize, no_counts, run_answer, some_or_none, defer_or_raise,
}
use failroom.StateStore.Worker.Limits.{reconcile-limit, pending_finalizations-limit}

bind-ok :
    {A B : Type 0} (m : Job A) (f : A → Job B) (w w' : World) (b : B)
    → (m >>= f) w ≡ (ok b, w')
    → (a : A) × (v : World) × (m w ≡ (ok a, v)) × (f a v ≡ (ok b, w'))
bind-ok {A} {B} m f w w' b h = go (m w).0 (m w).1 refl h
  where
    go :
        (r : Result A) (v : World)
        → m w ≡ (r, v)
        → ◌>>=◌ (λ (_ : World). (r, v)) f w ≡ (ok b, w')
        → (a : A) × (v : World) × (m w ≡ (ok a, v)) × (f a v ≡ (ok b, w'))
    go (ok a) v e k = (a, v, e, k)
    go (err x) v e k = cc

-- `seen` more items were visited: each was finalized or deferred, and only those were destroyed.
pub record Adds (seen : ℕ) (before after : CleanupRun) : Type 0 where
  pub visited : after.finalized + after.deferred ≡ before.finalized + before.deferred + seen
  pub removed : after.destroyed_count ≤ before.destroyed_count + seen

-- `count` tasks more, between two counts of a pass
pub record TaskCounts (count : ℕ) (before after : CleanupRun) : Type 0 where
  pub each_once : after.finalized + after.deferred ≡ before.finalized + before.deferred + count
  pub finalized_gone :
      after.finalized + before.destroyed_count ≤ before.finalized + after.destroyed_count
  pub kept_deferred :
      before.destroyed_count + before.deferred + count ≤ after.destroyed_count + after.deferred

module _ ⦃lib : Libs⦄ (env : Env) where
  finalize_all-Adds :
      (i : ServiceIdentity) (refs : List ResourceRef) (run run' : CleanupRun) (w w' : World)
      → finalize_all env i refs run w ≡ (ok run', w')
      → Adds (length refs) run run'
  unfolding finalize_all
  finalize_all-Adds i [] run run' w w' h = ground arith
  finalize_all-Adds i (ref ∷ refs) run run' w w' h =
      let (done, v, _, k) =
        bind-ok (finalize env i ref) (λ done. finalize_all env i refs (count_finalize done run)) w
          w' run' h in
      let rest = finalize_all-Adds i refs (count_finalize done run) run' v w' k in
      ground (arith, rest)

  run_task-Adds :
      (delay : ℕ) (c b : ServiceIdentity) (task : CleanupTask) (run run' : CleanupRun)
      (w w' : World)
      → run_task env delay c b task run w ≡ (ok run', w')
      → Adds 1 run run'
  unfolding run_task
  run_task-Adds delay c b task run run' w w' h = ground arith

  run_tasks-Adds :
      (delay : ℕ) (c b : ServiceIdentity) (tasks : List CleanupTask) (run run' : CleanupRun)
      (w w' : World)
      → run_tasks env delay c b tasks run w ≡ (ok run', w')
      → Adds (length tasks) run run'
  unfolding run_tasks
  run_tasks-Adds delay c b [] run run' w w' h = ground arith
  run_tasks-Adds delay c b (task ∷ tasks) run run' w w' h =
      let (one, v, e, k) =
        bind-ok (run_task env delay c b task run) (run_tasks env delay c b tasks) w w' run' h in
      let first = run_task-Adds delay c b task run one w v e in
      let rest = run_tasks-Adds delay c b tasks one run' v w' k in ground (arith, first, rest)

  -- one task: deferred, or destroyed and then finalized or deferred
  run_task-TaskCounts :
      (delay : ℕ) (c b : ServiceIdentity) (task : CleanupTask) (run run' : CleanupRun)
      (w w' : World)
      → run_task env delay c b task run w ≡ (ok run', w')
      → TaskCounts 1 run run'
  unfolding run_task
  run_task-TaskCounts delay c b task run run' w w' h = ground arith

  -- When the loop over the tasks of a scan returns, its counts of finalized and deferred have
  -- grown, together, by exactly the number of the tasks; finalized has grown by no more than
  -- destroyed; and destroyed and deferred have grown, together, by at least the number of the
  -- tasks.
  pub run_tasks-TaskCounts :
      (delay : ℕ) (c b : ServiceIdentity) (tasks : List CleanupTask) (run run' : CleanupRun)
      (w w' : World)
      → run_tasks env delay c b tasks run w ≡ (ok run', w')
      → TaskCounts (length tasks) run run'
  unfolding run_tasks
  run_tasks-TaskCounts delay c b [] run run' w w' h = ground arith
  run_tasks-TaskCounts delay c b (task ∷ tasks) run run' w w' h =
      let (one, v, e, k) =
        bind-ok (run_task env delay c b task run) (run_tasks env delay c b tasks) w w' run' h in
      let first = run_task-TaskCounts delay c b task run one w v e in
      let rest = run_tasks-TaskCounts delay c b tasks one run' v w' k in ground (arith, first, rest)

  Adds-trans : (m n : ℕ) (a b c : CleanupRun) → Adds m a b → Adds n b c → Adds (m + n) a c
  Adds-trans m n a b c h k = ground arith

  -- What a scan that was not deferred has returned is the answer of its transaction.
  scan-transaction :
      {A : Type 0} (m : Clock → Tx A) (w w' : World) (a : A)
      → some_or_none env (call env m) w ≡ (ok (some a), w')
      → transaction (m (env.clock w.readings)) (env.others w.transactions w.db) ≡ (ok a, w'.db)
  unfolding call defer_or_raise
  scan-transaction m w w' a h = ground arith

  run_remaining-Adds :
      (delay : ℕ) (c b : ServiceIdentity) (remaining : ℕ) (run run' : CleanupRun) (w w' : World)
      → run_remaining env delay c b remaining run w ≡ (ok run', w')
      → (seen : ℕ) × (seen ≤ remaining) × Adds seen run run'
  unfolding run_remaining
  run_remaining-Adds delay c b zero run run' w w' h = (0, omega arith, ground arith)
  run_remaining-Adds delay c b (suc n) run run' w w' h =
      let scan = some_or_none env (call env (λ now. reconcile c now (suc n))) in
      let (found, v, e, k) = bind-ok scan (run_answer env delay c b run) w w' run' h in
      go found v e k
    where
      go :
          (found : Option (List CleanupTask)) (v : World)
          → some_or_none env (call env (λ now. reconcile c now (suc n))) w ≡ (ok found, v)
          → run_answer env delay c b run found v ≡ (ok run', w')
          → (seen : ℕ) × (seen ≤ suc n) × Adds seen run run'
      go none v e k = (1, omega arith, ground arith)
      go (some tasks) v e k = (
        length tasks,
        reconcile-limit c _ (suc n) _ _ tasks
            (scan-transaction (λ now. reconcile c now (suc n)) w v tasks e),
        run_tasks-Adds delay c b tasks run run' v w' k,
      )

  run_found-Adds :
      (delay : ℕ) (c b : ServiceIdentity) (limit : ℕ) (found : Option (List ResourceRef))
      (run : CleanupRun) (w w' : World)
      → 1 ≤ limit
      → ((refs : List ResourceRef) → found ≡ some refs → length refs ≤ limit)
      → run_found env delay c b limit found w ≡ (ok run, w')
      → (seen : ℕ) × (seen ≤ limit) × Adds seen no_counts run
  unfolding run_found
  run_found-Adds delay c b limit none run w w' pos fits h = (1, pos, ground arith)
  run_found-Adds delay c b limit (some refs) run w w' pos fits h =
      let (first, v, e, k) =
        bind-ok (finalize_all env b refs no_counts)
          (run_remaining env delay c b (limit - length refs)) w w' run h in
      let one = finalize_all-Adds b refs no_counts first w v e in
      let (seen, few, two) = run_remaining-Adds delay c b (limit - length refs) first run v w' k in
      let short = fits refs refl in
      (length refs + seen, omega arith, Adds-trans (length refs) seen no_counts first run one two)

  run_scan-Adds :
      (delay : ℕ) (c b : ServiceIdentity) (limit : ℕ) (run : CleanupRun) (w w' : World)
      → 1 ≤ limit
      → run_scan env delay c b limit w ≡ (ok run, w')
      → (seen : ℕ) × (seen ≤ limit) × Adds seen no_counts run
  unfolding run_scan
  run_scan-Adds delay c b limit run w w' pos h =
      let m = λ (clock : Clock). pending_finalizations b limit in
      let (found, v, e, k) =
        bind-ok (some_or_none env (call env m)) (run_found env delay c b limit) w w' run h in
      run_found-Adds delay c b limit found run v w' pos
        (λ refs same.
          pending_finalizations-limit b limit _ _ refs (scan-transaction m w v refs (e ∙ rw same)))
        k

  run_once-run_scan :
      (delay : ℕ) (c b : ServiceIdentity) (limit : ℕ) (run : CleanupRun) (w w' : World)
      → run_once env delay c b limit w ≡ (ok run, w')
      → (1 ≤ limit)
        × (run_scan env delay c b limit (record w { readings = suc w.readings }) ≡ (ok run, w'))
  unfolding run_once tick positive
  run_once-run_scan delay c b limit run w w' h = ground arith

  -- Whatever other processes do between its transactions, whichever of these fail, and whatever
  -- the runtime answers: a pass that returns counts at most `limit` as finalized or deferred,
  -- together, and no more as destroyed than as finalized or deferred.
  pub run_once-counts :
      (delay : ℕ) (c b : ServiceIdentity) (limit : ℕ) (run : CleanupRun) (w w' : World)
      → run_once env delay c b limit w ≡ (ok run, w')
      → (run.finalized + run.deferred ≤ limit)
        × (run.destroyed_count ≤ run.finalized + run.deferred)
  run_once-counts delay c b limit run w w' h =
      let (pos, k) = run_once-run_scan delay c b limit run w w' h in
      let (seen, few, adds) = run_scan-Adds delay c b limit run _ w' pos k in
      (omega arith, omega arith)
