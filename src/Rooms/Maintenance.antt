-- ===== src/Rooms/Maintenance.antt =====
-- maintenance.py, LifecycleMaintenanceService.run_once: one bounded pass.
use Prim.Native.String.{String, ◌++◌}
use failroom.Prelude.{ℕ, List, [], ◌∷◌, Option, none, some, length}
use failroom.StateStore.Models.{ServiceIdentity, Receipt, Clock}
use failroom.StateStore.Tx.{Tx}
use failroom.StateStore.Libs.{Libs}
use failroom.StateStore.Backend
use failroom.StateStore.Worker.World.{Env, call}
use failroom.StateStore.Worker.Pass.{CleanupRun}
use failroom.Rooms.Acts.{Act, pure, raise, store, catch, ◌>>=◌, ◌>>◌}

-- MaintenanceRun
pub record MaintenanceRun : Type 0 where
  pub expired : ℕ
  pub cleanup : CleanupRun

-- MaintenanceError: a pass raises nothing else
pub data MaintenanceCode : Type 0 where
  maintenance_incomplete : MaintenanceCode

-- Any exception of a part of the pass ends it in the same way, so that none is told from another.
abbrev pub Part : Type 0 → Type 0
Part = Act (Unit {0})

-- `for receipt in …: self._reset_provisioner.provision(receipt, key="reset-resume:" + …)`
unfoldable pub provision_all : (Receipt → String → Part (Unit {0})) → List Receipt → Part (Unit {0})
provision_all provision [] = pure tt
provision_all provision (r ∷ rs) = do
  provision r ("reset-resume:" ++ r.operation_id)
  provision_all provision rs

module _ ⦃lib : Libs⦄ (env : Env) (backend : ServiceIdentity) (limit : ℕ) where
  abbrev part_call : {A : Type 0} → (Clock → Tx A) → Part A
  part_call m = store (λ _. tt) (call env m)

  abbrev pub resume : Option (Receipt → String → Part (Unit {0})) → Part (Unit {0})
  resume none = pure tt
  resume (some provision) = do
    receipts ← part_call (λ now. Backend.pending_reset_provisioning backend limit)
    provision_all provision receipts

  -- `cleanup` is a pass of the worker; `provisioner` is the optional orchestrator
  unfoldable pub run_once :
      Part CleanupRun
      → Option (Receipt → String → Part (Unit {0}))
      → Act MaintenanceCode MaintenanceRun
  run_once cleanup provisioner =
      catch
        (do
          expired ← part_call (λ now. Backend.expire backend now limit)
          run ← cleanup
          resume provisioner
          pure (record { expired = length expired; cleanup = run }))
        (λ _. raise maintenance_incomplete)
