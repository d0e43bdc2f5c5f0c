-- ===== src/Rooms/Serving.antt =====
-- local_runtime.py: the services as they are put together, and any sequence of calls of them.
use Prim.Native.String.{String}
use failroom.Prelude.{ℕ, List, [], ◌∷◌, none, some, not}
use failroom.Prelude.Answers.{Answer}
use failroom.StateStore.Models.{
  UserIdentity, ServiceIdentity, Receipt, Resource, Clock, aware, naive,
}
use failroom.StateStore.Libs.{Libs}
use failroom.StateStore.Worker.World.{Env, World}
use failroom.StateStore.Worker.Pass as Worker
use failroom.StateStore.Worker.Pass.{CleanupRun}
use failroom.StateStore.Evolves.Steps.{Keeps-Evolves}
use failroom.StateStore.Evolves.Relation.{Evolves, Evolves-refl, Evolves-trans, Evolves-IsPreorder}
use failroom.StateStore.Evolves.Attempts.{Keeps-create, Keeps-leave, Keeps-expire}
use failroom.StateStore.Evolves.Reads.{Keeps-inspect_attempt, Keeps-pending_reset_provisioning}
use failroom.Rooms.Acts.{Act, raise, store, catch}
use failroom.Rooms.Provision.{Runtime, Thrown}
use failroom.Rooms.Orchestrator.{provision}
use failroom.Rooms.Lifecycle.{status, leave, reset}
use failroom.Rooms.Recovery.{verify}
use failroom.Rooms.Entry.{enter, abandon, is_reviewed, deadline_of, EntryRaised}
use failroom.Rooms.Maintenance as Maintenance
use failroom.Rooms.Maintenance.{provision_all, resume}
use failroom.Rooms.Steady.{
  Steady, OthersKeep, Steady-store, Steady-call, Steady-tick, Steady-catch, Steady-unless,
}
use failroom.Rooms.Passes.{Steady-run_once}
use failroom.Rooms.Evolving.{
  Steady-raise, Steady-pure, Steady-and_then, Steady-status, Steady-leave, Steady-reset,
}
use failroom.Rooms.Provisioning.{Steady-provision}
use failroom.Rooms.Verifying.{Steady-verify}

-- what `build` gives the services
pub record Deployment : Type 0 where
  pub runtime : Runtime
  pub verify_runtime : Resource → String → Answer Thrown String
  pub backend : ServiceIdentity
  pub control : ServiceIdentity
  pub retry_delay : ℕ
  pub attempt_ttl : ℕ
  pub maintenance_limit : ℕ

-- A call of a service, with its arguments.
pub data Call : Type 0 where
  enters leaves resets verifies : UserIdentity → String → String → Call
  asks : UserIdentity → String → Call
  maintains : Call

module _ ⦃lib : Libs⦄ (env : Env) (d : Deployment) where
  -- a failure of a part, of whatever kind
  abbrev pub failing : {E A : Type 0} → Act E A → Act (Unit {0}) A
  failing m = catch m (λ _. raise tt)

  -- the orchestrator, for the two identities of the services
  abbrev pub provisioner : Receipt → String → Act (Unit {0}) (Unit {0})
  provisioner receipt key = failing (provision env d.runtime d.backend d.control key receipt)

  abbrev pub cleanup : Act (Unit {0}) CleanupRun
  cleanup =
      store (λ _. tt) (Worker.run_once env d.retry_delay d.control d.backend d.maintenance_limit)

  -- the tables, and the two counters, after a call, whether it returns or raises
  unfoldable pub serve : Call → World → World
  serve (enters i room key) w = (enter env provisioner d.attempt_ttl i room key w).1
  serve (leaves i id key) w = (leave env cleanup i id key w).1
  serve (resets i id key) w = (reset env i id key w).1
  serve (verifies i id key) w = (verify env d.verify_runtime d.backend d.control i id key w).1
  serve (asks i id) w = (status env i id w).1
  serve maintains w =
      (Maintenance.run_once env d.backend d.maintenance_limit cleanup (some provisioner) w).1

  unfoldable pub serve_all : List Call → World → World
  serve_all [] w = w
  serve_all (c ∷ cs) w = serve_all cs (serve c w)

  module _ (quiet : OthersKeep Evolves env) where
    Steady-failing : {E A : Type 0} (m : Act E A) → Steady Evolves m → Steady Evolves (failing m)
    Steady-failing m h = Steady-catch Evolves-IsPreorder m _ h (λ _. Steady-raise tt)

    Steady-provisioner :
        (receipt : Receipt) (key : String) → Steady Evolves (provisioner receipt key)
    Steady-provisioner receipt key =
        Steady-failing _ (Steady-provision env quiet d.runtime d.backend d.control key receipt)

    Steady-cleanup : Steady Evolves cleanup
    Steady-cleanup =
        Steady-store Evolves-IsPreorder _ _
          (Steady-run_once env quiet d.retry_delay d.control d.backend d.maintenance_limit)

    Steady-provision_all : (rs : List Receipt) → Steady Evolves (provision_all provisioner rs)
    unfolding provision_all
    Steady-provision_all [] = Steady-pure tt
    Steady-provision_all (r ∷ rs) =
        Steady-and_then (Steady-provisioner r _) (λ _. Steady-provision_all rs)

    Steady-maintenance :
        Steady Evolves
          (Maintenance.run_once env d.backend d.maintenance_limit cleanup (some provisioner))
    unfolding Maintenance.run_once
    Steady-maintenance =
        Steady-catch Evolves-IsPreorder _ _
          (Steady-and_then
            (Steady-store Evolves-IsPreorder _ _ (
              Steady-call Evolves-IsPreorder env quiet _
                (λ now. Keeps-Evolves (Keeps-expire d.backend now d.maintenance_limit))))
            λ expired. Steady-and_then Steady-cleanup λ run.
              Steady-and_then
                (Steady-and_then
                  (Steady-store Evolves-IsPreorder _ _ (
                    Steady-call Evolves-IsPreorder env quiet _ (λ now.
                      Keeps-Evolves
                        (Keeps-pending_reset_provisioning d.backend d.maintenance_limit))))
                  (λ receipts. Steady-provision_all receipts))
                λ _. Steady-pure _)
          (λ _. Steady-raise _)

    Steady-abandon :
        (i : UserIdentity) (receipt : Receipt) (key : String)
        → Steady Evolves (abandon env i receipt key)
    unfolding abandon
    Steady-abandon i receipt key =
        Steady-and_then
          (Steady-catch Evolves-IsPreorder _ _
            (Steady-and_then
              (Steady-store Evolves-IsPreorder _ _ (
                Steady-call Evolves-IsPreorder env quiet _
                  (λ now. Keeps-Evolves (Keeps-leave i receipt.ref _ now))))
              λ _. Steady-pure tt)
            (λ _. Steady-pure tt))
          (λ _. Steady-raise _)

    Steady-deadline_of : (ttl : ℕ) (now : Clock) → Steady Evolves (deadline_of ttl now)
    Steady-deadline_of ttl none = Steady-raise _
    Steady-deadline_of ttl (some naive) = Steady-pure naive
    Steady-deadline_of ttl (some (aware t)) = Steady-pure _

    Steady-enter :
        (i : UserIdentity) (room key : String)
        → Steady Evolves (enter env provisioner d.attempt_ttl i room key)
    unfolding enter
    Steady-enter i room key =
        Steady-unless Evolves-IsPreorder (not (is_reviewed room)) EntryRaised.room_unavailable _ (
          Steady-and_then
            (Steady-store Evolves-IsPreorder _ _ (Steady-tick Evolves-IsPreorder env quiet))
            λ now. Steady-and_then (Steady-deadline_of d.attempt_ttl now) λ expires_at.
              Steady-and_then
                (Steady-store Evolves-IsPreorder _ _ (
                  Steady-call Evolves-IsPreorder env quiet _
                    (λ now. Keeps-Evolves (Keeps-create i room key expires_at now))))
                λ receipt.
                  Steady-and_then
                    (Steady-catch Evolves-IsPreorder _ _ (Steady-provisioner receipt key)
                      (λ _. Steady-abandon i receipt key))
                    λ _.
                      Steady-and_then
                        (Steady-store Evolves-IsPreorder _ _ (
                          Steady-call Evolves-IsPreorder env quiet _ (λ now.
                            Keeps-Evolves (Keeps-inspect_attempt i receipt.ref.attempt_id))))
                        λ attempt. Steady-pure _)

    serve-Evolves : (c : Call) (w : World) → Evolves w.db (serve c w).db
    unfolding serve
    serve-Evolves (enters i room key) w = (Steady-enter i room key).at w
    serve-Evolves (leaves i id key) w =
        (Steady-leave env quiet cleanup i id key Steady-cleanup).at w
    serve-Evolves (resets i id key) w = (Steady-reset env quiet i id key).at w
    serve-Evolves (verifies i id key) w =
        (Steady-verify env quiet d.verify_runtime d.backend d.control i id key).at w
    serve-Evolves (asks i id) w = (Steady-status env quiet i id).at w
    serve-Evolves maintains w = Steady-maintenance.at w

    -- Whatever sequence of room services runs, whatever the runtime, the cleanup worker's runtime
    -- and the clock answer and whichever transactions fail, as long as what other writers do in
    -- between lets the tables evolve, the whole sequence lets the tables evolve: intents and
    -- DESTROYED are never taken back, owners, rooms and deadlines stay, generations never fall.
    pub serve_all-Evolves : (cs : List Call) (w : World) → Evolves w.db (serve_all cs w).db
    unfolding serve_all
    serve_all-Evolves [] w = Evolves-refl w.db
    serve_all-Evolves (c ∷ cs) w =
        Evolves-trans w.db (serve c w).db (serve_all cs (serve c w)).db (serve-Evolves c w)
          (serve_all-Evolves cs (serve c w))
