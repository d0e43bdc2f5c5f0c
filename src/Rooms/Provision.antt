-- ===== src/Rooms/Provision.antt =====
-- orchestrator.py, LifecycleOrchestrator: a store transition before each effect on the runtime.
use Prim.Native.String.{String, ◌++◌}
use failroom.Prelude.{ℕ, Bool, true, false, ◌==◌, nat_eq, Option, none, some}
use failroom.Prelude.Answers.{Answer, returns, raises}
use failroom.StateStore.Models.{
  ServiceIdentity, ResourceRef, Receipt, Resource, Code, Clock, State, state_eq, pos, provisioning,
  resetting, failed, invalid_request,
}
use failroom.StateStore.Tx.{Tx}
use failroom.StateStore.Libs.{Libs}
use failroom.StateStore.Backend
use failroom.StateStore.ControlPlane
use failroom.StateStore.ControlPlane.{Move}
use failroom.StateStore.Worker.World.{Env, World, call}
use failroom.Rooms.Acts.{Act, pure, raise, store, ◌>>◌}
use failroom.Rooms.Keys.{phase_key}

-- the code of a DockerError, as far as `_failure_code` tells codes apart
pub data DockerCode : Type 0 where
  runtime_unavailable refused : DockerCode

-- What a call of the runtime raises: a DockerError, or any other exception.
pub data Thrown : Type 0 where
  docker : DockerCode → Thrown
  other : Thrown

-- the code of the LifecycleError that leaves `provision`: one of its own, or that of a StoreError
pub data ProvisionCode : Type 0 where
  of_store : Code → ProvisionCode
  create_failed start_failed runtime_unavailable : ProvisionCode

-- an exception under way
pub data Raised : Type 0 where
  lifecycle : ProvisionCode → Raised
  store_error : Code → Raised
  thrown : Thrown → Raised

-- The injected runtime: entering and leaving its context, and the calls of its session. A response
-- of another type than the caller expects is a DockerError. A digest stands for an observation.
pub record Runtime : Type 0 where
  pub enter : Resource → String → Option Thrown
  pub create : Resource → Answer Thrown String
  pub start : String → Answer Thrown String
  -- the session is a DiskFullBootstrapSession
  pub bootstraps : Bool
  pub bootstrap : String → String → Answer Thrown String
  pub exit : Resource → Option Thrown

pub data Phase : Type 0 where
  create start bootstrap : Phase

abbrev pub phase_name : Phase → String
phase_name create = "create"
phase_name start = "start"
phase_name bootstrap = "bootstrap"

-- `_failure_code`
unfoldable pub failure_code : DockerCode → Phase → ProvisionCode
failure_code runtime_unavailable p = ProvisionCode.runtime_unavailable
failure_code refused Phase.create = create_failed
failure_code refused p = start_failed

abbrev pub failure_text : DockerCode → Phase → String
failure_text runtime_unavailable p = "RUNTIME_UNAVAILABLE"
failure_text refused Phase.create = "CREATE_FAILED"
failure_text refused p = "START_FAILED"

abbrev pub move_to : State → ℕ → Option String → Option String → Option String → Move
move_to state version container digest code = record {
  expected_version = pos version;
  state = state;
  container_id = container;
  evidence_digest = digest;
  error_code = code;
}

-- `provision`'s last handler: a StoreError becomes a LifecycleError with its code.
abbrev pub as_lifecycle : Raised → Raised
as_lifecycle (store_error e) = lifecycle (of_store e)
as_lifecycle r = r

-- What the block under `with` comes to, with the resource that `current` names then.
abbrev pub Body : Type 0
Body = World → (Resource × Answer Raised String) × World

abbrev pub stage : {A : Type 0} → Resource → Act Raised A → (A → Body) → Body
stage c m k w = let (r, w') = m w in elim r [ returns a ↦ k a w' | raises e ↦ ((c, raises e), w') ]

abbrev pub ends : Resource → Answer Raised String → Body
ends c r w = ((c, r), w)

module _ ⦃lib : Libs⦄ (env : Env) where
  abbrev pub store_call : {A : Type 0} → (Clock → Tx A) → Act Raised A
  store_call m = store store_error (call env m)

  -- a call of the store under the key of a phase
  abbrev pub keyed :
      {A : Type 0} → String → String → ResourceRef → ℕ → (String → Clock → Tx A) → Act Raised A
  keyed root phase ref version m = elim (phase_key root phase ref version) [
    | none ↦ raise (lifecycle (of_store invalid_request))
    | some key ↦ store_call (m key)
  ]

  abbrev pub control_inspect : ServiceIdentity → ResourceRef → Act Raised Resource
  control_inspect control ref = store_call (λ now. ControlPlane.inspect control ref)

  -- `_publish_ready`
  unfoldable pub publish_ready : Receipt → ServiceIdentity → String → Act Raised Receipt
  publish_ready receipt backend root = keyed root "publish" receipt.ref receipt.version λ key now.
      elim (receipt.state == provisioning) [
        | true ↦ Backend.publish_ready backend receipt.ref (pos receipt.version) key now
        | false ↦ Backend.publish_reset_ready backend receipt.ref (pos receipt.version) key now
      ]

  -- `_fail`
  unfoldable pub fail_resource :
      Resource
      → ServiceIdentity
      → ServiceIdentity
      → Receipt
      → String
      → DockerCode
      → Phase
      → Act Raised (Unit {0})
  fail_resource resource control backend receipt root code phase = do
    keyed root (phase_name phase ++ "-failed") resource.ref resource.version λ key now.
        ControlPlane.transition control resource.ref
          (move_to failed resource.version none none (some (failure_text code phase))) key now
    elim (receipt.state == resetting) [
      | true ↦ do
        keyed root "reset-failed" receipt.ref receipt.version
            λ key now. Backend.fail_reset backend receipt.ref (pos receipt.version) key now
        pure tt
      | false ↦ pure tt
    ]
