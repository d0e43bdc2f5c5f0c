-- ===== src/Rooms/Recovery.antt =====
-- recovery.py, RecoveryVerificationService: a room is RESOLVED when its runtime proves recovery.
use Prim.Native.String.{String, ◌++◌}
use failroom.Prelude.{
  ℕ, true, false, not, ◌==◌, ◌&&◌, nat_eq, Option, none, some, [], ◌∷◌, text_beq,
}
use failroom.Prelude.Answers.{Answer, returns, raises}
use failroom.StateStore.Models.{
  Attempt, UserIdentity, ServiceIdentity, ResourceRef, Resource, Code, Clock, State, state_eq, pos,
  ready, running, resolved, not_authorized, invalid_request, active_ref,
}
use failroom.StateStore.Tx.{Tx}
use failroom.StateStore.Libs.{Libs}
use failroom.StateStore.Backend
use failroom.StateStore.ControlPlane
use failroom.StateStore.Worker.World.{Env, call}
use failroom.Rooms.Acts.{Act, pure, raise, unless, store, ◌>>=◌}
use failroom.Rooms.Keys.{phase_key}
use failroom.Rooms.Lifecycle.{RoomStatus, status_of}
use failroom.Rooms.Provision.{Thrown, docker, move_to, runtime_unavailable, refused}

-- the codes of RecoveryError
pub data RecoveryCode : Type 0 where
  unavailable unauthorized invalid not_verified recovery_unavailable : RecoveryCode

-- `_raise_store`
unfoldable pub recovery_code : Code → RecoveryCode
recovery_code not_authorized = unauthorized
recovery_code invalid_request = invalid
recovery_code _ = unavailable

-- what a failure of the runtime is reported as
abbrev pub verify_code : Thrown → RecoveryCode
verify_code (docker runtime_unavailable) = recovery_unavailable
verify_code (docker refused) = not_verified
verify_code Thrown.other = recovery_unavailable

module _ ⦃lib : Libs⦄ (env : Env) where
  abbrev pub recovery_call : {A : Type 0} → (Clock → Tx A) → Act RecoveryCode A
  recovery_call m = store recovery_code (call env m)

  -- `_phase_key` refuses an empty key
  unfoldable pub recovery_key : String → String → ResourceRef → ℕ → Option String
  recovery_key root phase ref version = elim (text_beq root "") [
    | true ↦ none
    | false ↦ phase_key root phase ref version
  ]

  abbrev pub recovery_keyed :
      {A : Type 0}
      → String
      → String
      → ResourceRef
      → ℕ
      → (String → Clock → Tx A)
      → Act RecoveryCode A
  recovery_keyed root phase ref version m = elim (recovery_key root phase ref version) [
    | none ↦ raise invalid
    | some key ↦ recovery_call (m key)
  ]

  -- the injected runtime's `verify` returns the digest of an observation, or raises
  module _ (verify_runtime : Resource → String → Answer Thrown String)
      (backend control : ServiceIdentity) (identity : UserIdentity) (attempt_id root : String) where
    -- `_resolution_digest`
    abbrev pub resolution_digest : String → String → String
    resolution_digest evidence observation =
        "sha256:"
        ++ lib.sha256 (
            lib.canonical (
              ("ready", evidence)
              ∷ ("recovery", observation)
              ∷ ("schema", "failroom.disk-full-resolved.v1")
              ∷ []))

    abbrev pub observed : String → Answer Thrown String → Act RecoveryCode String
    observed evidence (returns observation) = pure (resolution_digest evidence observation)
    observed evidence (raises e) = raise (verify_code e)

    -- `_verify_runtime` and the digest of what it returned
    abbrev pub proof_of :
        Option String → Option String → Option String → String → Resource → Act RecoveryCode String
    proof_of (some operation) (some container) (some evidence) room r =
        observed evidence (verify_runtime r room)
    proof_of operation container evidence room r = raise not_verified

    unfoldable pub prove : String → Resource → Act RecoveryCode String
    prove room r = proof_of r.runtime_operation_id r.container_id r.evidence_digest room r

    -- a move of the resource, and the resource read again
    unfoldable pub recovery_move :
        Resource → State → String → Option String → Act RecoveryCode Resource
    recovery_move r state phase digest = do
      moved ← recovery_keyed root phase r.ref r.version λ key now.
          ControlPlane.transition control r.ref (move_to state r.version none digest none) key now
      r' ← recovery_call (λ now. ControlPlane.inspect control r.ref)
      unless (not (r'.version == moved.version)) unavailable (pure r')

    -- `if resource.state == READY`
    unfoldable pub to_running : Attempt → Resource → Act RecoveryCode Resource
    to_running a r = elim (r.state == ready) [
      | false ↦ pure r
      | true ↦ unless (not (a.state == ready)) unavailable (recovery_move r running "running" none)
    ]

    -- the attempt is published under its version, and read again
    abbrev pub published :
        Resource
        → Attempt
        → String
        → (String → Clock → Tx failroom.StateStore.Models.Receipt)
        → Act RecoveryCode Attempt
    published r a phase m = do
      receipt ← recovery_keyed root phase r.ref a.version m
      a' ← recovery_call (λ now. Backend.inspect identity attempt_id)
      unless (not (a'.version == receipt.version)) unavailable (pure a')

    unfoldable pub publish_running : Resource → Attempt → Act RecoveryCode Attempt
    publish_running r a = elim (a.state == ready) [
      | false ↦ pure a
      | true ↦
          published r a "publish-running"
            λ key now. Backend.publish_running backend r.ref (pos a.version) key now
    ]

    -- `if resource.state == RUNNING`
    unfoldable pub to_resolved : String → Attempt → Resource → Act RecoveryCode (Attempt × Resource)
    to_resolved room a r = elim (r.state == running) [
      | false ↦ pure (a, r)
      | true ↦ do
        a' ← publish_running r a
        unless (not (a'.state == running)) unavailable do
          digest ← prove room r
          r' ← recovery_move r resolved "resolved" (some digest)
          pure (a', r')
    ]

    unfoldable pub publish_resolved : Resource → Attempt → Act RecoveryCode Attempt
    publish_resolved r a = elim (a.state == running) [
      | false ↦ pure a
      | true ↦
          published r a "publish-resolved"
            λ key now. Backend.publish_resolved backend r.ref (pos a.version) key now
    ]

    -- `if resource.state == RESOLVED`, and the last refusal
    unfoldable pub conclude : Attempt × Resource → Act RecoveryCode RoomStatus
    conclude (a, r) = unless (not (r.state == resolved)) unavailable do
      a' ← publish_resolved r a
      unless (not (a'.state == resolved)) unavailable (pure (status_of a'))

    -- `_context`, with the active reference
    unfoldable pub context : Act RecoveryCode (Attempt × Resource × String)
    context = do
      a ← recovery_call (λ now. Backend.inspect identity attempt_id)
      elim (active_ref a) [
        | none ↦ raise unavailable
        | some ref ↦ do
          room ← recovery_call (λ now. Backend.room_id_for_binding backend ref)
          r ← recovery_call (λ now. ControlPlane.inspect control ref)
          pure (a, r, room)
      ]

    -- what follows the context
    unfoldable pub recover : Attempt × Resource × String → Act RecoveryCode RoomStatus
    recover (a, r, room) = elim (a.state == resolved && r.state == resolved) [
      | true ↦ pure (status_of a)
      | false ↦ do r' ← to_running a r; both ← to_resolved room a r'; conclude both
    ]

    -- `verify`
    unfoldable pub verify : Act RecoveryCode RoomStatus
    verify = do found ← context; recover found
