-- ===== src/Rooms/Verifying.antt =====
-- recovery.py, against the relation between tables of StateStore/Evolves.
use failroom.Prelude.{not, ◌==◌, ◌&&◌, nat_eq, ℕ, String, Option, none, some}
use failroom.Prelude.Answers.{Answer, returns, raises}
use failroom.StateStore.Models.{
  UserIdentity, ServiceIdentity, ResourceRef, Resource, Attempt, Receipt, Clock, State, state_eq,
  ready, running, resolved, active_ref,
}
use failroom.StateStore.Tx.{Tx}
use failroom.StateStore.Tx.Rules.{Keeps}
use failroom.StateStore.Libs.{Libs}
use failroom.StateStore.Worker.World.{Env, call}
use failroom.StateStore.Evolves.Steps.{Steps, Keeps-Evolves}
use failroom.StateStore.Evolves.Relation.{Evolves, Evolves-IsPreorder}
use failroom.StateStore.Evolves.Attempts.{Keeps-publish_runtime_state}
use failroom.StateStore.Backend
use failroom.StateStore.Evolves.Sandboxes.{Keeps-transition}
use failroom.StateStore.Evolves.Reads.{
  Keeps-inspect_attempt, Keeps-inspect_resource, Keeps-room_id_for_binding,
}
use failroom.StateStore.ControlPlane
use failroom.Rooms.Acts.{Act, pure, ◌>>=◌}
use failroom.Rooms.Provision.{Thrown}
use failroom.Rooms.Recovery.{
  RecoveryCode, unavailable, invalid, not_verified, recovery_code, recovery_call, recovery_key,
  recovery_keyed, verify_code, resolution_digest, observed, proof_of, prove, recovery_move,
  to_running, to_resolved, conclude, context, recover, verify,
}
use failroom.Rooms.Recovery as Recovery
use failroom.Rooms.Steady.{
  Steady, OthersKeep, Steady-store, Steady-call, Steady-cases, Steady-unless,
}
use failroom.Rooms.Evolving.{Steady-raise, Steady-pure, Steady-and_then}

module _ ⦃lib : Libs⦄ (env : Env) (quiet : OthersKeep Evolves env) where
  Steady-recovery_call :
      {A : Type 0} (m : Clock → Tx A)
      → ((now : Clock) → Keeps Steps (m now))
      → Steady Evolves (recovery_call env m)
  Steady-recovery_call m k =
      Steady-store Evolves-IsPreorder recovery_code (call env m)
        (Steady-call Evolves-IsPreorder env quiet m (λ now. Keeps-Evolves (k now)))

  keyed_by :
      {A : Type 0} (o : Option String) (m : String → Clock → Tx A)
      → ((key : String) (now : Clock) → Keeps Steps (m key now))
      → Steady Evolves {X = Answer RecoveryCode A} (elim o [
        | none ↦ failroom.Rooms.Acts.raise invalid
        | some key ↦ recovery_call env (m key)
      ])
  keyed_by none m k = Steady-raise _
  keyed_by (some key) m k = Steady-recovery_call (m key) (k key)

  Steady-recovery_keyed :
      {A : Type 0} (root phase : String) (ref : ResourceRef) (v : ℕ) (m : String → Clock → Tx A)
      → ((key : String) (now : Clock) → Keeps Steps (m key now))
      → Steady Evolves (recovery_keyed env root phase ref v m)
  Steady-recovery_keyed root phase ref v m k = keyed_by (recovery_key env root phase ref v) m k

  Keeps-running :
      (i : ServiceIdentity) (ref : ResourceRef) (v : failroom.StateStore.Models.ℤ) (key : String)
      (now : Clock)
      → Keeps Steps (Backend.publish_running i ref v key now)
  unfolding Backend.publish_running
  Keeps-running i ref v key now = Keeps-publish_runtime_state ready running i ref v key now

  Keeps-resolved :
      (i : ServiceIdentity) (ref : ResourceRef) (v : failroom.StateStore.Models.ℤ) (key : String)
      (now : Clock)
      → Keeps Steps (Backend.publish_resolved i ref v key now)
  unfolding Backend.publish_resolved
  Keeps-resolved i ref v key now = Keeps-publish_runtime_state running resolved i ref v key now

  module _ (verify_runtime : Resource → String → Answer Thrown String)
      (backend control : ServiceIdentity) (identity : UserIdentity) (attempt_id root : String) where
    Steady-proof_of :
        (operation container evidence : Option String) (room : String) (r : Resource)
        → Steady Evolves (
            proof_of env verify_runtime backend control identity attempt_id root operation container
              evidence room r)
    Steady-proof_of none container evidence room r = Steady-raise _
    Steady-proof_of (some o) none evidence room r = Steady-raise _
    Steady-proof_of (some o) (some c) none room r = Steady-raise _
    Steady-proof_of (some o) (some c) (some e) room r = seen (verify_runtime r room)
      where
        seen :
            (a : Answer Thrown String)
            → Steady Evolves
                (observed env verify_runtime backend control identity attempt_id root e a)
        seen (returns digest) = Steady-pure _
        seen (raises t) = Steady-raise _

    Steady-prove :
        (room : String) (r : Resource)
        → Steady Evolves (prove env verify_runtime backend control identity attempt_id root room r)
    unfolding prove
    Steady-prove room r =
        Steady-proof_of r.runtime_operation_id r.container_id r.evidence_digest room r

    Steady-recovery_move :
        (r : Resource) (state : State) (phase : String) (digest : Option String)
        → Steady Evolves (
            recovery_move env verify_runtime backend control identity attempt_id root r state phase
              digest)
    unfolding recovery_move
    Steady-recovery_move r state phase digest =
        Steady-and_then
          (Steady-recovery_keyed root phase r.ref r.version _
            (λ key now. Keeps-transition control r.ref _ key now))
          λ moved.
            Steady-and_then (Steady-recovery_call _ (λ now. Keeps-inspect_resource control r.ref))
              λ r'.
                Steady-unless Evolves-IsPreorder (not (r'.version == moved.version)) unavailable _
                  (Steady-pure r')

    Steady-to_running :
        (a : Attempt) (r : Resource)
        → Steady Evolves
            (to_running env verify_runtime backend control identity attempt_id root a r)
    unfolding to_running
    Steady-to_running a r =
        Steady-cases Evolves-IsPreorder (r.state == ready) _ _
          (Steady-unless Evolves-IsPreorder (not (a.state == ready)) unavailable _
            (Steady-recovery_move r running "running" none))
          (Steady-pure r)

    Steady-published :
        (r : Resource) (a : Attempt) (phase : String) (m : String → Clock → Tx Receipt)
        → ((key : String) (now : Clock) → Keeps Steps (m key now))
        → Steady Evolves (
            Recovery.published env verify_runtime backend control identity attempt_id root r a phase
              m)
    Steady-published r a phase m k =
        Steady-and_then (Steady-recovery_keyed root phase r.ref a.version m k) λ receipt.
          Steady-and_then
            (Steady-recovery_call _ (λ now. Keeps-inspect_attempt identity attempt_id))
            λ a'.
              Steady-unless Evolves-IsPreorder (not (a'.version == receipt.version)) unavailable _
                (Steady-pure a')

    Steady-publish_running :
        (r : Resource) (a : Attempt)
        → Steady Evolves (
            Recovery.publish_running env verify_runtime backend control identity attempt_id root r
              a)
    unfolding Recovery.publish_running
    Steady-publish_running r a =
        Steady-cases Evolves-IsPreorder (a.state == ready) _ _
          (Steady-published r a "publish-running" _
            (λ key now. Keeps-running backend r.ref _ key now))
          (Steady-pure a)

    Steady-publish_resolved :
        (r : Resource) (a : Attempt)
        → Steady Evolves (
            Recovery.publish_resolved env verify_runtime backend control identity attempt_id root r
              a)
    unfolding Recovery.publish_resolved
    Steady-publish_resolved r a =
        Steady-cases Evolves-IsPreorder (a.state == running) _ _
          (Steady-published r a "publish-resolved" _
            (λ key now. Keeps-resolved backend r.ref _ key now))
          (Steady-pure a)

    Steady-to_resolved :
        (room : String) (a : Attempt) (r : Resource)
        → Steady Evolves
            (to_resolved env verify_runtime backend control identity attempt_id root room a r)
    unfolding to_resolved
    Steady-to_resolved room a r =
        Steady-cases Evolves-IsPreorder (r.state == running) _ _
          (Steady-and_then (Steady-publish_running r a) λ a'.
            Steady-unless Evolves-IsPreorder (not (a'.state == running)) unavailable _ (
              Steady-and_then (Steady-prove room r) λ digest.
                Steady-and_then (Steady-recovery_move r resolved "resolved" (some digest))
                  λ r'. Steady-pure (a', r')))
          (Steady-pure (a, r))

    Steady-conclude :
        (p : Attempt × Resource)
        → Steady Evolves (conclude env verify_runtime backend control identity attempt_id root p)
    unfolding conclude
    Steady-conclude (a, r) =
        Steady-unless Evolves-IsPreorder (not (r.state == resolved)) unavailable _ (
          Steady-and_then (Steady-publish_resolved r a) λ a'.
            Steady-unless Evolves-IsPreorder (not (a'.state == resolved)) unavailable _
              (Steady-pure _))

    Steady-context :
        Steady Evolves (context env verify_runtime backend control identity attempt_id root)
    unfolding context
    Steady-context =
        Steady-and_then (Steady-recovery_call _ (λ now. Keeps-inspect_attempt identity attempt_id))
          λ a. found a (active_ref a)
      where
        found :
            (a : Attempt) (o : Option ResourceRef)
            → Steady Evolves {X = Answer RecoveryCode (Attempt × Resource × String)} (elim o [
              | none ↦ failroom.Rooms.Acts.raise unavailable
              | some ref ↦ do
                room ← recovery_call env (λ now. Backend.room_id_for_binding backend ref)
                r ← recovery_call env (λ now. ControlPlane.inspect control ref)
                pure (a, r, room)
            ])
        found a none = Steady-raise _
        found a (some ref) =
            Steady-and_then (Steady-recovery_call _ (λ now. Keeps-room_id_for_binding backend ref))
              λ room.
                Steady-and_then (Steady-recovery_call _ (λ now. Keeps-inspect_resource control ref))
                  λ r. Steady-pure (a, r, room)

    Steady-recover :
        (p : Attempt × Resource × String)
        → Steady Evolves (recover env verify_runtime backend control identity attempt_id root p)
    unfolding recover
    Steady-recover (a, r, room) =
        Steady-cases Evolves-IsPreorder (a.state == resolved && r.state == resolved) _ _
          (Steady-pure _)
          (Steady-and_then (Steady-to_running a r)
            λ r'. Steady-and_then (Steady-to_resolved room a r') (λ p. Steady-conclude p))

    -- A verification, whatever the runtime answers, lets the tables evolve.
    pub Steady-verify :
        Steady Evolves (verify env verify_runtime backend control identity attempt_id root)
    unfolding verify
    Steady-verify = Steady-and_then Steady-context (λ p. Steady-recover p)
