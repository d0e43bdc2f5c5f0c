-- ===== src/StateStore/Evolves/Sandboxes.antt =====
-- control_plane.py: its methods, against Steps.
use failroom.Prelude.{arith, String, Option, none, some, List, [], ◌∷◌, ℕ, Bool}
use failroom.StateStore.Models.{
  ServiceIdentity, ResourceRef, Datetime, Clock, ℤ, State, CapabilityUse,
}
use failroom.StateStore.Rows.{AttemptRow, ResourceRow, OperationRow, LeaseRow}
use failroom.StateStore.Tx.{pure}
use failroom.StateStore.Tx.Rules.{Keeps, Keeps-bind, Keeps-pure}
use failroom.StateStore.Libs.{Libs}
use failroom.StateStore.ControlPlane.{
  accept, transition, apply_move, write_move, Move, grant_attachment_lease, issue_lease,
  write_lease, reconcile, cleanup_failed, visit, visit_all, Candidate, check_arguments,
  check_identifier, cleanup_done, settle_cleanup, lease_of_key, lease_of_jti, reserve, retried,
}
use failroom.StateStore.ControlPlane.Base.{resource, stop, live, stop_and_deny}
use failroom.StateStore.Evolves.Relation.{OperationLe}
use failroom.StateStore.Evolves.Steps.{Steps, Steps-IsPreorder}
use failroom.StateStore.Evolves.Writes.{Keeps-update_operation}
use failroom.StateStore.Evolves.Shared.{evolving}

pub Keeps-resource : (ref : ResourceRef) → Keeps Steps (resource ref)
unfolding resource
Keeps-resource ref = search evolving

Keeps-stop : (row : ResourceRow) (expired : Bool) → Keeps Steps (stop row expired)
unfolding stop
Keeps-stop row expired = search evolving

Keeps-stop_and_deny : (found : Option ResourceRow) → Keeps Steps (stop_and_deny found)
Keeps-stop_and_deny none = search evolving
Keeps-stop_and_deny (some r) = search (evolving, Keeps-stop)

Keeps-live :
    (a : AttemptRow) (found : Option ResourceRow) (now : ℕ) → Keeps Steps (live a found now)
unfolding live
Keeps-live a found now = search (evolving, Keeps-stop_and_deny)

Keeps-check_identifier : (id : Option String) → Keeps Steps (check_identifier id)
Keeps-check_identifier none = search evolving
Keeps-check_identifier (some id) = search evolving

Keeps-check_arguments :
    (state : State) (container evidence code : Option String)
    → Keeps Steps (check_arguments state container evidence code)
unfolding check_arguments
Keeps-check_arguments state container evidence code =
    search (evolving, Keeps-check_identifier) depth 20

cleanup_done-OperationLe : (version : ℕ) (o : OperationRow) → OperationLe o (cleanup_done version o)
cleanup_done-OperationLe version o = ground arith

retried-OperationLe :
    (at : ℕ) (code : String) (version : ℕ) (o : OperationRow)
    → OperationLe o (retried at code version o)
retried-OperationLe at code version o = ground arith

Keeps-settle_cleanup :
    (state : State) (sandbox_id : String) (version : ℕ)
    → Keeps Steps (settle_cleanup state sandbox_id version)
Keeps-settle_cleanup state sandbox_id version =
    search (evolving, Keeps-update_operation, cleanup_done-OperationLe version)

Keeps-reserve : (a : AttemptRow) (expired : Bool) → Keeps Steps (reserve a expired)
unfolding reserve
Keeps-reserve a expired = search (evolving) depth 20

Keeps-lease_of_key :
    (l : Option LeaseRow) (fingerprint : String) → Keeps Steps (lease_of_key l fingerprint)
Keeps-lease_of_key none fingerprint = search evolving
Keeps-lease_of_key (some l) fingerprint = search evolving

Keeps-lease_of_jti :
    (l : Option LeaseRow) (fingerprint : String) → Keeps Steps (lease_of_jti l fingerprint)
Keeps-lease_of_jti none fingerprint = search evolving
Keeps-lease_of_jti (some l) fingerprint = search evolving

module _ ⦃lib : Libs⦄ where
  pub Keeps-accept :
      (i : ServiceIdentity) (ref : ResourceRef) (key : String) (now : Clock)
      → Keeps Steps (accept i ref key now)
  unfolding accept
  Keeps-accept i ref key now = search (evolving, Keeps-live) depth 30

  Keeps-apply_move :
      (actor key fingerprint : String) (ref : ResourceRef) (m : Move) (a : AttemptRow)
      (r : ResourceRow) (clock : ℕ)
      → Keeps Steps (apply_move actor key fingerprint ref m a r clock)
  unfolding apply_move write_move
  Keeps-apply_move actor key fingerprint ref m a r clock =
      search (evolving, Keeps-settle_cleanup) depth 20

  pub Keeps-transition :
      (i : ServiceIdentity) (ref : ResourceRef) (m : Move) (key : String) (now : Clock)
      → Keeps Steps (transition i ref m key now)
  unfolding transition
  Keeps-transition i ref m key now =
      search (evolving, Keeps-live, Keeps-resource, Keeps-check_arguments, Keeps-apply_move) depth
        30

  Keeps-issue_lease :
      (actor key fingerprint : String) (ref : ResourceRef) (consumed : CapabilityUse) (epoch : ℕ)
      (session_hash : String) (clock duration deadline : ℕ)
      → Keeps Steps (
          issue_lease actor key fingerprint ref consumed epoch session_hash clock duration deadline)
  unfolding issue_lease write_lease
  Keeps-issue_lease actor key fingerprint ref consumed epoch session_hash clock duration deadline =
      search evolving depth 20

  pub Keeps-grant_attachment_lease :
      (i : ServiceIdentity) (ref : ResourceRef) (consumed : CapabilityUse) (session : String)
      (duration : ℕ) (key : String) (now : Clock)
      → Keeps Steps (grant_attachment_lease i ref consumed session duration key now)
  unfolding grant_attachment_lease
  Keeps-grant_attachment_lease i ref consumed session duration key now =
      search
        (
          evolving, Keeps-live, Keeps-resource, Keeps-lease_of_key, Keeps-lease_of_jti,
          Keeps-issue_lease,
        )
        depth 50 fits 20000

  Keeps-visit : (clock : ℕ) (c : Candidate) → Keeps Steps (visit clock c)
  unfolding visit
  Keeps-visit clock c = search (evolving, Keeps-resource, Keeps-stop) depth 30

  Keeps-visit_all : (clock : ℕ) (cs : List Candidate) → Keeps Steps (visit_all clock cs)
  unfolding visit_all
  Keeps-visit_all clock [] = search evolving
  Keeps-visit_all clock (c ∷ cs) =
      Keeps-bind Steps-IsPreorder (visit clock c) _ (Keeps-visit clock c) λ task.
        Keeps-bind Steps-IsPreorder (visit_all clock cs) (λ tasks. pure (task ∷ tasks))
          (Keeps-visit_all clock cs) (λ tasks. Keeps-pure Steps-IsPreorder _)

  pub Keeps-reconcile :
      (i : ServiceIdentity) (now : Clock) (limit : ℕ) → Keeps Steps (reconcile i now limit)
  unfolding reconcile
  Keeps-reconcile i now limit = search (evolving, Keeps-visit_all) depth 30

  pub Keeps-cleanup_failed :
      (i : ServiceIdentity) (ref : ResourceRef) (operation_id : String) (v : ℤ) (key code : String)
      (retry_at : Datetime) (now : Clock)
      → Keeps Steps (cleanup_failed i ref operation_id v key code retry_at now)
  unfolding cleanup_failed
  Keeps-cleanup_failed i ref operation_id v key code retry_at now =
      search (evolving, Keeps-resource, Keeps-update_operation, retried-OperationLe) depth 40
