-- ===== src/StateStore/Evolves/Authority.antt =====
-- The roles, scopes and owners that the requests of History are held to (common.py, service, user
-- and owned, as the methods of both stores call them).
use failroom.Prelude.{
  String, ◌≡◌, ◌≢◌, ◌⊎◌, inl, inr, refl, arith, false, some, text_beq→eq, text_eq,
}
use failroom.StateStore.Models.{
  Code, UserIdentity, ServiceIdentity, ResourceRef, Role, Action, not_authorized, role_eq, Clock,
  Datetime,
}
use failroom.StateStore.Rows.{AttemptRow}
use failroom.StateStore.Tx.{Db, Tx, Result, ok, err, lift, transaction, ◌>>=◌}
use failroom.StateStore.Libs.{Libs}
use failroom.StateStore.Sql.{attempt_of}
use failroom.StateStore.Common.{service, user, in_scopes, member, owned, owner_check}
use failroom.StateStore.Backend
use failroom.StateStore.ControlPlane
use failroom.StateStore.Evolves.History.{Request, handle}

-- the identity is not of the role, or has not the scope
abbrev pub Lacks : ServiceIdentity → Role → Action → Type 0
Lacks i role action = (i.role ≢ role) ⊎ (in_scopes action i.scopes ≡ false)

-- the identity does not own the attempt, or is not authorised for its room
abbrev pub NotOwner : UserIdentity → ResourceRef → Db → Type 0
NotOwner i ref s =
    (a : AttemptRow) × (attempt_of s ref.attempt_id ≡ some a)
    × ((a.user_id ≢ i.user_id) ⊎ (member a.room_id i.authorized_room_ids ≡ false))

-- Who may not make a request: which role and scope each asks of a service, and which room of a user.
unfoldable pub Unauthorised : Db → Request → Type 0
Unauthorised s (Request.create i room key e now) = member room i.authorized_room_ids ≡ false
Unauthorised s (Request.leave i ref key now) = NotOwner i ref s
Unauthorised s (Request.begin_reset i ref key now) = NotOwner i ref s
Unauthorised s (Request.publish_ready i ref v key now) = Lacks i Role.backend Action.publish
Unauthorised s (Request.publish_running i ref v key now) = Lacks i Role.backend Action.publish
Unauthorised s (Request.publish_resolved i ref v key now) = Lacks i Role.backend Action.publish
Unauthorised s (Request.publish_reset_ready i ref v key now) = Lacks i Role.backend Action.publish
Unauthorised s (Request.fail_reset i ref v key now) = Lacks i Role.backend Action.publish
Unauthorised s (Request.expire i now limit) = Lacks i Role.backend Action.expire
Unauthorised s (Request.reconcile i now limit) = Lacks i Role.control_plane Action.reconcile
Unauthorised s (Request.complete_cleanup i ref key now) = Lacks i Role.backend Action.publish
Unauthorised s (Request.accept i ref key now) = Lacks i Role.backend Action.create
Unauthorised s (Request.consume i claims now) = Lacks i Role.gateway Action.consume
Unauthorised s (Request.transition i ref m key now) = Lacks i Role.control_plane Action.transition
Unauthorised s (Request.grant_attachment_lease i ref use_ session d key now) =
    Lacks i Role.gateway Action.attach
Unauthorised s (Request.cleanup_failed i ref op v key code retry now) =
    Lacks i Role.control_plane Action.reconcile

service_refused :
    (i : ServiceIdentity) (role : Role) (action : Action)
    → Lacks i role action
    → service i role action ≡ err not_authorized
unfolding service
service_refused i role action (inl h) = ground (arith, role_eq.beq→eq i.role role)
service_refused i role action (inr h) = ground arith

-- a method that begins with a refused check commits nothing
kept :
    {A B : Type 0} (r : Result A) (f : A → Tx B) (s : Db) (e : Code)
    → r ≡ err e
    → (transaction (lift r >>= f) s).1 ≡ s
unfolding transaction
kept (ok a) f s e h = cc
kept (err x) f s e h = refl

module _ ⦃lib : Libs⦄ where
  create-kept :
      (i : UserIdentity) (room key : String) (e : Datetime) (now : Clock) (s : Db)
      → member room i.authorized_room_ids ≡ false
      → (transaction (Backend.create i room key e now) s).1 ≡ s
  unfolding Backend.create user transaction
  create-kept i room key e now s h = ground arith

  leave-kept :
      (i : UserIdentity) (ref : ResourceRef) (key : String) (now : Clock) (s : Db)
      → NotOwner i ref s
      → (transaction (Backend.leave i ref key now) s).1 ≡ s
  unfolding Backend.leave owned owner_check user transaction
  leave-kept i ref key now s (a, e, inl h) = ground (arith, text_beq→eq a.user_id i.user_id)
  leave-kept i ref key now s (a, e, inr h) = ground arith

  begin_reset-kept :
      (i : UserIdentity) (ref : ResourceRef) (key : String) (now : Clock) (s : Db)
      → NotOwner i ref s
      → (transaction (Backend.begin_reset i ref key now) s).1 ≡ s
  unfolding Backend.begin_reset owned owner_check user transaction
  begin_reset-kept i ref key now s (a, e, inl h) = ground (arith, text_beq→eq a.user_id i.user_id)
  begin_reset-kept i ref key now s (a, e, inr h) = ground arith

  -- A request to change the tables changes nothing when a service makes it without the role or the
  -- scope that Unauthorised lists for it, when a user asks for an attempt in a room that the user is
  -- not authorised for, and when a user leaves or resets an attempt that is not the user's, or whose
  -- room the user is not authorised for.
  pub Unauthorised-unchanged : (r : Request) (s : Db) → Unauthorised s r → handle r s ≡ s
  unfolding handle Unauthorised Backend.publish_ready Backend.publish_running
      Backend.publish_resolved Backend.publish_reset_ready Backend.fail_reset Backend.expire
      ControlPlane.reconcile Backend.complete_cleanup ControlPlane.accept Backend.consume
      ControlPlane.transition ControlPlane.grant_attachment_lease ControlPlane.cleanup_failed
      Backend.publish_runtime_state
  Unauthorised-unchanged (Request.create i room key e now) s h = create-kept i room key e now s h
  Unauthorised-unchanged (Request.leave i ref key now) s h = leave-kept i ref key now s h
  Unauthorised-unchanged (Request.begin_reset i ref key now) s h =
      begin_reset-kept i ref key now s h
  Unauthorised-unchanged (Request.publish_ready i ref v key now) s h =
      kept (service i Role.backend Action.publish) _ s _
        (service_refused i Role.backend Action.publish h)
  Unauthorised-unchanged (Request.publish_running i ref v key now) s h =
      kept (service i Role.backend Action.publish) _ s _
        (service_refused i Role.backend Action.publish h)
  Unauthorised-unchanged (Request.publish_resolved i ref v key now) s h =
      kept (service i Role.backend Action.publish) _ s _
        (service_refused i Role.backend Action.publish h)
  Unauthorised-unchanged (Request.publish_reset_ready i ref v key now) s h =
      kept (service i Role.backend Action.publish) _ s _
        (service_refused i Role.backend Action.publish h)
  Unauthorised-unchanged (Request.fail_reset i ref v key now) s h =
      kept (service i Role.backend Action.publish) _ s _
        (service_refused i Role.backend Action.publish h)
  Unauthorised-unchanged (Request.expire i now limit) s h =
      kept (service i Role.backend Action.expire) _ s _
        (service_refused i Role.backend Action.expire h)
  Unauthorised-unchanged (Request.reconcile i now limit) s h =
      kept (service i Role.control_plane Action.reconcile) _ s _
        (service_refused i Role.control_plane Action.reconcile h)
  Unauthorised-unchanged (Request.complete_cleanup i ref key now) s h =
      kept (service i Role.backend Action.publish) _ s _
        (service_refused i Role.backend Action.publish h)
  Unauthorised-unchanged (Request.accept i ref key now) s h =
      kept (service i Role.backend Action.create) _ s _
        (service_refused i Role.backend Action.create h)
  Unauthorised-unchanged (Request.consume i claims now) s h =
      kept (service i Role.gateway Action.consume) _ s _
        (service_refused i Role.gateway Action.consume h)
  Unauthorised-unchanged (Request.transition i ref m key now) s h =
      kept (service i Role.control_plane Action.transition) _ s _
        (service_refused i Role.control_plane Action.transition h)
  Unauthorised-unchanged (Request.grant_attachment_lease i ref use_ session d key now) s h =
      kept (service i Role.gateway Action.attach) _ s _
        (service_refused i Role.gateway Action.attach h)
  Unauthorised-unchanged (Request.cleanup_failed i ref op v key code retry now) s h =
      kept (service i Role.control_plane Action.reconcile) _ s _
        (service_refused i Role.control_plane Action.reconcile h)
