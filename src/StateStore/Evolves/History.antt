-- ===== src/StateStore/Evolves/History.antt =====
-- Any sequence of requests to the two stores, each one its own transaction (database.py,
-- `_transaction`). Requests that only read are left out: they commit nothing.
use failroom.Prelude.{String, List, [], ◌∷◌, ℕ}
use failroom.StateStore.Models.{
  UserIdentity, ServiceIdentity, ResourceRef, Datetime, Clock, ℤ, CapabilityClaims, CapabilityUse,
  ready, running, resolved,
}
use failroom.StateStore.Tx.{Db, Tx, transaction}
use failroom.StateStore.Tx.Rules.{Keeps, Keeps-transaction}
use failroom.StateStore.Libs.{Libs}
use failroom.StateStore.Backend
use failroom.StateStore.ControlPlane
use failroom.StateStore.ControlPlane.{Move}
use failroom.StateStore.Evolves.Relation.{Evolves}
use failroom.StateStore.Evolves.Sound.{Sound}
use failroom.StateStore.Evolves.Steps.{Steps, Steps-refl, Steps-trans, Steps-IsPreorder}
use failroom.StateStore.Evolves.Attempts.{
  Keeps-create, Keeps-leave, Keeps-publish_ready, Keeps-publish_runtime_state, Keeps-begin_reset,
  Keeps-publish_reset_ready, Keeps-fail_reset, Keeps-expire, Keeps-complete_cleanup, Keeps-consume,
}
use failroom.StateStore.Evolves.Sandboxes.{
  Keeps-accept, Keeps-transition, Keeps-grant_attachment_lease, Keeps-reconcile,
  Keeps-cleanup_failed,
}

pub data Request : Type 0 where
  create : UserIdentity → String → String → Datetime → Clock → Request
  leave begin_reset : UserIdentity → ResourceRef → String → Clock → Request
  publish_ready publish_running publish_resolved publish_reset_ready fail_reset :
      ServiceIdentity → ResourceRef → ℤ → String → Clock → Request
  expire reconcile : ServiceIdentity → Clock → ℕ → Request
  complete_cleanup accept : ServiceIdentity → ResourceRef → String → Clock → Request
  consume : ServiceIdentity → CapabilityClaims → Clock → Request
  transition : ServiceIdentity → ResourceRef → Move → String → Clock → Request
  grant_attachment_lease :
      ServiceIdentity → ResourceRef → CapabilityUse → String → ℕ → String → Clock → Request
  cleanup_failed :
      ServiceIdentity → ResourceRef → String → ℤ → String → String → Datetime → Clock → Request

abbrev pub committed : {A : Type 0} → Tx A → Db → Db
committed m s = (transaction m s).1

module _ ⦃lib : Libs⦄ where
  -- the tables after a request, whether it returns or raises
  unfoldable pub handle : Request → Db → Db
  handle (create i room key e now) = committed (Backend.create i room key e now)
  handle (leave i ref key now) = committed (Backend.leave i ref key now)
  handle (begin_reset i ref key now) = committed (Backend.begin_reset i ref key now)
  handle (publish_ready i ref v key now) = committed (Backend.publish_ready i ref v key now)
  handle (publish_running i ref v key now) = committed (Backend.publish_running i ref v key now)
  handle (publish_resolved i ref v key now) = committed (Backend.publish_resolved i ref v key now)
  handle (publish_reset_ready i ref v key now) =
      committed (Backend.publish_reset_ready i ref v key now)
  handle (fail_reset i ref v key now) = committed (Backend.fail_reset i ref v key now)
  handle (expire i now limit) = committed (Backend.expire i now limit)
  handle (reconcile i now limit) = committed (ControlPlane.reconcile i now limit)
  handle (complete_cleanup i ref key now) = committed (Backend.complete_cleanup i ref key now)
  handle (accept i ref key now) = committed (ControlPlane.accept i ref key now)
  handle (consume i claims now) = committed (Backend.consume i claims now)
  handle (transition i ref m key now) = committed (ControlPlane.transition i ref m key now)
  handle (grant_attachment_lease i ref use_ session d key now) =
      committed (ControlPlane.grant_attachment_lease i ref use_ session d key now)
  handle (cleanup_failed i ref op v key code retry now) =
      committed (ControlPlane.cleanup_failed i ref op v key code retry now)

  unfoldable pub history : List Request → Db → Db
  history [] s = s
  history (r ∷ rs) s = history rs (handle r s)

  by : {A : Type 0} (m : Tx A) (s : Db) → Keeps Steps m → Steps s (committed m s)
  by m s k = Keeps-transaction Steps-IsPreorder m s k

  handle-Steps : (r : Request) (s : Db) → Steps s (handle r s)
  unfolding handle Backend.publish_running Backend.publish_resolved
  handle-Steps (create i room key e now) s = by _ s (Keeps-create i room key e now)
  handle-Steps (leave i ref key now) s = by _ s (Keeps-leave i ref key now)
  handle-Steps (begin_reset i ref key now) s = by _ s (Keeps-begin_reset i ref key now)
  handle-Steps (publish_ready i ref v key now) s = by _ s (Keeps-publish_ready i ref v key now)
  handle-Steps (publish_running i ref v key now) s =
      by _ s (Keeps-publish_runtime_state ready running i ref v key now)
  handle-Steps (publish_resolved i ref v key now) s =
      by _ s (Keeps-publish_runtime_state running resolved i ref v key now)
  handle-Steps (publish_reset_ready i ref v key now) s =
      by _ s (Keeps-publish_reset_ready i ref v key now)
  handle-Steps (fail_reset i ref v key now) s = by _ s (Keeps-fail_reset i ref v key now)
  handle-Steps (expire i now limit) s = by _ s (Keeps-expire i now limit)
  handle-Steps (reconcile i now limit) s = by _ s (Keeps-reconcile i now limit)
  handle-Steps (complete_cleanup i ref key now) s = by _ s (Keeps-complete_cleanup i ref key now)
  handle-Steps (accept i ref key now) s = by _ s (Keeps-accept i ref key now)
  handle-Steps (consume i claims now) s = by _ s (Keeps-consume i claims now)
  handle-Steps (transition i ref m key now) s = by _ s (Keeps-transition i ref m key now)
  handle-Steps (grant_attachment_lease i ref use_ session d key now) s =
      by _ s (Keeps-grant_attachment_lease i ref use_ session d key now)
  handle-Steps (cleanup_failed i ref op v key code retry now) s =
      by _ s (Keeps-cleanup_failed i ref op v key code retry now)

  history-Steps : (rs : List Request) (s : Db) → Steps s (history rs s)
  unfolding history
  history-Steps [] s = Steps-refl s
  history-Steps (r ∷ rs) s =
      Steps-trans s (handle r s) (history rs (handle r s)) (handle-Steps r s)
        (history-Steps rs (handle r s))

  -- Whatever the requests and their outcomes, every attempt keeps its owner, room and deadline,
  -- its epoch and generation never fall, a generation keeps its sandbox, an intent to expire or to
  -- destroy is never taken back, and DESTROYED is final; every resource keeps its attempt,
  -- generation, deadline and intents; used capabilities, leases and logged requests stay.
  pub history-Evolves : (rs : List Request) (s : Db) → Evolves s (history rs s)
  history-Evolves rs s = (history-Steps rs s).evolves

  -- From tables that are sound, every history of requests leads to tables that are sound: whatever
  -- the requests and their outcomes, each attempt and each resource is of a state of its kind, has a
  -- positive generation, has an intent to expire only with an intent to destroy, and that only in
  -- STOPPING, FAILED or DESTROYED; an attempt ends after it was created, has an active sandbox exactly
  -- when it has an active generation, which is positive, names as candidate only its own sandbox and
  -- generation, and is to be reset only in RESETTING or one of those three states; a DESTROYED
  -- resource has cleanup evidence; every resource belongs to an attempt; and no two attempts hold
  -- one sandbox, and no two resources one container.
  pub history-Sound : (rs : List Request) (s : Db) → Sound s → Sound (history rs s)
  history-Sound rs s = (history-Steps rs s).sound
