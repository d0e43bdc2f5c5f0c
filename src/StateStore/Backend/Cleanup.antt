-- ===== src/StateStore/Backend/Cleanup.antt =====
-- backend.py: complete_cleanup and consume.
use failroom.Prelude.{
  ℕ, ◌+◌, String, Bool, true, false, not, ◌&&◌, ◌||◌, Option, none, some, [], leb, ltb, ◌==◌, has,
  text_eq, nat_eq, if◌then◌else◌,
}
use failroom.Prelude.Tables.{find}
use failroom.StateStore.Models.{
  not_authorized, attempt_unavailable, invalid_transition, cleanup_unverified, capability_invalid,
  capability_replay, Role, Action, State, state_eq, ready, running, resetting, destroyed,
  ServiceIdentity, ResourceRef, Receipt, Clock, CapabilityClaims, CapabilityUse,
}
use failroom.StateStore.Rows.{AttemptRow, ResourceRow, is_null}
use failroom.StateStore.Tx.{Tx, pure, lift, gets, raise_if, or_else, ◌>>=◌, ◌>>◌}
use failroom.StateStore.Libs.{Libs}
use failroom.StateStore.Sql.{select_resource, select_use, update_attempt, insert_use, use_key}
use failroom.StateStore.Common.{
  timestamp, read_clock, instant, identifier, ref_valid, service, binding, is_current, replay,
  request_hash, ref_values, finish, non_negative,
}
use failroom.StateStore.Backend.Live.{stop, live, resource_test}
use failroom.StateStore.Backend.Reset.{is_cleaned}

abbrev pub completed_row : ℕ → AttemptRow → AttemptRow
completed_row version r = record r {
  state = destroyed;
  active_sandbox_id = none;
  active_generation = none;
  version = version;
}

-- WHERE attempt_id=? AND state!='DESTROYED'
unfoldable pub unfinished : String → ResourceRow → Bool
unfinished attempt_id r = r.attempt_id == attempt_id && not (r.state == destroyed)

abbrev pub version_of : Option ResourceRow → ℕ
version_of none = 0
version_of (some r) = r.version

unfoldable pub can_attach : State → Bool
can_attach s = s == ready || s == running

unfoldable pub claims_fit : AttemptRow → CapabilityClaims → ℕ → ℕ → ℕ → Bool
claims_fit row claims epoch deadline clock =
    can_attach row.state
    && has row.active_sandbox_id claims.ref.sandbox_id
    && row.session_epoch == epoch
    && ltb clock deadline
    && leb deadline row.expires_at

unfoldable pub attachable : ResourceRow → Bool
attachable r = can_attach r.state && not r.destroy_intent && not r.expiry_intent

module _ ⦃lib : Libs⦄ where
  -- The old sandbox of an attempt that is being reset: its removal is logged.
  unfoldable pub finish_old : AttemptRow → ResourceRef → String → String → String → ℕ → Tx Receipt
  finish_old row ref actor key fingerprint version = do
    raise_if (not (row.state == resetting) || not row.reset_intent) invalid_transition
    finish actor "complete-cleanup" key fingerprint ref destroyed version none

  -- The current sandbox: the attempt ends, once no resource of it is left.
  unfoldable pub finish_current :
      AttemptRow → ResourceRef → String → String → String → ℕ → Tx Receipt
  finish_current row ref actor key fingerprint clock = do
    left ← gets (λ s. find (unfinished ref.attempt_id) s.resources)
    raise_if (not (is_null left)) cleanup_unverified
    stop row clock
    after ← binding false ref
    let version = after.version + (if after.state == destroyed then 0 else 1)
    update_attempt ref.attempt_id (completed_row version)
    finish actor "complete-cleanup" key fingerprint ref destroyed version none

  unfoldable pub complete_cleanup : ServiceIdentity → ResourceRef → String → Clock → Tx Receipt
  unfolding finish_old finish_current
  complete_cleanup identity ref key now = do
    actor ← lift (service identity Role.backend Action.publish)
    lift (ref_valid ref)
    let fingerprint = request_hash "complete-cleanup" (ref_values ref [])
    clock ← lift (read_clock now)
    row ← binding true ref
    previous ← replay actor key fingerprint
    or_else previous do
      resource ← select_resource ref.sandbox_id
      raise_if (not (resource_test resource is_cleaned)) cleanup_unverified
      if is_current ref row
          then finish_current row ref actor key fingerprint clock
          else finish_old row ref actor key fingerprint (version_of resource)

  unfoldable pub consume : ServiceIdentity → CapabilityClaims → Clock → Tx CapabilityUse
  consume identity claims now = do
    lift (service identity Role.gateway Action.consume)
    lift (ref_valid claims.ref)
    lift (identifier claims.user_id)
    lift (identifier claims.jti)
    epoch ← lift (non_negative claims.session_epoch)
    raise_if (not (claims.scope == "terminal:attach")) capability_invalid
    deadline ← lift (timestamp claims.expires_at)
    let hashed_jti = lib.sha256 claims.jti
    clock ← lift (read_clock now)
    row ← binding false claims.ref
    raise_if (not (row.user_id == claims.user_id)) not_authorized
    live row clock
    raise_if (not (claims_fit row claims epoch deadline clock)) capability_invalid
    resource ← select_resource claims.ref.sandbox_id
    raise_if (not (resource_test resource attachable)) attempt_unavailable
    used ← select_use (use_key hashed_jti)
    raise_if (not (is_null used)) capability_replay
    insert_use (record {
      jti_hash = hashed_jti;
      attempt_id = claims.ref.attempt_id;
      consumed_at = clock;
      expires_at = deadline;
    })
    pure (record {
      jti_hash = hashed_jti;
      ref = claims.ref;
      session_epoch = claims.session_epoch;
      expires_at = instant deadline;
    })
