-- ===== src/Rooms/Lifecycle.antt =====
-- lifecycle.py and reset.py: the status of a room, leaving it, and asking for its reset.
use failroom.Prelude.{String, Bool}
use failroom.StateStore.Models.{Attempt, UserIdentity, State, Datetime}
use failroom.StateStore.Libs.{Libs}
use failroom.StateStore.Backend
use failroom.StateStore.Worker.World.{Env, call}
use failroom.StateStore.Worker.Pass.{CleanupRun}
use failroom.Rooms.Acts.{Act, pure, raise, store, catch, ◌>>=◌, ◌>>◌}
use failroom.Rooms.Codes.{RoomCode, room_code}

-- RoomStatus
pub record RoomStatus : Type 0 where
  pub attempt_id : String
  pub room_id : String
  pub state : State
  pub expires_at : Datetime
  pub destroy_intent : Bool

-- `_status`
abbrev pub status_of : Attempt → RoomStatus
status_of a = record {
  attempt_id = a.ref.attempt_id;
  room_id = a.room_id;
  state = a.state;
  expires_at = a.expires_at;
  destroy_intent = a.destroy_intent;
}

module _ ⦃lib : Libs⦄ (env : Env) where
  -- RoomLifecycleService.status
  unfoldable pub status : UserIdentity → String → Act RoomCode RoomStatus
  status identity attempt_id = do
    attempt ← store room_code (call env (λ now. Backend.inspect identity attempt_id))
    pure (status_of attempt)

  -- RoomLifecycleService.leave, before the cleanup pass
  unfoldable pub leave_attempt : UserIdentity → String → String → Act RoomCode (Unit {0})
  leave_attempt identity attempt_id key = do
    attempt ← store room_code (call env (λ now. Backend.inspect identity attempt_id))
    store room_code (call env (Backend.leave identity attempt.ref key))
    pure tt

  -- RoomLifecycleService.leave; `cleanup` is a pass of the worker that the service was given, and
  -- whatever it raises is CLEANUP_PENDING.
  unfoldable pub leave :
      Act (Unit {0}) CleanupRun → UserIdentity → String → String → Act RoomCode RoomStatus
  leave cleanup identity attempt_id key = do
    leave_attempt identity attempt_id key
    catch cleanup (λ _. raise RoomCode.cleanup_pending)
    status identity attempt_id

  -- RoomResetService.reset
  unfoldable pub reset : UserIdentity → String → String → Act RoomCode RoomStatus
  reset identity attempt_id key = do
    attempt ← store room_code (call env (λ now. Backend.inspect identity attempt_id))
    store room_code (call env (Backend.begin_reset identity attempt.ref key))
    after ← store room_code (call env (λ now. Backend.inspect identity attempt_id))
    pure (status_of after)
