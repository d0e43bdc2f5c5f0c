-- ===== src/Rooms/Entry.antt =====
-- entry.py, RoomEntryService.enter: an attempt is created, and its sandbox provisioned.
use Prim.Native.String.{String, ◌++◌}
use failroom.Prelude.{ℕ, ◌+◌, Bool, not, none, some, text_beq}
use failroom.StateStore.Models.{
  UserIdentity, Receipt, State, Code, not_authorized, Datetime, aware, naive, Clock,
}
use failroom.StateStore.Libs.{Libs}
use failroom.StateStore.Backend
use failroom.StateStore.Worker.World.{Env, call, tick}
use failroom.Rooms.Acts.{Act, pure, raise, unless, store, catch, ◌>>=◌, ◌>>◌}

-- RoomEntry
pub record RoomEntry : Type 0 where
  pub attempt_id : String
  pub room_id : String
  pub state : State
  pub expires_at : Datetime

-- What leaves `enter`: an EntryError with its code, a StoreError of the last read, or an exception of
-- the clock.
pub data EntryRaised : Type 0 where
  entry_failed unauthorized room_unavailable : EntryRaised
  store_error : Code → EntryRaised
  clock_error : EntryRaised

-- room_scenarios.py, `is_reviewed`
unfoldable pub is_reviewed : String → Bool
is_reviewed room = text_beq room "disk-full"

abbrev pub create_code : Code → EntryRaised
create_code not_authorized = unauthorized
create_code _ = entry_failed

-- `self._now() + self._attempt_ttl`
abbrev pub deadline_of : ℕ → Clock → Act EntryRaised Datetime
deadline_of ttl none = raise clock_error
deadline_of ttl (some naive) = pure naive
deadline_of ttl (some (aware t)) = pure (aware (t + ttl))

module _ ⦃lib : Libs⦄ (env : Env) where
  -- `_failure_key`
  unfoldable pub failure_key : Receipt → String → String
  failure_key receipt key =
      "entry-failed:"
      ++ lib.sha256 (
          receipt.ref.attempt_id
          ++ ":"
          ++ receipt.ref.sandbox_id
          ++ ":"
          ++ lib.str receipt.ref.generation
          ++ ":"
          ++ key)

  -- the handler of a provisioning that raised, of whatever kind
  unfoldable pub abandon : UserIdentity → Receipt → String → Act EntryRaised (Unit {0})
  abandon identity receipt key = do
    catch
        (do
          store store_error
              (call env (Backend.leave identity receipt.ref (failure_key receipt key)))
          pure tt)
        (λ _. pure {E = EntryRaised} tt)
    raise entry_failed

  -- `provision` is the provisioner, for the two identities of the service
  unfoldable pub enter :
      (Receipt → String → Act (Unit {0}) (Unit {0}))
      → ℕ
      → UserIdentity
      → String
      → String
      → Act EntryRaised RoomEntry
  enter provision ttl identity room key = unless (not (is_reviewed room)) room_unavailable do
    now ← store store_error (tick env)
    expires_at ← deadline_of ttl now
    receipt ← store create_code (call env (Backend.create identity room key expires_at))
    catch (provision receipt key) (λ _. abandon identity receipt key)
    attempt ← store store_error (call env (λ now. Backend.inspect identity receipt.ref.attempt_id))
    pure (record {
      attempt_id = attempt.ref.attempt_id;
      room_id = attempt.room_id;
      state = attempt.state;
      expires_at = attempt.expires_at;
    })
