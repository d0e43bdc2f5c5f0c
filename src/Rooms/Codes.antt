-- ===== src/Rooms/Codes.antt =====
-- The codes of the services' errors, and what they make of a StoreError.
use failroom.StateStore.Models.{Code, attempt_unavailable, not_authorized, invalid_request}

-- lifecycle.py, LifecycleError, and reset.py, ResetError
pub data RoomCode : Type 0 where
  unavailable unauthorized invalid cleanup_pending : RoomCode

-- `_raise_store_error` of lifecycle.py; ResetError does the same with the code that it is given.
unfoldable pub room_code : Code → RoomCode
room_code attempt_unavailable = RoomCode.unavailable
room_code not_authorized = RoomCode.unauthorized
room_code invalid_request = RoomCode.invalid
room_code _ = RoomCode.unavailable
