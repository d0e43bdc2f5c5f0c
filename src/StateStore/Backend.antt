-- ===== src/StateStore/Backend.antt =====
-- backend.py: the attempts, which the backend owns. What a method validates before its `with`
-- block stands in the same do block: a failure there leaves the tables alone too.
pub mod Publish
pub mod Reset
pub mod Queries
pub mod Cleanup
pub mod Live
unfoldable pub use Publish.*
unfoldable pub use Reset.*
unfoldable pub use Queries.*
unfoldable pub use Cleanup.*
unfoldable pub use Live.{create, leave, inspect, room_id_for_binding}
