-- ===== src/StateStore/ControlPlane.antt =====
-- control_plane.py: the resources, which the control plane owns, the leases of terminal
-- attachments, and the durable cleanup work.
pub mod Base
pub mod Edges
pub mod Accept
pub mod Transition
pub mod Lease
pub mod Reconcile
unfoldable pub use Accept.*
unfoldable pub use Transition.*
unfoldable pub use Lease.*
unfoldable pub use Reconcile.*
