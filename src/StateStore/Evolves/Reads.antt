-- ===== src/StateStore/Evolves/Reads.antt =====
-- backend.py and control_plane.py: the operations that only read, against Steps.
use failroom.Prelude.{ℕ, String}
use failroom.StateStore.Models.{UserIdentity, ServiceIdentity, ResourceRef}
use failroom.StateStore.Tx.Rules.{Keeps}
use failroom.StateStore.Backend
use failroom.StateStore.ControlPlane
use failroom.StateStore.Evolves.Steps.{Steps}
use failroom.StateStore.Evolves.Shared.{flow, Keeps-owned, Keeps-binding}
use failroom.StateStore.Evolves.Sandboxes.{Keeps-resource}

pub Keeps-inspect_attempt : (i : UserIdentity) (id : String) → Keeps Steps (Backend.inspect i id)
unfolding Backend.inspect
Keeps-inspect_attempt i id = search (flow, Keeps-owned) depth 20

pub Keeps-room_id_for_binding :
    (i : ServiceIdentity) (ref : ResourceRef) → Keeps Steps (Backend.room_id_for_binding i ref)
unfolding Backend.room_id_for_binding
Keeps-room_id_for_binding i ref = search (flow, Keeps-binding) depth 20

pub Keeps-pending_finalizations :
    (i : ServiceIdentity) (limit : ℕ) → Keeps Steps (Backend.pending_finalizations i limit)
unfolding Backend.pending_finalizations
Keeps-pending_finalizations i limit = search flow depth 20

pub Keeps-pending_reset_provisioning :
    (i : ServiceIdentity) (limit : ℕ) → Keeps Steps (Backend.pending_reset_provisioning i limit)
unfolding Backend.pending_reset_provisioning
Keeps-pending_reset_provisioning i limit = search flow depth 20

pub Keeps-inspect_resource :
    (i : ServiceIdentity) (ref : ResourceRef) → Keeps Steps (ControlPlane.inspect i ref)
unfolding ControlPlane.inspect
Keeps-inspect_resource i ref = search (flow, Keeps-binding, Keeps-resource) depth 20
