-- ===== src/StateStore/ControlPlane/Base.antt =====
-- control_plane.py: `_NEXT`, `_resource`, `_runtime_binding`, `_stop` and `_live`.
use failroom.Prelude.{
  ℕ, ◌+◌, String, Bool, true, false, not, ◌&&◌, ◌||◌, Option, none, some, leb, ◌==◌, text_eq,
  nat_eq, if◌then◌else◌,
}
use failroom.StateStore.Models.{
  attempt_unavailable, stale_binding, legacy_runtime_binding, State, state_eq, requested, creating,
  starting, ready, running, resolved, stopping, failed, destroyed, ResourceRef,
}
use failroom.StateStore.Models.{ref_eq}
use failroom.StateStore.Rows.{AttemptRow, ResourceRow, is_null, ending}
use failroom.StateStore.Tx.{Result, ok, err, reads, Tx, pure, raise, raise_if, commit_denial, ◌>>◌}
use failroom.StateStore.Sql.{resource_of, update_resource}
use failroom.StateStore.Common.{runtime_operation_id, resource_ref}

-- `state in _NEXT[current]`
unfoldable pub next : State → State → Bool
next requested creating = true
next requested stopping = true
next creating starting = true
next creating failed = true
next creating stopping = true
next starting ready = true
next starting failed = true
next starting stopping = true
next ready running = true
next ready stopping = true
next running resolved = true
next running stopping = true
next resolved stopping = true
next stopping destroyed = true
next stopping failed = true
next failed stopping = true
next _ _ = false

-- `_resource`: the row of exactly this tuple
unfoldable pub resource_check : ResourceRef → Option ResourceRow → Result ResourceRow
resource_check ref none = err stale_binding
resource_check ref (some row) = if resource_ref row == ref then ok row else err stale_binding

unfoldable pub resource : ResourceRef → Tx ResourceRow
resource ref = reads (λ s. resource_check ref (resource_of s ref.sandbox_id))

-- `_runtime_binding(row, allow_legacy=…)`
unfoldable pub runtime_binding : Bool → Option String → Result (Option String)
runtime_binding allow_legacy raw =
    if is_null raw && not allow_legacy
    then err legacy_runtime_binding
    else runtime_operation_id allow_legacy raw

unfoldable pub stopped : Bool → ResourceRow → ResourceRow
stopped expired r = record r {
  state = stopping;
  destroy_intent = true;
  expiry_intent = r.expiry_intent || expired;
  version = r.version + 1;
}

unfoldable pub stop : ResourceRow → Bool → Tx (Unit {0})
stop row expired =
    if not (row.state == destroyed)
      && (not (row.state == stopping) || not row.destroy_intent || expired && not row.expiry_intent)
    then update_resource row.sandbox_id (stopped expired)
    else pure tt

abbrev pub is_expired : AttemptRow → ℕ → Bool
is_expired attempt now = leb attempt.expires_at now || attempt.expiry_intent

abbrev pub stop_and_deny : Option ResourceRow → Tx (Unit {0})
stop_and_deny none = raise attempt_unavailable
stop_and_deny (some r) = stop r true >> commit_denial attempt_unavailable

abbrev pub destroy_wanted : Option ResourceRow → Bool
destroy_wanted none = false
destroy_wanted (some r) = r.destroy_intent

-- `_live`: an expired attempt has its resource stopped, with the denial.
unfoldable pub live : AttemptRow → Option ResourceRow → ℕ → Tx (Unit {0})
live attempt found now =
    if is_expired attempt now
    then stop_and_deny found
    else raise_if (attempt.destroy_intent || ending attempt.state || destroy_wanted found)
        attempt_unavailable
