-- ===== src/StateStore/Backend/Queries.antt =====
-- backend.py: expire, pending_finalizations and pending_reset_provisioning.
use Prim.Native.Nat.{Ordering}
use Prim.Native.String.{compare}
use mathlib.Core.List.{◌++◌}
use failroom.Prelude.{
  ℕ, String, Bool, true, false, not, ◌&&◌, ◌||◌, Option, none, some, List, [], ◌∷◌, map, leb, ltb,
  ◌==◌, text_eq, nat_eq,
}
use failroom.Prelude.Tables.{find, keep, take, order_by}
use failroom.StateStore.Models.{
  Role, Action, state_eq, requested, ready, resetting, destroyed, ServiceIdentity, ResourceRef,
  Receipt, Clock,
}
use failroom.StateStore.Rows.{AttemptRow, ResourceRow, OperationRow}
use failroom.StateStore.Tx.{Db, Tx, pure, lift, gets, ◌>>=◌, ◌>>◌}
use failroom.StateStore.Common.{read_clock, positive, service, row_ref}
use failroom.StateStore.Backend.Live.{stop, resource_test}
use failroom.StateStore.Backend.Reset.{is_cleaned}

-- the order of texts by code points, as SQLite compares them
abbrev pub text_le : String → String → Bool
text_le a b = elim (compare a b) [ Ordering.gt ↦ false | _ ↦ true ]

-- ORDER BY expires_at,attempt_id
unfoldable pub by_deadline : AttemptRow → AttemptRow → Bool
by_deadline a b =
    ltb a.expires_at b.expires_at
    || a.expires_at == b.expires_at && text_le a.attempt_id b.attempt_id

unfoldable pub expire_due : ℕ → AttemptRow → Bool
expire_due clock r = leb r.expires_at clock && not r.expiry_intent && not (r.state == destroyed)

-- `for row in rows: _stop(connection, row, clock)`
unfoldable pub stop_all : List AttemptRow → ℕ → Tx (Unit {0})
stop_all [] clock = pure tt
stop_all (row ∷ rows) clock = do stop row clock; stop_all rows clock

unfoldable pub expire : ServiceIdentity → Clock → ℕ → Tx (List ResourceRef)
expire identity now limit = do
  lift (service identity Role.backend Action.expire)
  lift (positive limit 1000)
  clock ← lift (read_clock now)
  rows ← gets (λ s. take limit (order_by by_deadline (keep (expire_due clock) s.attempts)))
  stop_all rows clock
  pure (map row_ref rows)

-- the resource of the attempt's current tuple
abbrev pub resource_at : Db → String → String → ℕ → Option ResourceRow
resource_at s attempt_id sandbox_id generation =
    find
      (λ (r : ResourceRow).
        r.sandbox_id == sandbox_id && r.attempt_id == attempt_id && r.generation == generation)
      s.resources

unfoldable pub finalizable : Db → AttemptRow → Bool
finalizable s a =
    not (a.state == destroyed)
    && resource_test (resource_at s a.attempt_id a.sandbox_id a.generation) is_cleaned

unfoldable pub pending_finalizations : ServiceIdentity → ℕ → Tx (List ResourceRef)
pending_finalizations identity limit = do
  lift (service identity Role.backend Action.reconcile)
  lift (positive limit 1000)
  rows ← gets (λ s. take limit (order_by by_deadline (keep (finalizable s) s.attempts)))
  pure (map row_ref rows)

-- the old sandbox of an attempt that is being reset
abbrev pub old_resource : Db → AttemptRow → Option ResourceRow
old_resource s a = elim a.active_sandbox_id [
  | none ↦ none
  | some sandbox_id ↦ elim a.active_generation [
    | none ↦ none
    | some generation ↦ resource_at s a.attempt_id sandbox_id generation
  ]
]

abbrev pub candidate_pending : Option ResourceRow → Bool
candidate_pending none = true
candidate_pending (some r) = r.state == requested || r.state == ready

unfoldable pub reset_provisionable : Db → AttemptRow → Bool
reset_provisionable s a =
    a.state == resetting
    && a.provisioning_intent
    && a.reset_intent
    && not a.expiry_intent
    && not a.destroy_intent
    && resource_test (old_resource s a) is_cleaned
    && candidate_pending (resource_at s a.attempt_id a.sandbox_id a.generation)

-- JOIN lifecycle_operations: the logged begin-reset requests that chose the tuple
unfoldable pub begins_reset : AttemptRow → OperationRow → Bool
begins_reset a o =
    o.attempt_id == a.attempt_id
    && o.sandbox_id == a.sandbox_id
    && o.generation == a.generation
    && o.action == "begin-reset"
    && o.result_state == resetting

abbrev pub reset_receipt : AttemptRow → OperationRow → Receipt
reset_receipt a o = record {
  operation_id = o.operation_id;
  ref = row_ref a;
  state = resetting;
  version = o.result_version;
}

unfoldable pub reset_receipts : Db → List AttemptRow → List Receipt
unfolding begins_reset
reset_receipts s [] = []
reset_receipts s (a ∷ rows) =
    map (reset_receipt a) (keep (begins_reset a) s.operations) ++ reset_receipts s rows

unfoldable pub pending_reset_provisioning : ServiceIdentity → ℕ → Tx (List Receipt)
pending_reset_provisioning identity limit = do
  lift (service identity Role.backend Action.reconcile)
  lift (positive limit 1000)
  gets (λ s.
      take limit
        (reset_receipts s (order_by by_deadline (keep (reset_provisionable s) s.attempts))))
