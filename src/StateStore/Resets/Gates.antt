-- ===== src/StateStore/Resets/Gates.antt =====
-- backend.py, publish_reset_ready: what it waits for.
use failroom.Prelude.{refl, String, Option, some, none, ◌≡◌, ◌≢◌, arith, true, false}
use failroom.StateStore.Models.{
  ServiceIdentity, ResourceRef, Receipt, Role, Action, Clock, ℤ, resetting, destroyed, ready,
  state_beq→eq,
}
use failroom.StateStore.Rows.{AttemptRow, ResourceRow}
use failroom.StateStore.Tx.{Db, done, ok, transaction}
use failroom.StateStore.Tx.Rules.{transaction-done}
use failroom.StateStore.Libs.{Libs}
use failroom.StateStore.Sql.{attempt_of, resource_of, operation_of}
use failroom.StateStore.Common.{binding, binding_check, service, replay}
use failroom.StateStore.Backend.Reset.{
  publish_reset_ready, reset_ready_allowed, is_resetting, is_cleaned, deny_expired,
}

module _ ⦃lib : Libs⦄ where
  reset_ready :
      (i : ServiceIdentity) (ref : ResourceRef) (v : ℤ) (key actor : String) (now : Clock)
      (s t : Db) (receipt : Receipt) (a : AttemptRow) (old : String)
      → service i Role.backend Action.publish ≡ ok actor
      → attempt_of s ref.attempt_id ≡ some a
      → a.active_sandbox_id ≡ some old
      → operation_of s actor key ≡ none
      → publish_reset_ready i ref v key now s ≡ done receipt t
      → reset_ready_allowed a ref (resource_of s ref.sandbox_id) (resource_of s old) ≡ true
  unfolding publish_reset_ready binding binding_check replay deny_expired
  reset_ready i ref v key actor now s t receipt a old auth att act new h = ground arith

-- What stands when a reset is published: the attempt waits for exactly this candidate, which is READY,
-- and the sandbox that it replaces is removed, with evidence.
pub record Replaceable (s : Db) (ref : ResourceRef) (a : AttemptRow) (old : String) : Type 0 where
  pub waits : (a.state ≡ resetting) × (a.reset_intent ≡ true)
  pub candidate : ResourceRow
  pub candidate_found : resource_of s ref.sandbox_id ≡ some candidate
  pub candidate_ready : (candidate.state ≡ ready) × (candidate.destroy_intent ≡ false)
  pub removed : ResourceRow
  pub removed_found : resource_of s old ≡ some removed
  pub removed_state : removed.state ≡ destroyed
  pub removed_evidence : removed.cleanup_evidence_digest ≢ none

replaceable :
    (s : Db) (ref : ResourceRef) (a : AttemptRow) (old : String) (x y : Option ResourceRow)
    → resource_of s ref.sandbox_id ≡ x
    → resource_of s old ≡ y
    → reset_ready_allowed a ref x y ≡ true
    → Replaceable s ref a old
unfolding reset_ready_allowed is_resetting is_cleaned
replaceable s ref a old (some x) (some y) e f h = record {
  waits = ground (arith, state_beq→eq a.state resetting);
  candidate = x;
  candidate_found = e;
  candidate_ready = ground (arith, state_beq→eq x.state ready);
  removed = y;
  removed_found = f;
  removed_state = ground (arith, state_beq→eq y.state destroyed);
  removed_evidence = λ k. ground arith;
}
replaceable s ref a old (some x) none e f h = absurd (ground arith)
replaceable s ref a old none y e f h = absurd (ground arith)

module _ ⦃lib : Libs⦄ where
  -- A reset is published, by a request that was not logged before, only when the old sandbox is
  -- verifiably gone and the new one is ready.
  pub publish_reset_ready_waits :
      (i : ServiceIdentity) (ref : ResourceRef) (v : ℤ) (key actor : String) (now : Clock)
      (s t : Db) (receipt : Receipt) (a : AttemptRow) (old : String)
      → service i Role.backend Action.publish ≡ ok actor
      → attempt_of s ref.attempt_id ≡ some a
      → a.active_sandbox_id ≡ some old
      → operation_of s actor key ≡ none
      → transaction (publish_reset_ready i ref v key now) s ≡ (ok receipt, t)
      → Replaceable s ref a old
  publish_reset_ready_waits i ref v key actor now s t receipt a old auth att act new h =
      replaceable s ref a old _ _ refl refl (
        reset_ready i ref v key actor now s t receipt a old auth att act new
          (transaction-done _ s t receipt h))
