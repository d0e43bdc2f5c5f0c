-- ===== src/StateStore/Resets/Ends.antt =====
-- backend.py, complete_cleanup, leave and begin_reset.
use failroom.Prelude.{
  ℕ, ◌⊎◌, inl, inr, Option-cases, String, some, none, ◌≡◌, arith, true, text_beq→eq,
}
use failroom.Prelude.Tables.{find}
use failroom.StateStore.Models.{
  UserIdentity, ServiceIdentity, ResourceRef, Receipt, Role, Action, Clock,
}
use failroom.StateStore.Rows.{AttemptRow, ResourceRow}
use failroom.StateStore.Tx.{Db, done, ok, transaction}
use failroom.StateStore.Tx.Rules.{transaction-done}
use failroom.StateStore.Libs.{Libs}
use failroom.StateStore.Sql.{attempt_of, resource_of, operation_of}
use failroom.StateStore.Common.{
  binding, binding_check, owned, owner_check, service, user, replay, is_current, member,
}
use failroom.StateStore.Backend.{complete_cleanup, unfinished, leave, begin_reset, finish_current}
use failroom.StateStore.Backend.Reset.{is_cleaned}

module _ ⦃lib : Libs⦄ where
  finish_current-finished :
      (row : AttemptRow) (ref : ResourceRef) (actor key fingerprint : String) (clock : ℕ) (s t : Db)
      (receipt : Receipt)
      → finish_current row ref actor key fingerprint clock s ≡ done receipt t
      → find (unfinished ref.attempt_id) s.resources ≡ none
  unfolding finish_current
  finish_current-finished row ref actor key fingerprint clock s t receipt h = ground arith

  cleanup_checked :
      (i : ServiceIdentity) (ref : ResourceRef) (key actor : String) (now : Clock) (s t : Db)
      (receipt : Receipt) (a : AttemptRow)
      → service i Role.backend Action.publish ≡ ok actor
      → attempt_of s ref.attempt_id ≡ some a
      → is_current ref a ≡ true
      → operation_of s actor key ≡ none
      → complete_cleanup i ref key now s ≡ done receipt t
      → ((r : ResourceRow) × (resource_of s ref.sandbox_id ≡ some r) × (is_cleaned r ≡ true))
        × (find (unfinished ref.attempt_id) s.resources ≡ none)
  unfolding complete_cleanup binding binding_check replay
  cleanup_checked i ref key actor now s t receipt a auth att cur new h =
      elim (Option-cases (resource_of s ref.sandbox_id)) [
        | inl e ↦ absurd (ground arith)
        | inr (r, e) ↦ ((r, e, ground arith), ground arith)
      ]

  -- An attempt is ended, by a request that was not logged before, only when its current sandbox is
  -- removed with evidence and no resource of it, of whatever generation, is left in another state.
  pub complete_cleanup_verified :
      (i : ServiceIdentity) (ref : ResourceRef) (key actor : String) (now : Clock) (s t : Db)
      (receipt : Receipt) (a : AttemptRow)
      → service i Role.backend Action.publish ≡ ok actor
      → attempt_of s ref.attempt_id ≡ some a
      → is_current ref a ≡ true
      → operation_of s actor key ≡ none
      → transaction (complete_cleanup i ref key now) s ≡ (ok receipt, t)
      → ((r : ResourceRow) × (resource_of s ref.sandbox_id ≡ some r) × (is_cleaned r ≡ true))
        × (find (unfinished ref.attempt_id) s.resources ≡ none)
  complete_cleanup_verified i ref key actor now s t receipt a auth att cur new h =
      cleanup_checked i ref key actor now s t receipt a auth att cur new
        (transaction-done _ s t receipt h)

  leave_owned :
      (i : UserIdentity) (ref : ResourceRef) (key : String) (now : Clock) (s t : Db)
      (receipt : Receipt) (a : AttemptRow)
      → attempt_of s ref.attempt_id ≡ some a
      → leave i ref key now s ≡ done receipt t
      → (a.user_id ≡ i.user_id) × (member a.room_id i.authorized_room_ids ≡ true)
  unfolding leave owned owner_check user
  leave_owned i ref key now s t receipt a att h = ground (arith, text_beq→eq a.user_id i.user_id)

  begin_reset_owned :
      (i : UserIdentity) (ref : ResourceRef) (key : String) (now : Clock) (s t : Db)
      (receipt : Receipt) (a : AttemptRow)
      → attempt_of s ref.attempt_id ≡ some a
      → begin_reset i ref key now s ≡ done receipt t
      → (a.user_id ≡ i.user_id) × (member a.room_id i.authorized_room_ids ≡ true)
  unfolding begin_reset owned owner_check user
  begin_reset_owned i ref key now s t receipt a att h =
      ground (arith, text_beq→eq a.user_id i.user_id)

  -- A `leave` or a `begin_reset` of an attempt that returns was asked for by the owner of the
  -- attempt, who was authorised for its room.
  pub leave_or_reset_owned :
      (i : UserIdentity) (ref : ResourceRef) (key : String) (now : Clock) (s t : Db)
      (receipt : Receipt) (a : AttemptRow)
      → attempt_of s ref.attempt_id ≡ some a
      → (transaction (leave i ref key now) s ≡ (ok receipt, t))
        ⊎ (transaction (begin_reset i ref key now) s ≡ (ok receipt, t))
      → (a.user_id ≡ i.user_id) × (member a.room_id i.authorized_room_ids ≡ true)
  leave_or_reset_owned i ref key now s t receipt a att (inl h) =
      leave_owned i ref key now s t receipt a att (transaction-done _ s t receipt h)
  leave_or_reset_owned i ref key now s t receipt a att (inr h) =
      begin_reset_owned i ref key now s t receipt a att (transaction-done _ s t receipt h)
