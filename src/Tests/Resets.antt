-- ===== src/Tests/Resets.antt =====
-- The theorems on resets and ends, at the states of the scenario.
use failroom.Prelude.{ℕ, String, some, none, ◌≡◌, inl, refl, true}
use failroom.Prelude.Tables.{find}
use failroom.StateStore.Models.{
  ResourceRef, Receipt, Role, Action, State, pos, ready, destroyed, stopping,
}
use failroom.StateStore.Rows.{ResourceRow}
use failroom.StateStore.Tx.{Tx, ok, transaction}
use failroom.StateStore.Sql.{attempt_of, resource_of, operation_of}
use failroom.StateStore.Common.{service, is_current, member}
use failroom.StateStore.Backend.{complete_cleanup, publish_reset_ready, leave, unfinished}
use failroom.StateStore.Backend.Reset.{is_cleaned}
use failroom.StateStore.Resets.Gates.{Replaceable, publish_reset_ready_waits}
use failroom.StateStore.Resets.Ends.{complete_cleanup_verified, leave_or_reset_owned}
use failroom.Tests.Data.{plain, alice, backend, at, ref}
use failroom.Tests.Scenario.{
  published, resettable, second, cleaned, attempt_in, returns, everything,
}

abbrev receipt_at : ℕ → ResourceRef → State → ℕ → Receipt
receipt_at n r state version = record {
  operation_id = plain.uuid4 n;
  ref = r;
  state = state;
  version = version;
}

abbrev backend_name : String
backend_name = "service:backend:backend-1"

backend_may : service backend Role.backend Action.publish ≡ ok backend_name
unfolding everything
backend_may = refl

-- a reset that is published

abbrev to_reset : Tx Receipt
to_reset = publish_reset_ready backend second (pos 2) "k31" (at 27)

reset_receipt : (transaction to_reset resettable).0 ≡ ok (receipt_at 18 second ready 3)
unfolding everything
reset_receipt = refl

attempt_resettable : attempt_of resettable "id-" ≡ some (attempt_in resettable)
unfolding everything
attempt_resettable = refl

first_active : (attempt_in resettable).active_sandbox_id ≡ some "id-f"
unfolding everything
first_active = refl

reset_key : operation_of resettable backend_name "k31" ≡ none
unfolding everything
reset_key = refl

publish_reset_ready_waits_example : Replaceable resettable second (attempt_in resettable) "id-f"
publish_reset_ready_waits_example =
    publish_reset_ready_waits backend second (pos 2) "k31" backend_name (at 27) resettable
      (transaction to_reset resettable).1 (receipt_at 18 second ready 3) (attempt_in resettable)
      "id-f" backend_may attempt_resettable first_active reset_key
      (returns to_reset resettable (receipt_at 18 second ready 3) reset_receipt)

-- an attempt that is ended

abbrev to_end : Tx Receipt
to_end = complete_cleanup backend ref "k40" (at 33)

abbrev ended : Receipt
ended = receipt_at 12 ref destroyed 3

end_receipt : (transaction to_end cleaned).0 ≡ ok ended
unfolding everything
end_receipt = refl

attempt_cleaned : attempt_of cleaned "id-" ≡ some (attempt_in cleaned)
unfolding everything
attempt_cleaned = refl

ref_current : is_current ref (attempt_in cleaned) ≡ true
unfolding everything
ref_current = refl

end_key : operation_of cleaned backend_name "k40" ≡ none
unfolding everything
end_key = refl

complete_cleanup_verified_example :
    ((r : ResourceRow) × (resource_of cleaned "id-f" ≡ some r) × (is_cleaned r ≡ true))
    × (find (unfinished "id-") cleaned.resources ≡ none)
complete_cleanup_verified_example =
    complete_cleanup_verified backend ref "k40" backend_name (at 33) cleaned
      (transaction to_end cleaned).1 ended (attempt_in cleaned) backend_may attempt_cleaned
      ref_current end_key (returns to_end cleaned ended end_receipt)

-- a user who leaves

abbrev to_leave : Tx Receipt
to_leave = leave alice ref "k41" (at 30)

abbrev left : Receipt
left = receipt_at 9 ref stopping 2

leave_receipt : (transaction to_leave published).0 ≡ ok left
unfolding everything
leave_receipt = refl

attempt_published : attempt_of published "id-" ≡ some (attempt_in published)
unfolding everything
attempt_published = refl

leave_or_reset_owned_example :
    ((attempt_in published).user_id ≡ "alice")
    × (member (attempt_in published).room_id alice.authorized_room_ids ≡ true)
leave_or_reset_owned_example =
    leave_or_reset_owned alice ref "k41" (at 30) published (transaction to_leave published).1 left
      (attempt_in published) attempt_published (inl (returns to_leave published left leave_receipt))
