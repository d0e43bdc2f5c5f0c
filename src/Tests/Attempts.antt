-- ===== src/Tests/Attempts.antt =====
-- The theorems on attempts and resources, at the states of the scenario.
use failroom.Prelude.{ℕ, String, some, none, ◌≡◌, refl}
use failroom.StateStore.Models.{ResourceRef, Receipt, Role, Action, State, running}
use failroom.StateStore.Tx.{Tx, ok, transaction, empty_db}
use failroom.StateStore.Sql.{attempt_of, resource_of, operation_of}
use failroom.StateStore.Common.{service}
use failroom.StateStore.ControlPlane.{transition}
use failroom.StateStore.ControlPlane.Edges.{Moved, transition_moves}
use failroom.Prelude.Tables.{find}
use failroom.StateStore.Evolves.Relation.{Evolves}
use failroom.StateStore.Evolves.History.{history, history-Evolves, history-Sound}
use failroom.StateStore.Evolves.Sound.{Sound}
use failroom.Tests.Data.{plain, control, at, ref}
use failroom.Tests.Scenario.{
  published, started, provisioning_requests, ready_requests, leave_requests, move, attempt_in,
  resource_in, returns, everything,
}

history-Evolves_example : Evolves empty_db (history provisioning_requests empty_db)
history-Evolves_example = history-Evolves provisioning_requests empty_db

no_rows : Sound empty_db
unfolding find
no_rows = record {
  attempts = λ id a e. absurd (cc);
  resources = λ id r e. absurd (cc);
  owned = λ id r e. absurd (cc);
  sandboxes = λ i j a b e f same. absurd (cc);
  containers = λ i j c a b e f here there. absurd (cc);
}

published-Sound : Sound published
published-Sound =
    history-Sound ready_requests started (history-Sound provisioning_requests empty_db no_rows)

history-Sound_example : Sound (history leave_requests published)
history-Sound_example = history-Sound leave_requests published published-Sound

-- a transition to RUNNING

abbrev to_running : Tx Receipt
to_running = transition control ref (move 3 running none none) "k30" (at 8)

abbrev receipt_at : ℕ → ResourceRef → State → ℕ → Receipt
receipt_at n r state version = record {
  operation_id = plain.uuid4 n;
  ref = r;
  state = state;
  version = version;
}

running_receipt : (transaction to_running published).0 ≡ ok (receipt_at 9 ref running 4)
unfolding everything
running_receipt = refl

abbrev control_name : String
control_name = "service:control-plane:control-1"

control_may : service control Role.control_plane Action.transition ≡ ok control_name
unfolding everything
control_may = refl

attempt_published : attempt_of published "id-" ≡ some (attempt_in published)
unfolding everything
attempt_published = refl

resource_published : resource_of published "id-f" ≡ some (resource_in published "id-f")
unfolding everything
resource_published = refl

new_key : operation_of published control_name "k30" ≡ none
unfolding everything
new_key = refl

transition_moves_example :
    Moved
      (move 3 running none none)
      8
      ref
      (attempt_in published)
      (resource_in published "id-f")
      (receipt_at 9 ref running 4)
      (transaction to_running published).1
transition_moves_example =
    transition_moves control ref (move 3 running none none) "k30" control_name 8 published
      (transaction to_running published).1 (receipt_at 9 ref running 4) (attempt_in published)
      (resource_in published "id-f") control_may attempt_published resource_published new_key
      (returns to_running published (receipt_at 9 ref running 4) running_receipt)
