-- ===== src/Tests/Slots.antt =====
-- The theorems on slots and attachments, at concrete calls and at the states of the scenario.
use failroom.Prelude.{String, List, [], ◌∷◌, ◌≡◌, ◌≤◌, refl, true, false}
use failroom.Prelude.Answers.{returns, raises}
use failroom.StateStore.Models.{AttachmentLease, aware}
use failroom.Terminal.Slots.{Event, acquires, releases, no_slots, run, active, acquire}
use failroom.Terminal.Counting.{reference_run, run-reference, run-limit}
use failroom.Terminal.Attach.{pty_unavailable, attach, authorize, container}
use failroom.Terminal.Attached.{Current, attach-Current, attach-refused}
use failroom.Tests.Data.{plain, control, ref}
use failroom.Tests.Scenario.{published, second, everything}

-- two sandboxes, a refusal, and a slot that is given back twice
abbrev events : List Event
events =
    acquires ref
    ∷ acquires ref
    ∷ acquires second
    ∷ acquires ref
    ∷ releases 0
    ∷ releases 0
    ∷ acquires ref
    ∷ []

run-reference_example : (run 2 events no_slots).0 ≡ (reference_run 2 events []).0
run-reference_example = run-reference 2 events

run-limit_example : active ref (run 2 events no_slots).1.given ≤ 2
run-limit_example = run-limit 2 events ref

abbrev lease : AttachmentLease
lease = record {
  lease_id = "lease-1";
  ref = ref;
  jti_hash = "abc";
  gateway_session_hash = "session-1";
  session_epoch = 0;
  issued_at = aware 12;
  expires_at = aware 42;
  consumed_at = aware 12;
}

attached : (attach control (λ id. true) 2 lease (aware 20) published no_slots).0 ≡ returns 0
unfolding everything attach authorize container acquire
attached = refl

attach-Current_example :
    (id : String) × Current control lease (aware 20) published id × (true ≡ true)
attach-Current_example =
    attach-Current control (λ id. true) 2 lease (aware 20) published no_slots 0 attached

unopened :
    (attach control (λ id. false) 2 lease (aware 20) published no_slots).0 ≡ raises pty_unavailable
unfolding everything attach authorize container acquire
unopened = refl

attach-refused_example :
    active ref (attach control (λ id. false) 2 lease (aware 20) published no_slots).1.given ≡ 0
attach-refused_example =
    attach-refused control (λ id. false) 2 lease (aware 20) published no_slots pty_unavailable ref
      unopened
