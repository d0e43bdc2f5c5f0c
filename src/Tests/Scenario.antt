-- ===== src/Tests/Scenario.antt =====
-- The tables after each step of a run: an attempt is created, provisioned, published and used.
use failroom.Prelude.{ℕ, String, false, List, [], ◌∷◌, some, none, ◌≡◌, Option}
use failroom.Prelude.Text.{is_identifier, is_hex_of, is_digest}
use failroom.Prelude.{text_beq}
use failroom.Prelude.Tables.{find, put, insert_row, keep, take, order_by}
use failroom.StateStore.Models.{
  Receipt, State, creating, starting, ready, destroyed, pos, aware, state_beq, ref_beq,
  CapabilityClaims, ResourceRef, role_value,
}
use failroom.StateStore.Rows
use failroom.StateStore.Rows.{AttemptRow, ResourceRow}
use failroom.StateStore.Tx.{Db, Tx, Result, ok, err, empty_db, transaction}
use failroom.StateStore.Sql
use failroom.StateStore.Common
use failroom.StateStore.Backend
use failroom.StateStore.ControlPlane
use failroom.StateStore.ControlPlane.{Move}
use failroom.StateStore.Evolves.History.{Request, handle, history}
use failroom.Tests.Data.{plain, alice, backend, control, at, ref, evidence}

abbrev pub move : ℕ → State → Option String → Option String → Move
move v state container digest = record {
  expected_version = pos v;
  state = state;
  container_id = container;
  evidence_digest = digest;
  error_code = none;
}

abbrev pub provisioning_requests : List Request
provisioning_requests =
    Request.create alice "room-1" "k1" (aware 1000) (at 1)
    ∷ Request.accept backend ref "k2" (at 2)
    ∷ Request.transition control ref (move 0 creating none none) "k3" (at 3)
    ∷ Request.transition control ref (move 1 starting (some "container-1") none) "k4" (at 4)
    ∷ []

abbrev pub ready_requests : List Request
ready_requests =
    Request.transition control ref (move 2 ready none (some evidence)) "k5" (at 5)
    ∷ Request.publish_ready backend ref (pos 0) "k6" (at 6)
    ∷ []

abbrev pub started : Db
started = history provisioning_requests empty_db

abbrev pub published : Db
published = history ready_requests started

abbrev pub claims : CapabilityClaims
claims = record {
  jti = "abc";
  user_id = "alice";
  ref = ref;
  session_epoch = pos 0;
  expires_at = aware 50;
  scope = "terminal:attach";
}

-- the tuple that a reset of the published attempt reserves
abbrev pub second : ResourceRef
second = record { attempt_id = "id-"; sandbox_id = "id-fffffffff"; generation = 2 }

abbrev pub reset_requests : List Request
reset_requests =
    Request.begin_reset alice ref "k7" (at 20)
    ∷ Request.reconcile control (at 21) 10
    ∷ Request.transition control ref (move 4 destroyed none (some evidence)) "k8" (at 22)
    ∷ Request.accept backend second "k9" (at 23)
    ∷ Request.transition control second (move 0 creating none none) "k10" (at 24)
    ∷ Request.transition control second (move 1 starting (some "container-2") none) "k11" (at 25)
    ∷ Request.transition control second (move 2 ready none (some evidence)) "k12" (at 26)
    ∷ []

abbrev pub resettable : Db
resettable = history reset_requests published

-- the user leaves, and the sandbox is removed
abbrev pub leave_requests : List Request
leave_requests =
    Request.leave alice ref "k13" (at 30)
    ∷ Request.reconcile control (at 31) 10
    ∷ Request.transition control ref (move 4 destroyed none (some evidence)) "k14" (at 32)
    ∷ []

abbrev pub cleaned : Db
cleaned = history leave_requests published

abbrev pub or_default : {A : Type 0} → A → Result A → A
or_default a (ok b) = b
or_default a (err e) = a

abbrev pub no_receipt : Receipt
no_receipt = record { operation_id = ""; ref = ref; state = ready; version = 0 }

abbrev pub receipt_of : Tx Receipt → Db → Receipt
receipt_of m s = or_default no_receipt (transaction m s).0

abbrev no_attempt : AttemptRow
no_attempt = record {
  attempt_id = "";
  user_id = "";
  room_id = "";
  sandbox_id = "";
  generation = 0;
  active_sandbox_id = none;
  active_generation = none;
  candidate_sandbox_id = none;
  candidate_generation = none;
  state = ready;
  session_epoch = 0;
  version = 0;
  created_at = 0;
  expires_at = 0;
  provisioning_intent = false;
  reset_intent = false;
  expiry_intent = false;
  destroy_intent = false;
  runtime_operation_id = none;
}

abbrev no_resource : ResourceRow
no_resource = record {
  sandbox_id = "";
  attempt_id = "";
  generation = 0;
  state = ready;
  version = 0;
  container_id = none;
  runtime_operation_id = none;
  expires_at = 0;
  expiry_intent = false;
  destroy_intent = false;
  evidence_digest = none;
  cleanup_evidence_digest = none;
}

-- the one attempt of the scenario
abbrev pub attempt_in : Db → AttemptRow
attempt_in s = elim (Sql.attempt_of s "id-") [ none ↦ no_attempt | some r ↦ r ]

abbrev pub resource_in : Db → String → ResourceRow
resource_in s id = elim (Sql.resource_of s id) [ none ↦ no_resource | some r ↦ r ]

-- a transaction that returns, with the tables that it leaves
pub returns :
    {A : Type 0} (m : Tx A) (s : Db) (a : A)
    → (transaction m s).0 ≡ ok a
    → transaction m s ≡ (ok a, (transaction m s).1)
returns m s a e = λ i. (e i, (transaction m s).1)

-- All that the run computes with.
unfoldable pub everything : Unit {0}
unfolding is_identifier is_hex_of is_digest text_beq find put insert_row keep take order_by
    state_beq ref_beq role_value transaction handle history Common.timestamp Common.read_clock
    Common.identifier Common.runtime_operation_id Common.positive Common.ref_valid Common.service
    Common.user Common.owner_check Common.is_current Common.is_active Common.binding_check
    Common.digest Common.cas Common.non_negative Common.owned Common.binding Common.replay
    Common.request_hash Common.finish Sql.insert_attempt Sql.update_attempt Sql.insert_resource
    Sql.update_resource Sql.insert_operation Sql.update_operation Sql.insert_use Sql.insert_lease
    Sql.lease_check Sql.lease_clash Sql.sandbox_taken Sql.container_taken Sql.uuid4 Sql.uuid4_hex
    Rows.attempt_check Rows.attempt_trigger Rows.reset_begins Rows.resource_check
    Rows.operation_check Rows.resource_trigger Backend.create Backend.leave Backend.publish_ready
    Backend.publish_runtime_state Backend.publish_running Backend.begin_reset
    Backend.publish_reset_ready Backend.fail_reset Backend.expire Backend.stop_all
    Backend.complete_cleanup Backend.finish_old Backend.finish_current Backend.consume
    Backend.ready_allowed Backend.runtime_allowed Backend.reset_allowed Backend.deny_expired
    Backend.is_cleaned Backend.is_resetting Backend.reset_ready_allowed Backend.fail_reset_allowed
    Backend.unfinished Backend.can_attach Backend.claims_fit Backend.attachable Backend.by_deadline
    Backend.expire_due Backend.finalizable Backend.pending_finalizations Backend.Live.stopped
    Backend.Live.stop Backend.Live.live ControlPlane.accept ControlPlane.initial_provisioning
    ControlPlane.reset_provisioning ControlPlane.accept_allowed ControlPlane.inspect
    ControlPlane.transition ControlPlane.write_move ControlPlane.apply_move
    ControlPlane.is_error_code ControlPlane.check_arguments ControlPlane.is_cleanup
    ControlPlane.moved ControlPlane.grant_attachment_lease ControlPlane.issue_lease
    ControlPlane.write_lease ControlPlane.lease_fingerprint ControlPlane.session_fits
    ControlPlane.reconcile ControlPlane.visit ControlPlane.visit_all ControlPlane.candidates
    ControlPlane.joined ControlPlane.wants_cleanup ControlPlane.wants_absence ControlPlane.replaced
    ControlPlane.by_urgency ControlPlane.reserve ControlPlane.cleanup_failed ControlPlane.Base.next
    ControlPlane.Base.resource_check ControlPlane.Base.resource ControlPlane.Base.runtime_binding
    ControlPlane.Base.stopped ControlPlane.Base.stop ControlPlane.Base.live
everything = tt
