-- ===== src/Tests/Terminals.antt =====
-- The theorems on terminal capabilities and leases, at the states of the scenario.
use failroom.Prelude.{
  arith, ◌<◌, ◌≤◌, [], ◌∷◌, some, ◌≡◌, ◌≢◌, inl, true, refl, ◌==◌, text_eq, ◌&&◌,
}
use failroom.Prelude.Tables.{find, insert_row}
use failroom.StateStore.Models.{CapabilityUse, AttachmentLease, Role, Action, aware, pos}
use failroom.StateStore.Rows.{ResourceRow, CapabilityRow}
use failroom.StateStore.Tx.{Db, Tx, ok, transaction}
use failroom.StateStore.Sql.{attempt_of, resource_of}
use failroom.StateStore.Common.{service, max_positive}
use failroom.StateStore.Backend.{consume, attachable}
use failroom.StateStore.ControlPlane.{grant_attachment_lease}
use failroom.StateStore.Evolves.History.{Request, committed, history}
use failroom.StateStore.Capabilities.Accepted.{Acceptable, consume_accepts, receipt_for}
use failroom.StateStore.Capabilities.Once.{consume_once, used_row}
use failroom.StateStore.Capabilities.Checked.{Admits, consume-Admits, ended_session}
use failroom.StateStore.Capabilities.Leases.{Granted, grant_bounds}
use failroom.Tests.Data.{plain, gateway, at, ref}
use failroom.Tests.Scenario.{
  resource_in, published, claims, everything, attempt_in, leave_requests, returns,
}

abbrev receipt : CapabilityUse
receipt = record {
  jti_hash = "abc0000000000000000000000000000000000000000000000000000000000000";
  ref = ref;
  session_epoch = pos 0;
  expires_at = aware 50;
}

abbrev consumed : Db
consumed = committed (consume gateway claims (at 10)) published

consumes : transaction (consume gateway claims (at 10)) published ≡ (ok receipt, consumed)
unfolding everything
consumes = refl

consume_once_example :
    transaction
      (consume gateway claims (at 20))
      (history (Request.expire gateway (at 15) 5 ∷ []) consumed)
    ≢ (ok receipt, consumed)
consume_once_example =
    consume_once gateway gateway claims claims (at 10) (at 20) published consumed consumed receipt
      receipt (Request.expire gateway (at 15) 5 ∷ []) consumes refl

row_found : attempt_of published "id-" ≡ some (attempt_in published)
unfolding everything
row_found = refl

consume-Admits_example :
    Admits claims 10 50 0 (attempt_in published)
    × ((r : ResourceRow) × (resource_of published "id-f" ≡ some r) × (attachable r ≡ true))
consume-Admits_example =
    consume-Admits gateway claims 10 50 0 published consumed receipt (attempt_in published) refl
      refl row_found consumes

abbrev left : Db
left = history leave_requests published

ended : (attempt_of left "id-" ≡ some (attempt_in left)) × ((attempt_in left).destroy_intent ≡ true)
unfolding everything
ended = (refl, refl)

ended_session_example :
    transaction
      (consume gateway claims (at 40))
      (history (Request.expire gateway (at 35) 5 ∷ []) left)
    ≢ (ok receipt, left)
ended_session_example =
    ended_session gateway claims (at 40) 0 left left receipt (attempt_in left)
      (Request.expire gateway (at 35) 5 ∷ []) refl ended.0 (inl ended.1)

abbrev use_row : CapabilityRow
use_row = record {
  jti_hash = "abc0000000000000000000000000000000000000000000000000000000000000";
  attempt_id = "id-";
  consumed_at = 10;
  expires_at = 50;
}

abbrev granting : Tx AttachmentLease
granting = grant_attachment_lease gateway ref receipt "session-1" 30 "k20" (at 12)

abbrev lease : AttachmentLease
lease = record {
  lease_id = "fffffffff00000000000000000000000";
  ref = ref;
  jti_hash = "abc0000000000000000000000000000000000000000000000000000000000000";
  gateway_session_hash = "session-10000000000000000000000000000000000000000000000000000000";
  session_epoch = 0;
  issued_at = aware 12;
  expires_at = aware 42;
  consumed_at = aware 12;
}

grants : (transaction granting consumed).0 ≡ ok lease
unfolding everything
grants = refl

gateway_actor : service gateway Role.gateway Action.attach ≡ ok "service:gateway:gateway-1"
unfolding everything
gateway_actor = refl

use_found :
    find
      (λ (x : CapabilityRow). x.jti_hash == receipt.jti_hash && x.attempt_id == "id-")
      consumed.uses
    ≡ some use_row
unfolding everything
use_found = refl

no_lease_yet : consumed.leases ≡ []
unfolding everything
no_lease_yet = refl

attempt_found : attempt_of consumed "id-" ≡ some (attempt_in consumed)
unfolding everything
attempt_found = refl

grant_bounds_example : Granted 12 30 (attempt_in consumed) use_row lease
unfolding find
grant_bounds_example =
    grant_bounds gateway ref receipt "session-1" "k20" "service:gateway:gateway-1" 30 12 50 0
      consumed (committed granting consumed) lease (attempt_in consumed) use_row gateway_actor refl
      refl attempt_found use_found (rw no_lease_yet) (rw no_lease_yet)
      (returns granting consumed lease grants)

-- a capability that is accepted

generation_in_range : (1 ≤ claims.ref.generation) × (claims.ref.generation ≤ max_positive)
generation_in_range = (omega arith, omega arith)

deadline_of : (attempt_in published).expires_at ≡ 1000
unfolding everything
deadline_of = refl

before_deadline : ◌<◌ 10 50
before_deadline = omega arith

within_attempt : 50 ≤ (attempt_in published).expires_at
within_attempt = omega (arith, deadline_of)

acceptable :
    Acceptable gateway claims 10 50 published (attempt_in published) (resource_in published "id-f")
unfolding everything
acceptable = record {
  role = refl;
  scope = refl;
  service_fits = refl;
  attempt_fits = refl;
  sandbox_fits = refl;
  generation_fits = generation_in_range;
  user_fits = refl;
  jti_fits = refl;
  scope_fits = refl;
  expires = refl;
  attempt = refl;
  resource = refl;
  owner = refl;
  sandbox = refl;
  generation = refl;
  active = refl;
  epoch = refl;
  state = inl refl;
  kept = refl;
  before_deadline = before_deadline;
  within = within_attempt;
  resource_state = inl refl;
  resource_kept = refl;
  resource_lives = refl;
  unused = refl;
  digest_length = refl;
}

consume_accepts_example : transaction (consume gateway claims (at 10)) published ≡ (
  ok (receipt_for claims 50),
  record published { uses = insert_row (used_row claims 10 50) published.uses },
)
consume_accepts_example =
    consume_accepts gateway claims 10 50 published (attempt_in published)
      (resource_in published "id-f") acceptable
