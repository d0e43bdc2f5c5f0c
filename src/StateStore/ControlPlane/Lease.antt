-- ===== src/StateStore/ControlPlane/Lease.antt =====
-- control_plane.py: grant_attachment_lease.
use failroom.Prelude.{
  ℕ, ◌+◌, String, Bool, false, not, ◌&&◌, Option, none, some, [], ◌∷◌, leb, ltb, ◌==◌, has, text_eq,
  nat_eq, if◌then◌else◌,
}
use failroom.StateStore.Models.{
  Code, attempt_unavailable, idempotency_conflict, store_failure, capability_invalid,
  capability_replay, Role, Action, state_eq, ref_eq, ServiceIdentity, ResourceRef, Clock,
  CapabilityUse, AttachmentLease, pos,
}
use failroom.StateStore.Rows.{AttemptRow, ResourceRow, CapabilityRow, LeaseRow, is_null}
use failroom.StateStore.Tx.{
  or_raise, Result, ok, err, Tx, pure, raise, lift, raise_if, or_else, ◌>>=◌, ◌>>◌,
}
use failroom.StateStore.Libs.{Libs, text, int}
use failroom.StateStore.Sql.{select_use, select_lease, insert_lease, lease_key, uuid4_hex}
use failroom.StateStore.Common.{
  timestamp, read_clock, instant, identifier, positive, ref_valid, service, binding, request_hash,
  ref_values, non_negative,
}
use failroom.Prelude.Text.{is_hex_of}
use failroom.Prelude.{min}
use failroom.StateStore.Backend.Cleanup.{attachable}
use failroom.StateStore.ControlPlane.Base.{resource, live}

-- `_attachment_lease`
abbrev pub attachment_lease : LeaseRow → AttachmentLease
attachment_lease row = record {
  lease_id = row.lease_id;
  ref = record {
    attempt_id = row.attempt_id;
    sandbox_id = row.sandbox_id;
    generation = row.generation;
  };
  jti_hash = row.jti_hash;
  gateway_session_hash = row.gateway_session_hash;
  session_epoch = row.session_epoch;
  issued_at = instant row.issued_at;
  expires_at = instant row.expires_at;
  consumed_at = instant row.consumed_at;
}

abbrev pub with_code : {A : Type 0} → Code → Result A → Result A
with_code e (ok a) = ok a
with_code e (err _) = err e

-- the live attempt and resource admit this terminal session
unfoldable pub session_fits : AttemptRow → ResourceRow → ResourceRef → ℕ → Bool
session_fits a r ref epoch =
    attachable r && has a.active_sandbox_id ref.sandbox_id && a.session_epoch == epoch

abbrev pub capability_fits : Option CapabilityRow → ℕ → ℕ → Bool
capability_fits none clock deadline = false
capability_fits (some c) clock deadline = ltb clock c.expires_at && c.expires_at == deadline

abbrev pub use_expiry : Option CapabilityRow → ℕ
use_expiry none = 0
use_expiry (some c) = c.expires_at

-- the lease of an earlier request with this key; another request under it is a conflict
abbrev pub lease_of_key : Option LeaseRow → String → Tx (Option AttachmentLease)
lease_of_key none fingerprint = pure none
lease_of_key (some row) fingerprint =
    if row.request_hash == fingerprint
    then pure (some (attachment_lease row))
    else raise idempotency_conflict

abbrev pub lease_of_jti : Option LeaseRow → String → Tx (Option AttachmentLease)
lease_of_jti none fingerprint = pure none
lease_of_jti (some row) fingerprint =
    if row.request_hash == fingerprint
    then pure (some (attachment_lease row))
    else raise capability_replay

-- the deadline of a lease: the nearest of the capability's, the attempt's and the duration
abbrev pub lease_deadline : ℕ → ℕ → ℕ → ℕ
lease_deadline capability attempt requested_end = min (min capability attempt) requested_end

-- INSERT, and the row read back by its id
unfoldable pub write_lease : LeaseRow → Tx AttachmentLease
write_lease r = do
  insert_lease r
  written ← select_lease (λ (o : LeaseRow). o.lease_id == r.lease_id)
  row ← or_raise written store_failure
  pure (attachment_lease row)

module _ ⦃lib : Libs⦄ where
  -- the part that writes, once no earlier lease answers the request
  unfoldable pub issue_lease :
      String
      → String
      → String
      → ResourceRef
      → CapabilityUse
      → ℕ
      → String
      → ℕ
      → ℕ
      → ℕ
      → Tx AttachmentLease
  issue_lease actor key fingerprint ref consumed epoch session_hash clock duration deadline = do
    taken ← select_lease (λ r. r.gateway_session_hash == session_hash)
    raise_if (not (is_null taken)) capability_replay
    raise_if (leb deadline clock) capability_invalid
    lease_id ← uuid4_hex
    write_lease (record {
      lease_id = lease_id;
      jti_hash = consumed.jti_hash;
      actor = actor;
      idempotency_key = key;
      request_hash = fingerprint;
      attempt_id = ref.attempt_id;
      sandbox_id = ref.sandbox_id;
      generation = ref.generation;
      session_epoch = epoch;
      gateway_session_hash = session_hash;
      issued_at = clock;
      expires_at = deadline;
      consumed_at = clock;
    })

  unfoldable pub lease_fingerprint : ResourceRef → CapabilityUse → String → ℕ → String
  lease_fingerprint ref consumed gateway_session_id duration = request_hash "attachment-lease" (
      ref_values ref (
        text consumed.jti_hash
        ∷ int consumed.session_epoch
        ∷ text (lib.sha256 gateway_session_id)
        ∷ int (pos duration)
        ∷ []))

  unfoldable pub grant_attachment_lease :
      ServiceIdentity
      → ResourceRef
      → CapabilityUse
      → String
      → ℕ
      → String
      → Clock
      → Tx AttachmentLease
  grant_attachment_lease identity ref consumed gateway_session_id duration key now = do
    actor ← lift (service identity Role.gateway Action.attach)
    lift (ref_valid ref)
    raise_if (not (consumed.ref == ref)) capability_invalid
    raise_if (not (is_hex_of 64 consumed.jti_hash)) capability_invalid
    epoch ← lift (with_code capability_invalid (non_negative consumed.session_epoch))
    lift (identifier gateway_session_id)
    lift (identifier key)
    lift (positive duration 60000000)
    consumed_expires_at ← lift (with_code capability_invalid (timestamp consumed.expires_at))
    let session_hash = lib.sha256 gateway_session_id
    let fingerprint = lease_fingerprint ref consumed gateway_session_id duration
    clock ← lift (read_clock now)
    attempt ← binding false ref
    r ← resource ref
    live attempt (some r) clock
    raise_if (not (session_fits attempt r ref epoch)) attempt_unavailable
    capability ← select_use (λ c. c.jti_hash == consumed.jti_hash && c.attempt_id == ref.attempt_id)
    raise_if (not (capability_fits capability clock consumed_expires_at)) capability_invalid
    by_key ← select_lease (lease_key actor key)
    earlier ← lease_of_key by_key fingerprint
    or_else earlier do
      by_jti ← select_lease (λ l. l.jti_hash == consumed.jti_hash)
      same_jti ← lease_of_jti by_jti fingerprint
      or_else same_jti (
          issue_lease actor key fingerprint ref consumed epoch session_hash clock duration
            (lease_deadline (use_expiry capability) attempt.expires_at (clock + duration)))
