-- ===== src/StateStore/Capabilities/Leases.antt =====
-- control_plane.py, grant_attachment_lease: the lease that is granted anew.
use failroom.Prelude.{
  ℕ, suc, ◌+◌, ◌<◌, ◌≤◌, String, some, none, ◌≡◌, arith, true, text_beq_refl, ◌==◌, text_eq, ◌&&◌,
}
use failroom.Prelude.Tables.{find, find-insert_row_new, find-none}
use failroom.StateStore.Models.{
  Role, Action, ServiceIdentity, ResourceRef, CapabilityUse, AttachmentLease, aware, pos,
}
use failroom.StateStore.Rows.{AttemptRow, CapabilityRow, LeaseRow}
use failroom.StateStore.Tx.{Db, done, ok, transaction}
use failroom.StateStore.Tx.Rules.{transaction-done}
use failroom.StateStore.Libs.{Libs}
use failroom.StateStore.Sql.{insert_lease, lease_clash, lease_key, uuid4_hex, attempt_of}
use failroom.StateStore.Common.{
  binding, binding_check, service, read_clock, timestamp, non_negative,
}
use failroom.StateStore.ControlPlane.Base.{resource, live}
use failroom.StateStore.ControlPlane.Lease.{
  grant_attachment_lease, issue_lease, write_lease, attachment_lease, lease_deadline,
  lease_fingerprint, session_fits,
}

lease_id_clash : (r o : LeaseRow) → o.lease_id == r.lease_id ≡ true → lease_clash r o ≡ true
unfolding lease_clash
lease_id_clash r o h = ground arith

-- A lease is written under an id that is new, and read back by it.
write_lease-lease :
    (r : LeaseRow) (s t : Db) (l : AttachmentLease)
    → write_lease r s ≡ done l t
    → l ≡ attachment_lease r
unfolding write_lease insert_lease
write_lease-lease r s t l h = ground (
  arith,
  find-none (lease_clash r) (λ (o : LeaseRow). o.lease_id == r.lease_id) s.leases
      (lease_id_clash r),
  find-insert_row_new (λ (o : LeaseRow). o.lease_id == r.lease_id) r s.leases,
  text_beq_refl r.lease_id,
)

module _ ⦃lib : Libs⦄ where
  abbrev lease_row :
      String
      → String
      → String
      → ResourceRef
      → CapabilityUse
      → ℕ
      → String
      → ℕ
      → ℕ
      → String
      → LeaseRow
  lease_row actor key fingerprint ref consumed epoch session_hash clock deadline id = record {
    lease_id = id;
    jti_hash = consumed.jti_hash;
    actor = actor;
    idempotency_key = key;
    request_hash = fingerprint;
    attempt_id = ref.attempt_id;
    sandbox_id = ref.sandbox_id;
    generation = ref.generation;
    session_epoch = epoch;
    gateway_session_hash = session_hash;
    issued_at = clock;
    expires_at = deadline;
    consumed_at = clock;
  }

  issue_lease-lease :
      (actor key fingerprint : String) (ref : ResourceRef) (consumed : CapabilityUse) (epoch : ℕ)
      (session_hash : String) (clock duration deadline : ℕ) (s t : Db) (l : AttachmentLease)
      → issue_lease actor key fingerprint ref consumed epoch session_hash clock duration deadline s
        ≡ done l t
      → (clock < deadline)
        × (l
            ≡ attachment_lease (
                lease_row actor key fingerprint ref consumed epoch session_hash clock deadline
                  (lib.uuid4_hex s.drawn)))
        × (find (λ (o : LeaseRow). o.gateway_session_hash == session_hash) s.leases ≡ none)
  unfolding issue_lease uuid4_hex
  issue_lease-lease actor key fingerprint ref consumed epoch session_hash clock duration deadline s
        t l h =
      ground (
        arith,
        write_lease-lease
            (lease_row actor key fingerprint ref consumed epoch session_hash clock deadline
              (lib.uuid4_hex s.drawn))
            (record s { drawn = suc s.drawn }) t l,
      )

-- A lease that was granted anew: issued now, it ends with the first of its duration, the attempt and
-- the capability, and it has an end.
pub record Granted (clock duration : ℕ) (a : AttemptRow) (c : CapabilityRow) (l : AttachmentLease)
    : Type 0 where
  pub deadline : ℕ
  pub ends : l.expires_at ≡ aware deadline
  pub issued : l.issued_at ≡ aware clock
  pub after_now : clock < deadline
  pub in_duration : deadline ≤ clock + duration
  pub in_attempt : deadline ≤ a.expires_at
  pub in_capability : deadline ≤ c.expires_at
  pub epoch : l.session_epoch ≡ a.session_epoch

module _ ⦃lib : Libs⦄ where
  grant-issue_lease :
      (i : ServiceIdentity) (ref : ResourceRef) (use_ : CapabilityUse) (session key actor : String)
      (duration clock end epoch : ℕ) (s t : Db) (l : AttachmentLease) (a : AttemptRow)
      (c : CapabilityRow)
      → service i Role.gateway Action.attach ≡ ok actor
      → use_.session_epoch ≡ pos epoch
      → use_.expires_at ≡ aware end
      → attempt_of s ref.attempt_id ≡ some a
      → find
          (λ (x : CapabilityRow). x.jti_hash == use_.jti_hash && x.attempt_id == ref.attempt_id)
          s.uses
        ≡ some c
      → find (lease_key actor key) s.leases ≡ none
      → find (λ (x : LeaseRow). x.jti_hash == use_.jti_hash) s.leases ≡ none
      → grant_attachment_lease i ref use_ session duration key (some (aware clock)) s ≡ done l t
      → (a.session_epoch ≡ epoch)
        × (issue_lease actor key
              (lease_fingerprint ref use_ session duration)
              ref
              use_
              epoch
              (lib.sha256 session)
              clock
              duration
              (lease_deadline c.expires_at a.expires_at (clock + duration))
              s
            ≡ done l t)
  unfolding grant_attachment_lease binding binding_check resource live read_clock timestamp
      session_fits non_negative
  grant-issue_lease i ref use_ session key actor duration clock end epoch s t l a c auth ep ex att
        cap no_key no_jti h =
      ground arith

  -- A lease that is granted to a request that no earlier lease answers starts at the clock, is not
  -- yet over, and outlives neither its duration, nor the attempt, nor the capability.
  pub grant_bounds :
      (i : ServiceIdentity) (ref : ResourceRef) (use_ : CapabilityUse) (session key actor : String)
      (duration clock end epoch : ℕ) (s t : Db) (l : AttachmentLease) (a : AttemptRow)
      (c : CapabilityRow)
      → service i Role.gateway Action.attach ≡ ok actor
      → use_.session_epoch ≡ pos epoch
      → use_.expires_at ≡ aware end
      → attempt_of s ref.attempt_id ≡ some a
      → find
          (λ (x : CapabilityRow). x.jti_hash == use_.jti_hash && x.attempt_id == ref.attempt_id)
          s.uses
        ≡ some c
      → find (lease_key actor key) s.leases ≡ none
      → find (λ (x : LeaseRow). x.jti_hash == use_.jti_hash) s.leases ≡ none
      → transaction (grant_attachment_lease i ref use_ session duration key (some (aware clock))) s
        ≡ (ok l, t)
      → Granted clock duration a c l
  grant_bounds i ref use_ session key actor duration clock end epoch s t l a c auth ep ex att cap
        no_key no_jti h =
      let (e, issue) =
        grant-issue_lease i ref use_ session key actor duration clock end epoch s t l a c auth ep ex
          att cap no_key no_jti (transaction-done _ s t l h) in
      let (later, same, _) =
        issue_lease-lease _ _ _ ref use_ epoch _ clock duration _ s t l issue in
      record {
        deadline = lease_deadline c.expires_at a.expires_at (clock + duration);
        ends = rw same;
        issued = rw same;
        after_now = later;
        in_duration = omega arith;
        in_attempt = omega arith;
        in_capability = omega arith;
        epoch = rw (same, e);
      }
