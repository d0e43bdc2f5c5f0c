-- ===== src/StateStore/Capabilities/Accepted.antt =====
-- backend.py, consume: the requests that are accepted.
use Prim.Native.String.{◌++◌}
use failroom.Prelude.{
  ℕ, ◌≡◌, ◌<◌, ◌≤◌, ◌⊎◌, inl, inr, refl, ◌==◌, none, some, true, false, arith, text_eq,
  text_beq_refl, lt→ltb, String, leb,
}
use failroom.Prelude.Text.{is_identifier}
use failroom.Prelude.Tables.{insert_row}
use failroom.StateStore.Models.{
  ServiceIdentity, CapabilityClaims, CapabilityUse, Role, Action, State, ready, running, aware, pos,
  state_beq, role_eq, role_value,
}
use failroom.StateStore.Rows.{AttemptRow, ResourceRow, CapabilityRow, ending}
use failroom.StateStore.Tx.{Db, Tx, done, ok, transaction}
use failroom.StateStore.Libs.{Libs}
use failroom.StateStore.Sql.{attempt_of, resource_of, use_of, insert_use, has_length}
use failroom.StateStore.Common.{
  binding, binding_check, identifier, in_scopes, is_current, max_positive, non_negative, positive,
  read_clock, ref_valid, service, timestamp,
}
use failroom.StateStore.Backend.{consume, claims_fit, attachable, can_attach}
use failroom.StateStore.Backend.Live.{live}
use failroom.StateStore.Capabilities.Once.{used_row}

-- What a gateway's request for a terminal must meet: who asks, what the claims say, and how the
-- attempt and the resource that they name stand in the tables.
pub record Acceptable ⦃lib : Libs⦄ (i : ServiceIdentity) (c : CapabilityClaims) (clock deadline : ℕ)
    (s : Db) (a : AttemptRow) (r : ResourceRow) : Type 0 where
  pub role : i.role ≡ Role.gateway
  pub scope : in_scopes Action.consume i.scopes ≡ true
  pub service_fits : is_identifier i.service_id ≡ true
  pub attempt_fits : is_identifier c.ref.attempt_id ≡ true
  pub sandbox_fits : is_identifier c.ref.sandbox_id ≡ true
  pub generation_fits : (1 ≤ c.ref.generation) × (c.ref.generation ≤ max_positive)
  pub user_fits : is_identifier c.user_id ≡ true
  pub jti_fits : is_identifier c.jti ≡ true
  pub scope_fits : c.scope ≡ "terminal:attach"
  pub expires : c.expires_at ≡ aware deadline
  pub attempt : attempt_of s c.ref.attempt_id ≡ some a
  pub resource : resource_of s c.ref.sandbox_id ≡ some r
  pub owner : a.user_id ≡ c.user_id
  pub sandbox : a.sandbox_id ≡ c.ref.sandbox_id
  pub generation : a.generation ≡ c.ref.generation
  pub active : a.active_sandbox_id ≡ some c.ref.sandbox_id
  pub epoch : c.session_epoch ≡ pos a.session_epoch
  pub state : (a.state ≡ ready) ⊎ (a.state ≡ running)
  pub kept : a.destroy_intent ≡ false
  pub before_deadline : clock < deadline
  pub within : deadline ≤ a.expires_at
  pub resource_state : (r.state ≡ ready) ⊎ (r.state ≡ running)
  pub resource_kept : r.destroy_intent ≡ false
  pub resource_lives : r.expiry_intent ≡ false
  pub unused : use_of s (lib.sha256 c.jti) ≡ none
  pub digest_length : has_length 64 (lib.sha256 c.jti) ≡ true

beq_of : (x y : String) → x ≡ y → x == y ≡ true
beq_of x y e = ground (arith, text_beq_refl x)

leb_of : (m n : ℕ) → m ≤ n → leb m n ≡ true
leb_of m n h = ground arith

can_attach_of : (x : State) → (x ≡ ready) ⊎ (x ≡ running) → can_attach x ≡ true
unfolding can_attach state_beq
can_attach_of x (inl e) = rw e refl
can_attach_of x (inr e) = rw e refl

not_ending : (x : State) → (x ≡ ready) ⊎ (x ≡ running) → ending x ≡ false
not_ending x (inl e) = rw e refl
not_ending x (inr e) = rw e refl

attachable_of :
    (r : ResourceRow)
    → (r.state ≡ ready) ⊎ (r.state ≡ running)
    → r.destroy_intent ≡ false
    → r.expiry_intent ≡ false
    → attachable r ≡ true
unfolding attachable
attachable_of r h d e = ground (arith, can_attach_of r.state h)

live_of :
    (a : AttemptRow) (clock : ℕ) (s : Db)
    → (a.state ≡ ready) ⊎ (a.state ≡ running)
    → clock < a.expires_at
    → a.destroy_intent ≡ false
    → live a clock s ≡ done tt s
unfolding live
live_of a clock s h k d = ground (arith, not_ending a.state h)

committed :
    {A : Type 0} (m : Tx A) (s t : Db) (a : A) → m s ≡ done a t → transaction m s ≡ (ok a, t)
unfolding transaction
committed m s t a h = ground arith

module _ ⦃lib : Libs⦄ where
  insert_use-accepts :
      (r : CapabilityRow) (s : Db) (a : AttemptRow)
      → has_length 64 r.jti_hash ≡ true
      → r.consumed_at < r.expires_at
      → use_of s r.jti_hash ≡ none
      → attempt_of s r.attempt_id ≡ some a
      → insert_use r s ≡ done tt (record s { uses = insert_row r s.uses })
  unfolding insert_use
  insert_use-accepts r s a len before free e = ground (arith, lt→ltb r.consumed_at r.expires_at)

  abbrev pub receipt_for : CapabilityClaims → ℕ → CapabilityUse
  receipt_for c deadline = record {
    jti_hash = lib.sha256 c.jti;
    ref = c.ref;
    session_epoch = c.session_epoch;
    expires_at = aware deadline;
  }

  module _ (i : ServiceIdentity) (c : CapabilityClaims) (clock deadline : ℕ) (s : Db)
      (a : AttemptRow) (r : ResourceRow) (h : Acceptable i c clock deadline s a r) where
    service_of :
        service i Role.gateway Action.consume
        ≡ ok ("service:" ++ role_value Role.gateway ++ ":" ++ i.service_id)
    unfolding service identifier
    service_of = ground (arith, h.role, h.scope, h.service_fits, role_eq.beq_refl Role.gateway)

    ref_of : ref_valid c.ref ≡ ok tt
    unfolding ref_valid identifier positive
    ref_of = ground (
      arith,
      h.attempt_fits,
      h.sandbox_fits,
      h.generation_fits,
      leb_of 1 c.ref.generation,
      leb_of c.ref.generation max_positive,
    )

    current_of : is_current c.ref a ≡ true
    unfolding is_current
    current_of = ground (arith, h.sandbox, h.generation, beq_of a.sandbox_id c.ref.sandbox_id)

    fits_of : claims_fit a c a.session_epoch deadline clock ≡ true
    unfolding claims_fit
    fits_of = ground (
      arith,
      h.active,
      h.before_deadline,
      h.within,
      can_attach_of a.state h.state,
      text_beq_refl c.ref.sandbox_id,
    )

    accepts :
        consume i c (some (aware clock)) s
        ≡ done
            (receipt_for c deadline)
            (record s { uses = insert_row (used_row c clock deadline) s.uses })
    unfolding consume binding binding_check read_clock timestamp non_negative identifier
    accepts = ground (
      arith,
      h.user_fits,
      h.jti_fits,
      h.expires,
      h.epoch,
      h.attempt,
      h.resource,
      h.unused,
      service_of,
      ref_of,
      current_of,
      fits_of,
      beq_of c.scope "terminal:attach" h.scope_fits,
      beq_of a.user_id c.user_id h.owner,
      attachable_of r h.resource_state h.resource_kept h.resource_lives,
      live_of a clock s h.state (omega (arith, h.before_deadline, h.within)) h.kept,
      insert_use-accepts (used_row c clock deadline) s a h.digest_length h.before_deadline h.unused
          h.attempt,
    )

  -- A capability is accepted from a gateway with the scope to consume, if the identifiers and the
  -- generation are well formed, its scope is terminal:attach, its jti is unused and has a digest
  -- of 64 characters, and it names the owner of an attempt, its current and active sandbox and its
  -- session epoch, before its own deadline, which is no later than the attempt's, while attempt
  -- and resource are READY or RUNNING, neither is to be destroyed and the resource is not to be
  -- expired: consuming it returns its receipt, and exactly the row of its use is added.
  pub consume_accepts :
      (i : ServiceIdentity) (c : CapabilityClaims) (clock deadline : ℕ) (s : Db) (a : AttemptRow)
      (r : ResourceRow)
      → Acceptable i c clock deadline s a r
      → transaction (consume i c (some (aware clock))) s ≡ (
        ok (receipt_for c deadline),
        record s { uses = insert_row (used_row c clock deadline) s.uses },
      )
  consume_accepts i c clock deadline s a r h =
      committed (consume i c (some (aware clock))) s _ _ (accepts i c clock deadline s a r h)
