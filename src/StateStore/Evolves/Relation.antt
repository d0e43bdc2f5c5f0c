-- ===== src/StateStore/Evolves/Relation.antt =====
-- schema.py: a relation between the tables before and after, row by row.
use failroom.Prelude.{◌≤◌, ◌≡◌, String, Bool, true, some, arith, text_beq→eq, text_eq}
use failroom.Prelude.Tables.{find}
use failroom.StateStore.Models.{destroyed, state_beq→eq, state_beq_refl, state_eq}
use failroom.StateStore.Rows.{
  AttemptRow, ResourceRow, CapabilityRow, OperationRow, LeaseRow, attempt_trigger, resource_trigger,
}
use failroom.StateStore.Tx.{Db}
use failroom.StateStore.Tx.Rules.{IsPreorder}
use failroom.StateStore.Sql.{attempt_of, resource_of, operation_of}

pub record AttemptLe (a b : AttemptRow) : Type 0 where
  pub id : b.attempt_id ≡ a.attempt_id
  pub owner : b.user_id ≡ a.user_id
  pub room : b.room_id ≡ a.room_id
  pub deadline : b.expires_at ≡ a.expires_at
  pub epoch : a.session_epoch ≤ b.session_epoch
  pub generation : a.generation ≤ b.generation
  -- one generation, one sandbox
  pub sandbox : a.generation ≡ b.generation → a.sandbox_id ≡ b.sandbox_id
  pub expiry : a.expiry_intent ≡ true → b.expiry_intent ≡ true
  pub destroy : a.destroy_intent ≡ true → b.destroy_intent ≡ true
  pub end : a.state ≡ destroyed → b.state ≡ destroyed

pub record ResourceLe (a b : ResourceRow) : Type 0 where
  pub id : b.sandbox_id ≡ a.sandbox_id
  pub attempt : b.attempt_id ≡ a.attempt_id
  pub generation : b.generation ≡ a.generation
  pub deadline : b.expires_at ≡ a.expires_at
  pub expiry : a.expiry_intent ≡ true → b.expiry_intent ≡ true
  pub destroy : a.destroy_intent ≡ true → b.destroy_intent ≡ true
  pub end : a.state ≡ destroyed → b.state ≡ destroyed

pub record OperationLe (a b : OperationRow) : Type 0 where
  pub id : b.operation_id ≡ a.operation_id
  pub actor : b.actor ≡ a.actor
  pub key : b.idempotency_key ≡ a.idempotency_key
  pub request : b.request_hash ≡ a.request_hash
  pub attempt : b.attempt_id ≡ a.attempt_id
  pub sandbox : b.sandbox_id ≡ a.sandbox_id
  pub generation : b.generation ≡ a.generation

pub AttemptLe-refl : (a : AttemptRow) → AttemptLe a a
AttemptLe-refl a = ground arith

pub ResourceLe-refl : (a : ResourceRow) → ResourceLe a a
ResourceLe-refl a = ground arith

pub OperationLe-refl : (a : OperationRow) → OperationLe a a
OperationLe-refl a = ground arith

AttemptLe-trans : {a b c : AttemptRow} → AttemptLe a b → AttemptLe b c → AttemptLe a c
AttemptLe-trans h k = ground arith

ResourceLe-trans : {a b c : ResourceRow} → ResourceLe a b → ResourceLe b c → ResourceLe a c
ResourceLe-trans h k = ground arith

OperationLe-trans : {a b c : OperationRow} → OperationLe a b → OperationLe b c → OperationLe a c
OperationLe-trans h k = ground arith

pub record Evolves (s t : Db) : Type 0 where
  pub attempts :
      (id : String) (a : AttemptRow)
      → attempt_of s id ≡ some a
      → (b : AttemptRow) × (attempt_of t id ≡ some b) × AttemptLe a b
  pub resources :
      (id : String) (a : ResourceRow)
      → resource_of s id ≡ some a
      → (b : ResourceRow) × (resource_of t id ≡ some b) × ResourceLe a b
  pub operations :
      (actor key : String) (a : OperationRow)
      → operation_of s actor key ≡ some a
      → (b : OperationRow) × (operation_of t actor key ≡ some b) × OperationLe a b
  pub uses :
      (p : CapabilityRow → Bool) (u : CapabilityRow)
      → find p s.uses ≡ some u
      → find p t.uses ≡ some u
  pub leases :
      (p : LeaseRow → Bool) (l : LeaseRow) → find p s.leases ≡ some l → find p t.leases ≡ some l

pub Evolves-refl : (s : Db) → Evolves s s
Evolves-refl s = record {
  attempts = λ id a h. (a, h, AttemptLe-refl a);
  resources = λ id a h. (a, h, ResourceLe-refl a);
  operations = λ actor key a h. (a, h, OperationLe-refl a);
  uses = λ p u h. h;
  leases = λ p l h. h;
}

pub Evolves-trans : (s t u : Db) → Evolves s t → Evolves t u → Evolves s u
Evolves-trans s t u f g = record {
  attempts = λ id a h.
      let (b, k, l) = f.attempts id a h in
      let (c, m, n) = g.attempts id b k in (c, m, AttemptLe-trans l n);
  resources = λ id a h.
      let (b, k, l) = f.resources id a h in
      let (c, m, n) = g.resources id b k in (c, m, ResourceLe-trans l n);
  operations = λ actor key a h.
      let (b, k, l) = f.operations actor key a h in
      let (c, m, n) = g.operations actor key b k in (c, m, OperationLe-trans l n);
  uses = λ p v h. g.uses p v (f.uses p v h);
  leases = λ p l h. g.leases p l (f.leases p l h);
}

pub Evolves-IsPreorder : IsPreorder Evolves
Evolves-IsPreorder = record { same = Evolves-refl; then_ = Evolves-trans }

-- What the triggers let pass is an advance of the row.
pub attempt_trigger-AttemptLe : (a b : AttemptRow) → attempt_trigger a b ≡ true → AttemptLe a b
unfolding attempt_trigger
attempt_trigger-AttemptLe a b h = ground (
  arith,
  text_beq→eq b.attempt_id a.attempt_id,
  text_beq→eq b.user_id a.user_id,
  text_beq→eq b.room_id a.room_id,
  text_beq→eq b.sandbox_id a.sandbox_id,
  state_beq→eq b.state destroyed,
  state_beq_refl destroyed,
)

pub resource_trigger-ResourceLe : (a b : ResourceRow) → resource_trigger a b ≡ true → ResourceLe a b
unfolding resource_trigger
resource_trigger-ResourceLe a b h = ground (
  arith,
  text_beq→eq b.attempt_id a.attempt_id,
  text_beq→eq b.sandbox_id a.sandbox_id,
  state_beq→eq b.state destroyed,
  state_beq_refl destroyed,
)
