-- ===== src/StateStore/Models.antt =====
-- models.py: identities, references, receipts, and the codes of StoreError.
mod States
unfoldable pub use States.*
use failroom.Prelude.{
  ℕ, String, Bool, true, false, ◌&&◌, ◌≡◌, Option, none, some, List, [], ◌∷◌, arith, Eq, ◌==◌,
  text_eq, nat_eq, ◌||◌, text_beq, text_beq→eq, text_beq_refl, nat_beq,
}

pub record UserIdentity : Type 0 where
  pub user_id : String
  pub authorized_room_ids : List String

pub record ServiceIdentity : Type 0 where
  pub service_id : String
  pub role : Role
  pub scopes : List Action

pub record ResourceRef : Type 0 where
  pub attempt_id : String
  pub sandbox_id : String
  pub generation : ℕ

-- `==` of the frozen dataclass
unfoldable pub ref_beq : ResourceRef → ResourceRef → Bool
ref_beq a b =
    a.attempt_id == b.attempt_id && a.sandbox_id == b.sandbox_id && a.generation == b.generation

pub ref_beq→eq : (a b : ResourceRef) → ref_beq a b ≡ true → a ≡ b
unfolding ref_beq
ref_beq→eq a b h =
    ground (arith, text_beq→eq a.attempt_id b.attempt_id, text_beq→eq a.sandbox_id b.sandbox_id)

pub ref_beq_refl : (a : ResourceRef) → ref_beq a a ≡ true
unfolding ref_beq
ref_beq_refl a = ground (arith, text_beq_refl a.attempt_id, text_beq_refl a.sandbox_id)

instance abbrev pub ref_eq : Eq ResourceRef
ref_eq = record { beq = ref_beq; beq→eq = ref_beq→eq; beq_refl = ref_beq_refl }

pub record Receipt : Type 0 where
  pub operation_id : String
  pub ref : ResourceRef
  pub state : State
  pub version : ℕ

-- A datetime, in microseconds from the epoch, or one with no offset.
pub data Datetime : Type 0 where
  aware : ℕ → Datetime
  naive : Datetime

-- What the caller's clock gives at its one reading; `none` when it is no callable or raises.
abbrev pub Clock : Type 0
Clock = Option Datetime

pub record Attempt : Type 0 where
  pub ref : ResourceRef
  pub room_id : String
  pub state : State
  pub active_sandbox_id : Option String
  pub active_generation : Option ℕ
  pub candidate_sandbox_id : Option String
  pub candidate_generation : Option ℕ
  pub session_epoch : ℕ
  pub version : ℕ
  pub expires_at : Datetime
  pub provisioning_intent : Bool
  pub reset_intent : Bool
  pub expiry_intent : Bool
  pub destroy_intent : Bool

abbrev pub ref_of : String → Option String → Option ℕ → Option ResourceRef
ref_of a (some s) (some g) = some (record { attempt_id = a; sandbox_id = s; generation = g })
ref_of a _ _ = none

-- `Attempt.active_ref`
unfoldable pub active_ref : Attempt → Option ResourceRef
active_ref a = ref_of a.ref.attempt_id a.active_sandbox_id a.active_generation

-- `Attempt.candidate_ref`
pub candidate_ref : Attempt → Option ResourceRef
candidate_ref a = ref_of a.ref.attempt_id a.candidate_sandbox_id a.candidate_generation

pub record Resource : Type 0 where
  pub ref : ResourceRef
  pub state : State
  pub version : ℕ
  pub container_id : Option String
  pub runtime_operation_id : Option String
  pub expires_at : Datetime
  pub expiry_intent : Bool
  pub destroy_intent : Bool
  pub evidence_digest : Option String
  pub cleanup_evidence_digest : Option String

pub record CleanupTask : Type 0 where
  pub operation_id : String
  pub ref : ResourceRef
  pub state : State
  pub version : ℕ
  pub expiry_intent : Bool
  pub retry_count : ℕ

-- A Python int where the source tests for a negative one.
pub data ℤ : Type 0 where
  pos : ℕ → ℤ
  negsuc : ℕ → ℤ

pub record CapabilityClaims : Type 0 where
  pub jti : String
  pub user_id : String
  pub ref : ResourceRef
  pub session_epoch : ℤ
  pub expires_at : Datetime
  pub scope : String

pub record CapabilityUse : Type 0 where
  pub jti_hash : String
  pub ref : ResourceRef
  pub session_epoch : ℤ
  pub expires_at : Datetime

pub record AttachmentLease : Type 0 where
  pub lease_id : String
  pub ref : ResourceRef
  pub jti_hash : String
  pub gateway_session_hash : String
  pub session_epoch : ℕ
  pub issued_at : Datetime
  pub expires_at : Datetime
  pub consumed_at : Datetime
