-- ===== src/StateStore/Rows.antt =====
-- schema.py, version 4: the rows of the five tables, the CHECK constraints of attempts, resources and
-- operations, and the triggers. A column that is 0 or 1 is a Bool, a nullable one an Option.
use failroom.Prelude.{
  ◌≡◌, refl, ℕ, suc, String, Bool, true, false, not, ◌&&◌, ◌||◌, Option, none, some, ltb, leb, Eq,
  ◌==◌, has, text_eq, nat_eq,
}
use failroom.StateStore.Models.{
  State, state_eq, provisioning, requested, creating, starting, ready, running, resolved, resetting,
  stopping, failed, destroyed,
}

pub record AttemptRow : Type 0 where
  pub attempt_id : String
  pub user_id : String
  pub room_id : String
  pub sandbox_id : String
  pub generation : ℕ
  pub active_sandbox_id : Option String
  pub active_generation : Option ℕ
  pub candidate_sandbox_id : Option String
  pub candidate_generation : Option ℕ
  pub state : State
  pub session_epoch : ℕ
  pub version : ℕ
  pub created_at : ℕ
  pub expires_at : ℕ
  pub provisioning_intent : Bool
  pub reset_intent : Bool
  pub expiry_intent : Bool
  pub destroy_intent : Bool
  pub runtime_operation_id : Option String

pub record ResourceRow : Type 0 where
  pub sandbox_id : String
  pub attempt_id : String
  pub generation : ℕ
  pub state : State
  pub version : ℕ
  pub container_id : Option String
  pub runtime_operation_id : Option String
  pub expires_at : ℕ
  pub expiry_intent : Bool
  pub destroy_intent : Bool
  pub evidence_digest : Option String
  pub cleanup_evidence_digest : Option String

pub record CapabilityRow : Type 0 where
  pub jti_hash : String
  pub attempt_id : String
  pub consumed_at : ℕ
  pub expires_at : ℕ

pub data Status : Type 0 where
  succeeded pending retry : Status

pub record OperationRow : Type 0 where
  pub operation_id : String
  pub actor : String
  pub action : String
  pub idempotency_key : String
  pub request_hash : String
  pub attempt_id : String
  pub sandbox_id : String
  pub generation : ℕ
  pub status : Status
  pub result_state : State
  pub result_version : ℕ
  pub retry_count : ℕ
  pub retry_at : ℕ
  pub error_code : Option String

pub record LeaseRow : Type 0 where
  pub lease_id : String
  pub jti_hash : String
  pub actor : String
  pub idempotency_key : String
  pub request_hash : String
  pub attempt_id : String
  pub sandbox_id : String
  pub generation : ℕ
  pub session_epoch : ℕ
  pub gateway_session_hash : String
  pub issued_at : ℕ
  pub expires_at : ℕ
  pub consumed_at : ℕ

abbrev pub is_null {ℓ} : {A : Type ℓ} → Option A → Bool
is_null none = true
is_null (some _) = false

-- Two nullable columns, `a IS b`.
abbrev pub same : {A : Type 0} ⦃e : Eq A⦄ → Option A → Option A → Bool
same none b = is_null b
same (some x) b = has b x

-- `=` of SQL where it is not false: a comparison with NULL is NULL, which neither fails a CHECK nor
-- fires a trigger through NOT.
abbrev pub may_equal : {A : Type 0} ⦃e : Eq A⦄ → Option A → Option A → Bool
may_equal none b = true
may_equal (some a) none = true
may_equal (some a) (some b) = a == b

pub same_refl : {A : Type 0} ⦃e : Eq A⦄ (o : Option A) → same o o ≡ true
same_refl none = refl
same_refl ⦃e⦄ (some x) = e.beq_refl x

-- The states in which an intent to destroy may stand.
abbrev pub ending : State → Bool
ending stopping = true
ending failed = true
ending destroyed = true
ending _ = false

abbrev pub reset_states : State → Bool
reset_states resetting = true
reset_states s = ending s

-- READY, RUNNING, RESOLVED: an attempt in use, from which a reset may start
abbrev pub in_use : State → Bool
in_use ready = true
in_use running = true
in_use resolved = true
in_use _ = false

abbrev pub implies : Bool → Bool → Bool
implies a b = not a || b

-- The states in the CHECK of room_attempts.state and of sandbox_resources.state.
abbrev pub attempt_state : State → Bool
attempt_state requested = false
attempt_state creating = false
attempt_state starting = false
attempt_state _ = true

abbrev pub resource_state : State → Bool
resource_state provisioning = false
resource_state resetting = false
resource_state _ = true

-- CHECK(x IS NULL OR x > 0)
abbrev pub null_or_positive : Option ℕ → Bool
null_or_positive none = true
null_or_positive (some n) = ltb 0 n

-- The CHECK constraints of room_attempts.
unfoldable pub attempt_check : AttemptRow → Bool
attempt_check r =
    ltb 0 r.generation
    && null_or_positive r.active_generation
    && null_or_positive r.candidate_generation
    && attempt_state r.state
    && (is_null r.active_sandbox_id && is_null r.active_generation
        || not (is_null r.active_sandbox_id) && not (is_null r.active_generation))
    && (is_null r.candidate_sandbox_id && is_null r.candidate_generation
        || may_equal r.candidate_sandbox_id (some r.sandbox_id)
          && may_equal r.candidate_generation (some r.generation))
    && ltb r.created_at r.expires_at
    && implies r.expiry_intent r.destroy_intent
    && implies r.reset_intent (reset_states r.state)
    && implies r.destroy_intent (ending r.state)

-- The start of a reset: the one update that may change the sandbox of an attempt.
unfoldable pub reset_begins : AttemptRow → AttemptRow → Bool
reset_begins old new =
    in_use old.state
    && new.state == resetting
    && new.reset_intent
    && new.generation == suc old.generation
    && may_equal new.candidate_sandbox_id (some new.sandbox_id)
    && may_equal new.candidate_generation (some new.generation)
    && may_equal new.active_sandbox_id old.active_sandbox_id
    && may_equal new.active_generation old.active_generation

abbrev pub same_binding : AttemptRow → AttemptRow → Bool
same_binding old new =
    same new.runtime_operation_id old.runtime_operation_id
    && new.sandbox_id == old.sandbox_id
    && new.generation == old.generation

-- What the triggers room_attempts_immutable and attempt_owner_immutable let pass.
unfoldable pub attempt_trigger : AttemptRow → AttemptRow → Bool
unfolding reset_begins
attempt_trigger old new =
    new.expires_at == old.expires_at
    && new.attempt_id == old.attempt_id
    && (same_binding old new || reset_begins old new)
    && implies old.expiry_intent new.expiry_intent
    && implies old.destroy_intent new.destroy_intent
    && implies (old.state == destroyed) (new.state == destroyed)
    && new.user_id == old.user_id
    && new.room_id == old.room_id
    && leb old.session_epoch new.session_epoch

-- The CHECK constraints of sandbox_resources.
unfoldable pub resource_check : ResourceRow → Bool
resource_check r =
    ltb 0 r.generation
    && resource_state r.state
    && implies r.expiry_intent r.destroy_intent
    && implies r.destroy_intent (ending r.state)
    && implies (r.state == destroyed) (not (is_null r.cleanup_evidence_digest))

-- What the trigger sandbox_resources_immutable lets pass.
unfoldable pub resource_trigger : ResourceRow → ResourceRow → Bool
resource_trigger old new =
    new.expires_at == old.expires_at
    && new.attempt_id == old.attempt_id
    && same new.runtime_operation_id old.runtime_operation_id
    && new.sandbox_id == old.sandbox_id
    && new.generation == old.generation
    && implies old.expiry_intent new.expiry_intent
    && implies old.destroy_intent new.destroy_intent
    && implies (old.state == destroyed) (new.state == destroyed)

-- The CHECK constraint of lifecycle_operations.error_code.
unfoldable pub operation_check : OperationRow → Bool
operation_check r = elim r.error_code [
  | none ↦ true
  | some c ↦
      c == "CREATE_FAILED"
      || c == "START_FAILED"
      || c == "RUNTIME_UNAVAILABLE"
      || c == "CLEANUP_INCOMPLETE"
]
