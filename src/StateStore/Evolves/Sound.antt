-- ===== src/StateStore/Evolves/Sound.antt =====
-- schema.py: the attempts and resources of the tables, against the constraints of version 4.
use failroom.Prelude.{ℕ, String, ◌<◌, ◌≡◌, ◌≢◌, ◌⊎◌, some, none, true, arith, text_beq→eq, text_eq}
use failroom.StateStore.Models.{
  State, state_eq, requested, creating, starting, provisioning, resetting, stopping, failed,
  destroyed, state_beq,
}
use failroom.StateStore.Rows.{AttemptRow, ResourceRow, attempt_check, resource_check}
use failroom.StateStore.Tx.{Db}
use failroom.StateStore.Sql.{attempt_of, resource_of}

-- STOPPING, FAILED or DESTROYED
abbrev pub IsEnding : State → Type 0
IsEnding s = (s ≡ stopping) ⊎ (s ≡ failed) ⊎ (s ≡ destroyed)

-- One attempt.
pub record AttemptSound (a : AttemptRow) : Type 0 where
  pub generation : 0 < a.generation
  pub term : a.created_at < a.expires_at
  pub state : (a.state ≢ requested) × (a.state ≢ creating) × (a.state ≢ starting)
  pub active_paired : a.active_sandbox_id ≡ none → a.active_generation ≡ none
  pub active_pairing : a.active_generation ≡ none → a.active_sandbox_id ≡ none
  pub active_positive : (n : ℕ) → a.active_generation ≡ some n → 0 < n
  pub candidate : (id : String) → a.candidate_sandbox_id ≡ some id → id ≡ a.sandbox_id
  pub candidate_generation : (n : ℕ) → a.candidate_generation ≡ some n → n ≡ a.generation
  pub expiry : a.expiry_intent ≡ true → a.destroy_intent ≡ true
  pub reset : a.reset_intent ≡ true → (a.state ≡ resetting) ⊎ IsEnding a.state
  pub destroy : a.destroy_intent ≡ true → IsEnding a.state

-- One resource.
pub record ResourceSound (r : ResourceRow) : Type 0 where
  pub generation : 0 < r.generation
  pub state : (r.state ≢ provisioning) × (r.state ≢ resetting)
  pub expiry : r.expiry_intent ≡ true → r.destroy_intent ≡ true
  pub destroy : r.destroy_intent ≡ true → IsEnding r.state
  pub evidence : r.state ≡ destroyed → r.cleanup_evidence_digest ≢ none

-- Every row by itself, and the rows among one another.
pub record Sound (s : Db) : Type 0 where
  pub attempts : (id : String) (a : AttemptRow) → attempt_of s id ≡ some a → AttemptSound a
  pub resources : (id : String) (r : ResourceRow) → resource_of s id ≡ some r → ResourceSound r
  -- a resource belongs to an attempt
  pub owned :
      (id : String) (r : ResourceRow)
      → resource_of s id ≡ some r
      → (a : AttemptRow) × (attempt_of s r.attempt_id ≡ some a)
  -- no two attempts hold one sandbox
  pub sandboxes :
      (i j : String) (a b : AttemptRow)
      → attempt_of s i ≡ some a
      → attempt_of s j ≡ some b
      → a.sandbox_id ≡ b.sandbox_id
      → a.attempt_id ≡ b.attempt_id
  -- no two resources hold one container
  pub containers :
      (i j c : String) (q r : ResourceRow)
      → resource_of s i ≡ some q
      → resource_of s j ≡ some r
      → q.container_id ≡ some c
      → r.container_id ≡ some c
      → q.sandbox_id ≡ r.sandbox_id

module _ (a : AttemptRow) (h : attempt_check a ≡ true) where
  pub check-AttemptSound : AttemptSound a
  unfolding attempt_check
  check-AttemptSound = record {
    generation = ground arith;
    term = ground arith;
    state = (λ e. ground arith, λ e. ground arith, λ e. ground arith);
    active_paired = λ e. ground arith;
    active_pairing = λ e. ground arith;
    active_positive = λ n e. ground arith;
    candidate = λ id e. ground (arith, text_beq→eq id a.sandbox_id);
    candidate_generation = λ n e. ground arith;
    expiry = λ e. ground arith;
    reset = λ e. ground arith;
    destroy = λ e. ground arith;
  }

module _ (r : ResourceRow) (h : resource_check r ≡ true) where
  pub check-ResourceSound : ResourceSound r
  unfolding resource_check state_beq
  check-ResourceSound = record {
    generation = ground arith;
    state = (λ e. ground arith, λ e. ground arith);
    expiry = λ e. ground arith;
    destroy = λ e. ground arith;
    evidence = λ e. ground arith;
  }
