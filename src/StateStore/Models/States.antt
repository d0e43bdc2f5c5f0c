-- ===== src/StateStore/Models/States.antt =====
-- models.py: the enumerations. `State` has the values of ResourceState and those of the column
-- room_attempts.state (schema.py), which the source keeps as texts.
use failroom.Prelude.{
  ℕ, zero, suc, Bool, true, ◌≡◌, refl, sym, ap, ◌∙◌, String, Eq, nat_beq, nat_beq→eq, nat_beq_refl,
}

pub data Code : Type 0 where
  invalid_request not_authorized stale_binding stale_version idempotency_conflict : Code
  attempt_unavailable invalid_transition resource_exists legacy_runtime_binding : Code
  capability_invalid capability_replay cleanup_unverified invalid_configuration : Code
  store_busy store_failure : Code

pub data Role : Type 0 where
  backend gateway control_plane : Role

pub data Action : Type 0 where
  create inspect transition publish consume attach expire reconcile : Action

pub data State : Type 0 where
  provisioning requested creating starting ready running resolved resetting : State
  stopping failed destroyed : State

-- `Role.value`
unfoldable pub role_value : Role → String
role_value backend = "backend"
role_value gateway = "gateway"
role_value control_plane = "control-plane"

abbrev pub role_index : Role → ℕ
role_index backend = 0
role_index gateway = 1
role_index control_plane = 2

abbrev pub role_at : ℕ → Role
role_at zero = backend
role_at (suc zero) = gateway
role_at _ = control_plane

pub role_at-index : (r : Role) → role_at (role_index r) ≡ r
role_at-index backend = refl
role_at-index gateway = refl
role_at-index control_plane = refl

abbrev pub action_index : Action → ℕ
action_index create = 0
action_index inspect = 1
action_index transition = 2
action_index publish = 3
action_index consume = 4
action_index attach = 5
action_index expire = 6
action_index reconcile = 7

abbrev pub action_at : ℕ → Action
action_at zero = create
action_at (suc zero) = inspect
action_at (suc (suc zero)) = transition
action_at (suc (suc (suc zero))) = publish
action_at (suc (suc (suc (suc zero)))) = consume
action_at (suc (suc (suc (suc (suc zero))))) = attach
action_at (suc (suc (suc (suc (suc (suc zero)))))) = expire
action_at _ = reconcile

pub action_at-index : (a : Action) → action_at (action_index a) ≡ a
action_at-index create = refl
action_at-index inspect = refl
action_at-index transition = refl
action_at-index publish = refl
action_at-index consume = refl
action_at-index attach = refl
action_at-index expire = refl
action_at-index reconcile = refl

abbrev pub state_index : State → ℕ
state_index provisioning = 0
state_index requested = 1
state_index creating = 2
state_index starting = 3
state_index ready = 4
state_index running = 5
state_index resolved = 6
state_index resetting = 7
state_index stopping = 8
state_index failed = 9
state_index destroyed = 10

abbrev pub state_at : ℕ → State
state_at zero = provisioning
state_at (suc zero) = requested
state_at (suc (suc zero)) = creating
state_at (suc (suc (suc zero))) = starting
state_at (suc (suc (suc (suc zero)))) = ready
state_at (suc (suc (suc (suc (suc zero))))) = running
state_at (suc (suc (suc (suc (suc (suc zero)))))) = resolved
state_at (suc (suc (suc (suc (suc (suc (suc zero))))))) = resetting
state_at (suc (suc (suc (suc (suc (suc (suc (suc zero)))))))) = stopping
state_at (suc (suc (suc (suc (suc (suc (suc (suc (suc zero))))))))) = failed
state_at _ = destroyed

pub state_at-index : (s : State) → state_at (state_index s) ≡ s
state_at-index provisioning = refl
state_at-index requested = refl
state_at-index creating = refl
state_at-index starting = refl
state_at-index ready = refl
state_at-index running = refl
state_at-index resolved = refl
state_at-index resetting = refl
state_at-index stopping = refl
state_at-index failed = refl
state_at-index destroyed = refl

-- Equality tests by an index that can be inverted.
module _ {A : Type 0} (index : A → ℕ) (at : ℕ → A) (inverse : (a : A) → at (index a) ≡ a) where
  pub index_beq→eq : (a b : A) → nat_beq (index a) (index b) ≡ true → a ≡ b
  index_beq→eq a b h = sym (inverse a) ∙ ap at (nat_beq→eq (index a) (index b) h) ∙ inverse b

instance abbrev pub role_eq : Eq Role
role_eq = record {
  beq = λ a b. nat_beq (role_index a) (role_index b);
  beq→eq = index_beq→eq role_index role_at role_at-index;
  beq_refl = λ a. nat_beq_refl (role_index a);
}

instance abbrev pub action_eq : Eq Action
action_eq = record {
  beq = λ a b. nat_beq (action_index a) (action_index b);
  beq→eq = index_beq→eq action_index action_at action_at-index;
  beq_refl = λ a. nat_beq_refl (action_index a);
}

unfoldable pub state_beq : State → State → Bool
state_beq a b = nat_beq (state_index a) (state_index b)

pub state_beq→eq : (a b : State) → state_beq a b ≡ true → a ≡ b
unfolding state_beq
state_beq→eq = index_beq→eq state_index state_at state_at-index

pub state_beq_refl : (a : State) → state_beq a a ≡ true
unfolding state_beq
state_beq_refl a = nat_beq_refl (state_index a)

instance abbrev pub state_eq : Eq State
state_eq = record { beq = state_beq; beq→eq = state_beq→eq; beq_refl = state_beq_refl }
