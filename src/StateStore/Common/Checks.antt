-- ===== src/StateStore/Common/Checks.antt =====
-- common.py: the checks of arguments and of rows that were read, as pure functions.
use Prim.Native.String.{◌++◌}
use failroom.Prelude.{
  ℕ, ◌-◌, ◌^◌, String, Bool, true, false, not, ◌&&◌, ◌||◌, Option, none, some, List, [], ◌∷◌, leb,
  ◌==◌, has, text_eq, nat_eq, if◌then◌else◌,
}
use failroom.Prelude.Text.{is_identifier, is_hex_of, is_digest}
use failroom.StateStore.Models.{
  Code, invalid_request, not_authorized, stale_binding, stale_version, idempotency_conflict, Role,
  Action, role_eq, action_eq, role_value, UserIdentity, ServiceIdentity, ResourceRef, Receipt,
  Datetime, aware, naive, Clock, ℤ, pos, negsuc,
}
use failroom.StateStore.Rows.{AttemptRow, ResourceRow, OperationRow}
use failroom.StateStore.Tx.{Result, ok, err}

infixl 5 ◌>>=◌ ◌>>◌
abbrev ◌>>=◌ : {A B : Type 0} → Result A → (A → Result B) → Result B
ok a >>= f = f a
err e >>= f = err e

abbrev ◌>>◌ : {A B : Type 0} → Result A → Result B → Result B
m >> n = m >>= λ _. n

-- `if c: raise StoreError(e)`
abbrev refuse_if : Bool → Code → Result (Unit {0})
refuse_if true e = err e
refuse_if false e = ok tt

unfoldable pub timestamp : Datetime → Result ℕ
timestamp (aware t) = ok t
timestamp naive = err invalid_request

unfoldable pub read_clock : Clock → Result ℕ
unfolding timestamp
read_clock none = err invalid_request
read_clock (some d) = timestamp d

abbrev pub instant : ℕ → Datetime
instant t = aware t

unfoldable pub identifier : String → Result String
identifier s = if is_identifier s then ok s else err invalid_request

-- `runtime_operation_id(value, legacy=…)`
unfoldable pub runtime_operation_id : Bool → Option String → Result (Option String)
runtime_operation_id legacy none = if legacy then ok none else err invalid_request
runtime_operation_id legacy (some s) = if is_hex_of 32 s then ok (some s) else err invalid_request

abbrev pub max_positive : ℕ
max_positive = 2 ^ 63 - 1

unfoldable pub positive : ℕ → ℕ → Result ℕ
positive value maximum = if leb 1 value && leb value maximum then ok value else err invalid_request

unfoldable pub ref_valid : ResourceRef → Result (Unit {0})
ref_valid ref = do
  identifier ref.attempt_id
  identifier ref.sandbox_id
  positive ref.generation max_positive
  ok tt

abbrev pub in_scopes : Action → List Action → Bool
in_scopes a [] = false
in_scopes a (b ∷ bs) = b == a || in_scopes a bs

unfoldable pub service : ServiceIdentity → Role → Action → Result String
service identity role action = do
  refuse_if (not (identity.role == role) || not (in_scopes action identity.scopes)) not_authorized
  id ← identifier identity.service_id
  ok ("service:" ++ role_value role ++ ":" ++ id)

abbrev pub member : String → List String → Bool
member x [] = false
member x (y ∷ ys) = y == x || member x ys

unfoldable pub user : UserIdentity → String → Result String
user identity room_id = do
  refuse_if (not (member room_id identity.authorized_room_ids)) not_authorized
  id ← identifier identity.user_id
  ok ("user:" ++ id)

-- the exact tuple that the attempt is reserved for
unfoldable pub is_current : ResourceRef → AttemptRow → Bool
is_current ref row = row.sandbox_id == ref.sandbox_id && row.generation == ref.generation

unfoldable pub is_active : ResourceRef → AttemptRow → Bool
is_active ref row =
    has row.active_sandbox_id ref.sandbox_id && has row.active_generation ref.generation

-- `owned`, on the row that was read
unfoldable pub owner_check : UserIdentity → Option AttemptRow → Result AttemptRow
owner_check identity none = err not_authorized
owner_check identity (some row) = do
  refuse_if (not (row.user_id == identity.user_id)) not_authorized
  user identity row.room_id
  ok row

-- `binding`, on the row that was read
unfoldable pub binding_check : Bool → ResourceRef → Option AttemptRow → Result AttemptRow
binding_check allow_active ref none = err stale_binding
binding_check allow_active ref (some row) =
    if is_current ref row || allow_active && is_active ref row then ok row else err stale_binding

abbrev pub row_ref : AttemptRow → ResourceRef
row_ref row = record {
  attempt_id = row.attempt_id;
  sandbox_id = row.sandbox_id;
  generation = row.generation;
}

abbrev pub resource_ref : ResourceRow → ResourceRef
resource_ref row = record {
  attempt_id = row.attempt_id;
  sandbox_id = row.sandbox_id;
  generation = row.generation;
}

abbrev pub operation_ref : OperationRow → ResourceRef
operation_ref row = record {
  attempt_id = row.attempt_id;
  sandbox_id = row.sandbox_id;
  generation = row.generation;
}

abbrev pub receipt_of : OperationRow → Receipt
receipt_of row = record {
  operation_id = row.operation_id;
  ref = operation_ref row;
  state = row.result_state;
  version = row.result_version;
}

abbrev pub logged_answer : String → Option OperationRow → Result (Option Receipt)
logged_answer fingerprint none = ok none
logged_answer fingerprint (some row) =
    if row.request_hash == fingerprint then ok (some (receipt_of row)) else err idempotency_conflict

unfoldable pub digest : Option String → Result String
digest none = err invalid_request
digest (some s) = if is_digest s then ok s else err invalid_request

-- A negative version is no version, and another than the row's is stale.
unfoldable pub cas : ℕ → ℤ → Result ℕ
cas current (negsuc v) = err invalid_request
cas current (pos v) = if current == v then ok v else err stale_version

-- `type(value) is not int or value < 0`
unfoldable pub non_negative : ℤ → Result ℕ
non_negative (negsuc v) = err invalid_request
non_negative (pos v) = ok v
