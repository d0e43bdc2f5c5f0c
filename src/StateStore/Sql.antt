-- ===== src/StateStore/Sql.antt =====
-- The statements that the store executes, over the rows of schema.py. A statement that breaks a
-- constraint or a trigger is an sqlite3.Error, which database.py turns into STORE_FAILURE.
use failroom.Prelude.{
  ℕ, suc, String, Bool, false, not, ◌&&◌, ◌||◌, Option, none, some, ltb, leb, ◌==◌, has, text_eq,
  nat_eq, if◌then◌else◌, length, codes,
}
use failroom.Prelude.Tables.{find, put, insert_row}
use failroom.StateStore.Models.{store_failure}
use failroom.StateStore.Rows.{
  AttemptRow, ResourceRow, CapabilityRow, OperationRow, LeaseRow, is_null, attempt_check,
  attempt_trigger, resource_check, resource_trigger, operation_check,
}
use failroom.StateStore.Tx.{Db, Tx, done, fail}
use failroom.StateStore.Libs.{Libs}

abbrev pub attempt_key : String → AttemptRow → Bool
attempt_key id r = r.attempt_id == id

abbrev pub resource_key : String → ResourceRow → Bool
resource_key id r = r.sandbox_id == id

abbrev pub use_key : String → CapabilityRow → Bool
use_key jti r = r.jti_hash == jti

-- WHERE actor=? AND idempotency_key=?
abbrev pub operation_key : String → String → OperationRow → Bool
operation_key actor key r = r.actor == actor && r.idempotency_key == key

abbrev pub lease_key : String → String → LeaseRow → Bool
lease_key actor key r = r.actor == actor && r.idempotency_key == key

abbrev pub attempt_of : Db → String → Option AttemptRow
attempt_of s id = find (attempt_key id) s.attempts

abbrev pub resource_of : Db → String → Option ResourceRow
resource_of s id = find (resource_key id) s.resources

abbrev pub use_of : Db → String → Option CapabilityRow
use_of s jti = find (use_key jti) s.uses

abbrev pub operation_of : Db → String → String → Option OperationRow
operation_of s actor key = find (operation_key actor key) s.operations

abbrev pub select_attempt : String → Tx (Option AttemptRow)
select_attempt id s = done (attempt_of s id) s

abbrev pub select_resource : String → Tx (Option ResourceRow)
select_resource id s = done (resource_of s id) s

abbrev pub select_operation : String → String → Tx (Option OperationRow)
select_operation actor key s = done (operation_of s actor key) s

abbrev pub select_operation_by : (OperationRow → Bool) → Tx (Option OperationRow)
select_operation_by p s = done (find p s.operations) s

abbrev pub select_use : (CapabilityRow → Bool) → Tx (Option CapabilityRow)
select_use p s = done (find p s.uses) s

abbrev pub select_lease : (LeaseRow → Bool) → Tx (Option LeaseRow)
select_lease p s = done (find p s.leases) s

-- UNIQUE(sandbox_id) of room_attempts, against the other attempts.
unfoldable pub sandbox_taken : Db → AttemptRow → Bool
sandbox_taken s r = not (
    is_null (
      find (λ (o : AttemptRow). o.sandbox_id == r.sandbox_id && not (o.attempt_id == r.attempt_id))
        s.attempts))

-- UNIQUE(container_id) of sandbox_resources, against the other resources.
unfoldable pub container_taken : Db → ResourceRow → Bool
container_taken s r = elim r.container_id [
  | none ↦ false
  | some c ↦ not (
      is_null (
        find (λ (o : ResourceRow). has o.container_id c && not (o.sandbox_id == r.sandbox_id))
          s.resources))
]

unfoldable pub insert_attempt : AttemptRow → Tx (Unit {0})
unfolding sandbox_taken
insert_attempt r s =
    if attempt_check r && is_null (attempt_of s r.attempt_id) && not (sandbox_taken s r)
    then done tt (record s { attempts = insert_row r s.attempts })
    else fail store_failure

abbrev pub write_attempt : AttemptRow → AttemptRow → Tx (Unit {0})
write_attempt old new s =
    if attempt_check new && attempt_trigger old new && not (sandbox_taken s new)
    then done tt (record s { attempts = put (attempt_key old.attempt_id) new s.attempts })
    else fail store_failure

-- UPDATE room_attempts SET … WHERE attempt_id=?
unfoldable pub update_attempt : String → (AttemptRow → AttemptRow) → Tx (Unit {0})
unfolding sandbox_taken
update_attempt id f s = elim (attempt_of s id) [
  | none ↦ done tt s
  | some r ↦ write_attempt r (f r) s
]

abbrev pub resource_fits : Db → ResourceRow → Bool
resource_fits s r = resource_check r && not (container_taken s r)

unfoldable pub insert_resource : ResourceRow → Tx (Unit {0})
unfolding container_taken
insert_resource r s =
    if resource_fits s r
      && is_null (resource_of s r.sandbox_id)
      && not (is_null (attempt_of s r.attempt_id))
    then done tt (record s { resources = insert_row r s.resources })
    else fail store_failure

-- UPDATE sandbox_resources SET … WHERE sandbox_id=?
unfoldable pub update_resource : String → (ResourceRow → ResourceRow) → Tx (Unit {0})
unfolding container_taken
update_resource id f s = elim (resource_of s id) [
  | none ↦ done tt s
  | some r ↦
      if resource_fits s (f r) && resource_trigger r (f r)
      then done tt (record s { resources = put (resource_key r.sandbox_id) (f r) s.resources })
      else fail store_failure
]

unfoldable pub insert_operation : OperationRow → Tx (Unit {0})
insert_operation r s =
    if operation_check r
      && is_null (find (λ (o : OperationRow). o.operation_id == r.operation_id) s.operations)
      && is_null (operation_of s r.actor r.idempotency_key)
      && not (is_null (attempt_of s r.attempt_id))
    then done tt (record s { operations = insert_row r s.operations })
    else fail store_failure

-- UPDATE lifecycle_operations SET … WHERE a unique key
unfoldable pub update_operation :
    (OperationRow → Bool) → (OperationRow → OperationRow) → Tx (Unit {0})
update_operation p f s = elim (find p s.operations) [
  | none ↦ done tt s
  | some o ↦
      if operation_check (f o)
      then done tt (record s { operations = put p (f o) s.operations })
      else fail store_failure
]

abbrev pub has_length : ℕ → String → Bool
has_length n t = length (codes t) == n

unfoldable pub insert_use : CapabilityRow → Tx (Unit {0})
insert_use r s =
    if has_length 64 r.jti_hash
      && ltb r.consumed_at r.expires_at
      && is_null (use_of s r.jti_hash)
      && not (is_null (attempt_of s r.attempt_id))
    then done tt (record s { uses = insert_row r s.uses })
    else fail store_failure

-- The CHECK constraints of terminal_attachment_leases.
unfoldable pub lease_check : LeaseRow → Bool
lease_check r =
    has_length 32 r.lease_id
    && has_length 64 r.request_hash
    && has_length 64 r.gateway_session_hash
    && ltb 0 r.generation
    && ltb r.issued_at r.expires_at
    && leb r.issued_at r.consumed_at
    && leb r.consumed_at r.expires_at

-- Its PRIMARY KEY and UNIQUE constraints: a row that shares a key with the new one.
unfoldable pub lease_clash : LeaseRow → LeaseRow → Bool
lease_clash r o =
    o.lease_id == r.lease_id
    || o.jti_hash == r.jti_hash
    || lease_key r.actor r.idempotency_key o
    || o.gateway_session_hash == r.gateway_session_hash

unfoldable pub insert_lease : LeaseRow → Tx (Unit {0})
unfolding lease_check lease_clash
insert_lease r s =
    if lease_check r
      && is_null (find (lease_clash r) s.leases)
      && not (is_null (use_of s r.jti_hash))
      && not (is_null (attempt_of s r.attempt_id))
      && not (is_null (resource_of s r.sandbox_id))
    then done tt (record s { leases = insert_row r s.leases })
    else fail store_failure

module _ ⦃lib : Libs⦄ where
  unfoldable pub uuid4 : Tx String
  uuid4 s = done (lib.uuid4 s.drawn) (record s { drawn = suc s.drawn })

  unfoldable pub uuid4_hex : Tx String
  uuid4_hex s = done (lib.uuid4_hex s.drawn) (record s { drawn = suc s.drawn })
