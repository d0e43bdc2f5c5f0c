-- ===== src/StateStore/Evolves/Log.antt =====
-- common.py, finish and replay: the log that answers a repeated request.
use failroom.Prelude.{
  ℕ, suc, String, Option, some, ◌≡◌, ◌≢◌, arith, true, false, text_beq_refl, ◌==◌, text_eq,
}
use failroom.Prelude.Tables.{find-insert_row_new}
use failroom.Prelude.Text.{is_identifier}
use failroom.StateStore.Models.{ResourceRef, Receipt, State}
use failroom.StateStore.Rows.{OperationRow}
use failroom.StateStore.Tx.{Db, done}
use failroom.StateStore.Libs.{Libs}
use failroom.StateStore.Sql.{operation_of, operation_key, insert_operation, uuid4}
use failroom.StateStore.Common.{
  finish, replay, identifier, operation_ref, operation_row, receipt_of,
}
use failroom.StateStore.Evolves.Relation.{OperationLe}

insert_operation-logged :
    (o : OperationRow) (s t : Db)
    → insert_operation o s ≡ done tt t
    → operation_of t o.actor o.idempotency_key ≡ some o
unfolding insert_operation
insert_operation-logged o s t h = ground (
  arith,
  find-insert_row_new (operation_key o.actor o.idempotency_key) o s.operations,
  text_beq_refl o.actor,
  text_beq_refl o.idempotency_key,
)

differs : (x y : String) → (x == y) ≡ false → x ≢ y
differs x y e same = ground (arith, text_beq_refl x)

module _ ⦃lib : Libs⦄ where
  pub finish-logged :
      (actor action key fingerprint : String) (ref : ResourceRef) (state : State) (version : ℕ)
      (code : Option String) (s t : Db) (receipt : Receipt)
      → finish actor action key fingerprint ref state version code s ≡ done receipt t
      → let o =
          operation_row (lib.uuid4 s.drawn) actor action key fingerprint ref state version code in
        (operation_of t actor key ≡ some o) × (receipt ≡ receipt_of o)
  unfolding finish uuid4
  finish-logged actor action key fingerprint ref state version code s t receipt h = ground (
    arith,
    insert_operation-logged
        (operation_row (lib.uuid4 s.drawn) actor action key fingerprint ref state version code)
        (record s { drawn = suc s.drawn }) t,
  )

  -- A request that was logged is answered with its receipt when it is repeated at once, and nothing
  -- else changes.
  pub replay-finish :
      (actor action key fingerprint : String) (ref : ResourceRef) (state : State) (version : ℕ)
      (code : Option String) (s t : Db) (receipt : Receipt)
      → is_identifier key ≡ true
      → finish actor action key fingerprint ref state version code s ≡ done receipt t
      → replay actor key fingerprint t ≡ done (some receipt) t
  unfolding replay identifier
  replay-finish actor action key fingerprint ref state version code s t receipt valid h =
      let (logged, same) =
        finish-logged actor action key fingerprint ref state version code s t receipt h in
      ground (arith, text_beq_refl fingerprint)

  pub answer_of :
      (actor key fingerprint : String) (o b : OperationRow) (t : Db)
      → is_identifier key ≡ true
      → operation_of t actor key ≡ some b
      → OperationLe o b
      → o.request_hash ≡ fingerprint
      → (receipt : Receipt) × (replay actor key fingerprint t ≡ done (some receipt) t)
        × (receipt.operation_id ≡ o.operation_id)
        × (receipt.ref ≡ operation_ref o)
  unfolding replay identifier
  answer_of actor key fingerprint o b t valid e le same =
      (receipt_of b, ground (arith, text_beq_refl fingerprint), ground arith, ground arith)
