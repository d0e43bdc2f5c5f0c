-- ===== src/StateStore/Evolves/Conflicts.antt =====
-- backend.py, create: another request under a key that is in use.
use failroom.Prelude.{ℕ, String, List, some, ◌≡◌, ◌≢◌, ◌∙◌, sym, arith, true, text_beq→eq}
use Prim.Native.String.{◌++◌}
use mathlib.Core.Path.{subst}
use failroom.Prelude.Text.{is_identifier}
use failroom.StateStore.Models.{Code, UserIdentity, Receipt, aware, idempotency_conflict}
use failroom.StateStore.Rows.{OperationRow}
use failroom.StateStore.Tx.{Db, Tx, fail, ok, err, transaction}
use failroom.StateStore.Tx.Rules.{transaction-done}
use failroom.StateStore.Libs.{Libs}
use failroom.StateStore.Sql.{operation_of}
use failroom.StateStore.Common.{replay, identifier, read_clock, timestamp, user}
use failroom.StateStore.Backend.{create}
use failroom.StateStore.Evolves.History.{Request, history, history-Evolves}
use failroom.StateStore.Evolves.Relation.{OperationLe}
use failroom.StateStore.Evolves.Repeated.{fingerprint_of, create-starts, unless_logged-Logged}

user_actor : (i : UserIdentity) (room x : String) → user i room ≡ ok x → x ≡ ("user:" ++ i.user_id)
unfolding user identifier
user_actor i room x h = ground arith

failed : {A : Type 0} (m : Tx A) (s : Db) (e : Code) → m s ≡ fail e → transaction m s ≡ (err e, s)
unfolding transaction
failed m s e h = ground arith

module _ ⦃lib : Libs⦄ where
  conflict_of :
      (key actor fingerprint : String) (o b : OperationRow) (t : Db)
      → is_identifier key ≡ true
      → operation_of t actor key ≡ some b
      → OperationLe o b
      → o.request_hash ≢ fingerprint
      → replay actor key fingerprint t ≡ fail idempotency_conflict
  unfolding replay identifier
  conflict_of key actor fingerprint o b t valid e le other =
      ground (arith, text_beq→eq b.request_hash fingerprint)

  create-refuses :
      (i : UserIdentity) (room key : String) (deadline clock : ℕ) (actor : String) (t : Db)
      → user i room ≡ ok actor
      → is_identifier room ≡ true
      → replay actor key (fingerprint_of room deadline) t ≡ fail idempotency_conflict
      → create i room key (aware deadline) (some (aware clock)) t ≡ fail idempotency_conflict
  unfolding create timestamp read_clock identifier
  create-refuses i room key deadline clock actor t known room_fits h = ground arith

  -- A key under which a request to create has returned is refused to others: a request to create
  -- by the same user under it, for a well-formed room that the user is authorised for and with
  -- another fingerprint, is a conflict and leaves the tables as they are, whatever requests to
  -- either store came in between.
  pub create_conflicts :
      (i : UserIdentity) (room other key actor : String) (deadline clock deadline' later : ℕ)
      (s t : Db) (receipt : Receipt) (rs : List Request)
      → transaction (create i room key (aware deadline) (some (aware clock))) s ≡ (ok receipt, t)
      → user i other ≡ ok actor
      → is_identifier other ≡ true
      → fingerprint_of room deadline ≢ fingerprint_of other deadline'
      → transaction (create i other key (aware deadline') (some (aware later))) (history rs t)
        ≡ (err idempotency_conflict, history rs t)
  create_conflicts i room other key actor deadline clock deadline' later s t receipt rs h known fits
        differ =
      let run = transaction-done _ s t receipt h in
      let (first, first_known, _, k) = create-starts i room key deadline clock s t receipt run in
      let (valid, o, logged, same, _) =
        unless_logged-Logged i room key deadline clock first s t receipt k in
      let (b, f, le) = (history-Evolves rs t).operations first key o logged in
      let one = user_actor i room first first_known ∙ sym (user_actor i other actor known) in
      let refused =
        conflict_of key first (fingerprint_of other deadline') o b (history rs t) valid f le
          (λ e. differ (sym same ∙ e)) in
      failed _ _ _ (
        create-refuses i other key deadline' later actor (history rs t) known fits (
          subst
            (λ (x : String).
              replay x key (fingerprint_of other deadline') (history rs t)
              ≡ fail idempotency_conflict)
            one refused))
