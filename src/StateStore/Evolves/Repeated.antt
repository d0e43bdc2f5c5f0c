-- ===== src/StateStore/Evolves/Repeated.antt =====
-- backend.py, create: a request that is repeated under its idempotency key.
use failroom.Prelude.{
  ℕ, String, List, [], ◌∷◌, Option, none, some, Option-cases, ◌≡◌, ◌⊎◌, inl, inr, refl, arith, true,
  leb, text_beq→eq,
}
use failroom.Prelude.Text.{is_identifier}
use failroom.StateStore.Models.{
  Code, UserIdentity, Receipt, Datetime, Clock, aware, naive, pos, invalid_request, provisioning,
}
use failroom.StateStore.Rows.{OperationRow}
use failroom.StateStore.Tx.{
  Db, Tx, Result, done, ok, err, transaction, raise_if, or_else, ◌>>=◌, ◌>>◌,
}
use failroom.StateStore.Tx.Rules.{transaction-done, bind-done}
use failroom.StateStore.Libs.{Libs, text, int}
use failroom.StateStore.Sql.{operation_of, insert_attempt, uuid4, uuid4_hex}
use failroom.StateStore.Common.{
  finish, replay, identifier, read_clock, receipt_of, request_hash, timestamp, user,
}
use failroom.StateStore.Backend.{create}
use failroom.StateStore.Backend.Live.{new_attempt}
use failroom.StateStore.Evolves.History.{Request, history, history-Evolves}
use failroom.StateStore.Evolves.Log.{answer_of, finish-logged}

Result-cases : {A : Type 0} (r : Result A) → ((a : A) × (r ≡ ok a)) ⊎ ((e : Code) × (r ≡ err e))
Result-cases (ok a) = inl (a, refl)
Result-cases (err e) = inr (e, refl)

returned : {A : Type 0} (m : Tx A) (s t : Db) (a : A) → m s ≡ done a t → transaction m s ≡ (ok a, t)
unfolding transaction
returned m s t a h = ground arith

module _ ⦃lib : Libs⦄ where
  abbrev pub fingerprint_of : String → ℕ → String
  fingerprint_of room deadline = request_hash "create" (text room ∷ int (pos deadline) ∷ [])

  module _ (i : UserIdentity) (room key : String) where
    -- what follows the checks of the arguments
    abbrev pub fresh : ℕ → ℕ → String → Tx Receipt
    fresh deadline clock actor = do
      raise_if (leb deadline clock) invalid_request
      attempt_id ← uuid4
      sandbox_id ← uuid4
      runtime_id ← uuid4_hex
      insert_attempt (new_attempt attempt_id i.user_id room sandbox_id clock deadline runtime_id)
      finish actor "create" key (fingerprint_of room deadline)
          (record { attempt_id = attempt_id; sandbox_id = sandbox_id; generation = 1 }) provisioning
          0 none

    abbrev pub unless_logged : ℕ → ℕ → String → Tx Receipt
    unless_logged deadline clock actor =
        replay actor key (fingerprint_of room deadline) >>= λ previous.
        or_else previous (fresh deadline clock actor)

    pub create-starts :
        (deadline clock : ℕ) (s t : Db) (receipt : Receipt)
        → create i room key (aware deadline) (some (aware clock)) s ≡ done receipt t
        → (actor : String) × (user i room ≡ ok actor)
          × (is_identifier room ≡ true)
          × (unless_logged deadline clock actor s ≡ done receipt t)
    unfolding create timestamp read_clock identifier
    create-starts deadline clock s t receipt h = elim (Result-cases (user i room)) [
      | inl (actor, e) ↦ (actor, e, ground arith, ground arith)
      | inr (x, e) ↦ absurd (ground arith)
    ]

    fresh-logged :
        (deadline clock : ℕ) (actor : String) (s t : Db) (receipt : Receipt)
        → fresh deadline clock actor s ≡ done receipt t
        → (o : OperationRow) × (operation_of t actor key ≡ some o)
          × (o.request_hash ≡ fingerprint_of room deadline)
          × (receipt ≡ receipt_of o)
    fresh-logged deadline clock actor s t receipt h =
        let (_, s1, _, h1) =
          bind-done (raise_if (leb deadline clock) invalid_request) _ s t receipt h in
        let (attempt_id, s2, _, h2) = bind-done uuid4 _ s1 t receipt h1 in
        let (sandbox_id, s3, _, h3) = bind-done uuid4 _ s2 t receipt h2 in
        let (runtime_id, s4, _, h4) = bind-done uuid4_hex _ s3 t receipt h3 in
        let (_, s5, _, h5) =
          bind-done
            (insert_attempt
              (new_attempt attempt_id i.user_id room sandbox_id clock deadline runtime_id))
            _ s4 t receipt h4 in
        let (logged, same) = finish-logged actor "create" key _ _ _ _ _ s5 t receipt h5 in
        (_, logged, refl, same)

    -- What the log holds for the request, under the user's actor.
    abbrev pub Logged : ℕ → String → Receipt → Db → Type 0
    Logged deadline actor receipt t =
        (is_identifier key ≡ true)
        × (o : OperationRow) × (operation_of t actor key ≡ some o)
        × (o.request_hash ≡ fingerprint_of room deadline)
        × (receipt ≡ receipt_of o)

    replay-none :
        (actor fingerprint : String) (s t : Db)
        → replay actor key fingerprint s ≡ done none t
        → (is_identifier key ≡ true) × (t ≡ s)
    unfolding replay identifier
    replay-none actor fingerprint s t h = (ground arith, ground arith)

    replay-some :
        (actor fingerprint : String) (s t : Db) (receipt : Receipt)
        → replay actor key fingerprint s ≡ done (some receipt) t
        → (is_identifier key ≡ true)
          × (o : OperationRow) × (operation_of t actor key ≡ some o)
          × (o.request_hash ≡ fingerprint)
          × (receipt ≡ receipt_of o)
    unfolding replay identifier
    replay-some actor fingerprint s t receipt h = elim (Option-cases (operation_of s actor key)) [
      | inl e ↦ absurd (ground arith)
      | inr (o, e) ↦ (
        ground arith,
        o,
        ground arith,
        ground (arith, text_beq→eq o.request_hash fingerprint),
        ground arith,
      )
    ]

    pub unless_logged-Logged :
        (deadline clock : ℕ) (actor : String) (s t : Db) (receipt : Receipt)
        → unless_logged deadline clock actor s ≡ done receipt t
        → Logged deadline actor receipt t
    unless_logged-Logged deadline clock actor s t receipt h =
        let (previous, s1, e, k) =
          bind-done (replay actor key (fingerprint_of room deadline)) _ s t receipt h in
        go previous s1 e k
      where
        go :
            (previous : Option Receipt) (s1 : Db)
            → replay actor key (fingerprint_of room deadline) s ≡ done previous s1
            → or_else previous (fresh deadline clock actor) s1 ≡ done receipt t
            → Logged deadline actor receipt t
        go none s1 e k =
            let (o, logged, same, answer) = fresh-logged deadline clock actor s1 t receipt k in
            ((replay-none actor _ s s1 e).0, o, logged, same, answer)
        go (some p) s1 e k =
            let (valid, o, logged, same, answer) = replay-some actor _ s s1 p e in
            (valid, o, ground arith, same, ground arith)

    -- the repeated request, where the log answers
    create-answers :
        (deadline clock : ℕ) (actor : String) (t : Db) (again : Receipt)
        → user i room ≡ ok actor
        → is_identifier room ≡ true
        → replay actor key (fingerprint_of room deadline) t ≡ done (some again) t
        → create i room key (aware deadline) (some (aware clock)) t ≡ done again t
    unfolding create timestamp read_clock identifier
    create-answers deadline clock actor t again known room_fits h = ground arith

    dated :
        (e : Datetime) (now : Clock) (s t : Db) (receipt : Receipt)
        → create i room key e now s ≡ done receipt t
        → (deadline : ℕ) × (clock : ℕ) × (e ≡ aware deadline) × (now ≡ some (aware clock))
    unfolding create timestamp read_clock
    dated (aware d) (some (aware c)) s t receipt h = (d, c, refl, refl)
    dated (aware d) (some naive) s t receipt h = absurd (ground arith)
    dated (aware d) none s t receipt h = absurd (ground arith)
    dated naive now s t receipt h = absurd (ground arith)

    repeated :
        (deadline clock later : ℕ) (s t : Db) (receipt : Receipt) (rs : List Request)
        → create i room key (aware deadline) (some (aware clock)) s ≡ done receipt t
        → (again : Receipt) × (create i room key
              (aware deadline)
              (some (aware later))
              (history rs t)
            ≡ done again (history rs t))
          × (again.operation_id ≡ receipt.operation_id)
          × (again.ref ≡ receipt.ref)
    repeated deadline clock later s t receipt rs h =
        let (actor, known, room_fits, k) = create-starts deadline clock s t receipt h in
        let (valid, o, logged, same, answer) =
          unless_logged-Logged deadline clock actor s t receipt k in
        let (b, f, le) = (history-Evolves rs t).operations actor key o logged in
        let (again, replayed, id, bound) =
          answer_of actor key (fingerprint_of room deadline) o b (history rs t) valid f le same in
        (
          again,
          create-answers deadline later actor (history rs t) again known room_fits replayed,
          ground arith,
          ground arith,
        )

    -- A request to create an attempt that has returned, and is repeated by the same user under the
    -- same key, for the same room and deadline and at any reading of the clock, whatever requests
    -- to either store came in between, returns a receipt with the same operation id and the same
    -- reference, and leaves the tables as they are.
    pub create_again :
        (e : Datetime) (now : Clock) (later : ℕ) (s t : Db) (receipt : Receipt) (rs : List Request)
        → transaction (create i room key e now) s ≡ (ok receipt, t)
        → (again : Receipt) × (transaction (create i room key e (some (aware later))) (history rs t)
            ≡ (ok again, history rs t))
          × (again.operation_id ≡ receipt.operation_id)
          × (again.ref ≡ receipt.ref)
    create_again e now later s t receipt rs h =
        let run = transaction-done _ s t receipt h in
        let (deadline, clock, dl, cl) = dated e now s t receipt run in
        let (again, done_, id, bound) =
          repeated deadline clock later s t receipt rs (rw (dl, cl) at run) in
        (again, returned _ _ _ again (rw dl done_), id, bound)
