-- ===== src/StateStore/Evolves/Writes.antt =====
-- The INSERT and UPDATE statements of the store, against Steps.
use failroom.Prelude.{
  ◌≡◌, String, Bool, true, false, not, Option, Option-cases, some, none, inl, inr, arith, refl,
  text_eq, text_beq→eq, ◌==◌, if◌then◌else◌, ap, ◌∙◌, ◌&&◌, sym,
}
use mathlib.Core.Path.{subst}
use failroom.Prelude.Tables.{find, put, insert_row, find-test, find-insert_row_inv, find-put_inv}
use failroom.StateStore.Models.{Code}
use failroom.StateStore.Rows.{
  AttemptRow, ResourceRow, CapabilityRow, OperationRow, LeaseRow, attempt_check, attempt_trigger,
  resource_trigger, is_null,
}
use failroom.StateStore.Tx.{Db, done, fail}
use failroom.StateStore.Tx.Rules.{Keeps, After}
use failroom.StateStore.Libs.{Libs}
use failroom.StateStore.Sql.{
  attempt_of, resource_of, attempt_key, resource_key, insert_attempt, update_attempt,
  insert_resource, update_resource, insert_operation, update_operation, insert_use, insert_lease,
  uuid4, uuid4_hex, sandbox_taken, resource_fits,
}
use failroom.StateStore.Evolves.Relation.{
  OperationLe, Evolves, attempt_trigger-AttemptLe, resource_trigger-ResourceLe,
}
use failroom.StateStore.Evolves.Rewritten.{Sound-attempts, Sound-resources, Sound-others}
use failroom.StateStore.Evolves.Steps.{Steps, Steps-refl}
use failroom.StateStore.Evolves.Statements.{
  Evolves-insert_attempt, Evolves-insert_resource, Evolves-insert_operation, Evolves-insert_use,
  Evolves-insert_lease, Evolves-put_attempt, Evolves-put_resource, Evolves-put_operation,
  Evolves-draw,
}

-- an insert or update that its constraints refuse commits nothing
After-if :
    (b : Bool) (s t : Db) (e : Code)
    → (b ≡ true → Steps s t)
    → After Steps s (if b then done tt t else fail e)
After-if true s t e h = h refl
After-if false s t e h = tt

others : {s t : Db} → Evolves s t → t.attempts ≡ s.attempts → t.resources ≡ s.resources → Steps s t
others {s} {t} e p q = record { evolves = e; sound = Sound-others s t p q }

inserted_attempt :
    (s : Db) (r : AttemptRow)
    → (attempt_check r && is_null (attempt_of s r.attempt_id) && not (sandbox_taken s r)) ≡ true
    → Steps s (record s { attempts = insert_row r s.attempts })
inserted_attempt s r passed =
    let e = Evolves-insert_attempt s r in
    record {
      evolves = e;
      sound =
          Sound-attempts s r (insert_row r s.attempts)
            (λ id b. find-insert_row_inv (attempt_key id) r s.attempts b)
            (λ id b f. let (b', g, _) = e.attempts id b f in (b', g)) (ground arith) (ground arith);
    }

written_attempt :
    (s : Db) (r new : AttemptRow)
    → (attempt_check new && attempt_trigger r new && not (sandbox_taken s new)) ≡ true
    → attempt_of s r.attempt_id ≡ some r
    → Steps s (record s { attempts = put (attempt_key r.attempt_id) new s.attempts })
written_attempt s r new passed h =
    let le = attempt_trigger-AttemptLe r new (ground arith) in
    let e = Evolves-put_attempt s r.attempt_id r new h le in
    record {
      evolves = e;
      sound =
          Sound-attempts s new (put (attempt_key r.attempt_id) new s.attempts)
            (λ id b.
              find-put_inv (attempt_key r.attempt_id) (attempt_key id) new s.attempts r b h
                (ap (λ (i : String). i == id) le.id))
            (λ id b f. let (b', g, _) = e.attempts id b f in (b', g)) (ground arith) (ground arith);
    }

inserted_resource :
    (s : Db) (r : ResourceRow)
    → (resource_fits s r
        && is_null (resource_of s r.sandbox_id)
        && not (is_null (attempt_of s r.attempt_id)))
      ≡ true
    → Steps s (record s { resources = insert_row r s.resources })
inserted_resource s r passed = elim (Option-cases (attempt_of s r.attempt_id)) [
  | inl none_there ↦ absurd (ground arith)
  | inr (a, there) ↦ record {
    evolves = Evolves-insert_resource s r;
    sound =
        Sound-resources s r (insert_row r s.resources)
          (λ id q. find-insert_row_inv (resource_key id) r s.resources q) (ground arith)
          (ground arith) a there;
  }
]

written_resource :
    (s : Db) (r new : ResourceRow)
    → (resource_fits s new && resource_trigger r new) ≡ true
    → resource_of s r.sandbox_id ≡ some r
    → Steps s (record s { resources = put (resource_key r.sandbox_id) new s.resources })
written_resource s r new passed h =
    let le = resource_trigger-ResourceLe r new (ground arith) in
    record {
      evolves = Evolves-put_resource s r.sandbox_id r new h le;
      sound = λ sound.
          let (a, there) = sound.owned r.sandbox_id r h in
          Sound-resources s new (put (resource_key r.sandbox_id) new s.resources)
            (λ id q.
              find-put_inv (resource_key r.sandbox_id) (resource_key id) new s.resources r q h
                (ap (λ (i : String). i == id) le.id))
            (ground arith) (ground arith) a (ap (λ (i : String). attempt_of s i) le.attempt ∙ there)
            sound;
    }

pub Keeps-insert_attempt : (r : AttemptRow) → Keeps Steps (insert_attempt r)
unfolding insert_attempt
Keeps-insert_attempt r = record { at = λ s. After-if _ s _ _ (inserted_attempt s r) }

pub Keeps-insert_resource : (r : ResourceRow) → Keeps Steps (insert_resource r)
unfolding insert_resource
Keeps-insert_resource r = record { at = λ s. After-if _ s _ _ (inserted_resource s r) }

pub Keeps-insert_operation : (r : OperationRow) → Keeps Steps (insert_operation r)
unfolding insert_operation
Keeps-insert_operation r = record {
  at = λ s. After-if _ s _ _ (λ _. others (Evolves-insert_operation s r) refl refl);
}

pub Keeps-insert_use : (r : CapabilityRow) → Keeps Steps (insert_use r)
unfolding insert_use
Keeps-insert_use r = record {
  at = λ s. After-if _ s _ _ (λ _. others (Evolves-insert_use s r) refl refl);
}

pub Keeps-insert_lease : (r : LeaseRow) → Keeps Steps (insert_lease r)
unfolding insert_lease
Keeps-insert_lease r = record {
  at = λ s. After-if _ s _ _ (λ _. others (Evolves-insert_lease s r) refl refl);
}

pub attempt_of-id :
    (s : Db) (id : String) (a : AttemptRow) → attempt_of s id ≡ some a → a.attempt_id ≡ id
attempt_of-id s id a h = text_beq→eq _ _ (find-test (attempt_key id) s.attempts a h)

pub resource_of-id :
    (s : Db) (id : String) (a : ResourceRow) → resource_of s id ≡ some a → a.sandbox_id ≡ id
resource_of-id s id a h = text_beq→eq _ _ (find-test (resource_key id) s.resources a h)

attempt_of_self :
    (s : Db) (id : String) (a : AttemptRow)
    → attempt_of s id ≡ some a
    → attempt_of s a.attempt_id ≡ some a
attempt_of_self s id a h = subst (λ i. attempt_of s i ≡ some a) (sym (attempt_of-id s id a h)) h

resource_of_self :
    (s : Db) (id : String) (a : ResourceRow)
    → resource_of s id ≡ some a
    → resource_of s a.sandbox_id ≡ some a
resource_of_self s id a h = subst (λ i. resource_of s i ≡ some a) (sym (resource_of-id s id a h)) h

pub Keeps-update_attempt :
    (id : String) (f : AttemptRow → AttemptRow) → Keeps Steps (update_attempt id f)
unfolding update_attempt
Keeps-update_attempt id f = record { at = λ s. go s (attempt_of s id) refl }
  where
    go :
        (s : Db) (o : Option AttemptRow)
        → attempt_of s id ≡ o
        → After Steps s (update_attempt id f s)
    go s none h = rw (h, update_attempt) (Steps-refl s)
    go s (some r) h =
        rw (h, update_attempt)
          (After-if _ s _ _ λ passed. written_attempt s r (f r) passed (attempt_of_self s id r h))

pub Keeps-update_resource :
    (id : String) (f : ResourceRow → ResourceRow) → Keeps Steps (update_resource id f)
unfolding update_resource
Keeps-update_resource id f = record { at = λ s. go s (resource_of s id) refl }
  where
    go :
        (s : Db) (o : Option ResourceRow)
        → resource_of s id ≡ o
        → After Steps s (update_resource id f s)
    go s none h = rw (h, update_resource) (Steps-refl s)
    go s (some r) h =
        rw (h, update_resource)
          (After-if _ s _ _ λ passed. written_resource s r (f r) passed (resource_of_self s id r h))

pub Keeps-update_operation :
    (p : OperationRow → Bool) (f : OperationRow → OperationRow)
    → ((o : OperationRow) → OperationLe o (f o))
    → Keeps Steps (update_operation p f)
unfolding update_operation
Keeps-update_operation p f le = record { at = λ s. go s (find p s.operations) refl }
  where
    go :
        (s : Db) (o : Option OperationRow)
        → find p s.operations ≡ o
        → After Steps s (update_operation p f s)
    go s none h = rw (h, update_operation) (Steps-refl s)
    go s (some r) h =
        rw (h, update_operation)
          (After-if _ s _ _ (λ _. others (Evolves-put_operation s p r (f r) h (le r)) refl refl))

module _ ⦃lib : Libs⦄ where
  pub Keeps-uuid4 : Keeps Steps uuid4
  unfolding uuid4
  Keeps-uuid4 = record { at = λ s. others (Evolves-draw s _) refl refl }

  pub Keeps-uuid4_hex : Keeps Steps uuid4_hex
  unfolding uuid4_hex
  Keeps-uuid4_hex = record { at = λ s. others (Evolves-draw s _) refl refl }
