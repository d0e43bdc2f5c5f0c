-- ===== src/StateStore/Evolves/Statements.antt =====
-- schema.py and the statements of the store: rows that are added or replaced, against Relation.
use failroom.Prelude.{◌≡◌, String, Bool, some, text_eq, ◌==◌, ap, ℕ}
use failroom.Prelude.Tables.{find, put, insert_row, find-put_later, find-insert_row}
use failroom.StateStore.Rows.{AttemptRow, ResourceRow, CapabilityRow, OperationRow, LeaseRow}
use failroom.StateStore.Tx.{Db}
use failroom.StateStore.Sql.{attempt_of, resource_of, attempt_key, resource_key, operation_key}
use failroom.StateStore.Evolves.Relation.{
  AttemptLe, ResourceLe, OperationLe, AttemptLe-refl, ResourceLe-refl, OperationLe-refl, Evolves,
  Evolves-refl,
}

pub Evolves-insert_attempt :
    (s : Db) (r : AttemptRow) → Evolves s (record s { attempts = insert_row r s.attempts })
Evolves-insert_attempt s r = record {
  attempts = λ id a h. (a, find-insert_row (attempt_key id) r s.attempts a h, AttemptLe-refl a);
  resources = (Evolves-refl s).resources;
  operations = (Evolves-refl s).operations;
  uses = (Evolves-refl s).uses;
  leases = (Evolves-refl s).leases;
}

pub Evolves-insert_resource :
    (s : Db) (r : ResourceRow) → Evolves s (record s { resources = insert_row r s.resources })
Evolves-insert_resource s r = record {
  attempts = (Evolves-refl s).attempts;
  resources = λ id a h. (a, find-insert_row (resource_key id) r s.resources a h, ResourceLe-refl a);
  operations = (Evolves-refl s).operations;
  uses = (Evolves-refl s).uses;
  leases = (Evolves-refl s).leases;
}

pub Evolves-insert_operation :
    (s : Db) (r : OperationRow) → Evolves s (record s { operations = insert_row r s.operations })
Evolves-insert_operation s r = record {
  attempts = (Evolves-refl s).attempts;
  resources = (Evolves-refl s).resources;
  operations = λ actor key a h.
      (a, find-insert_row (operation_key actor key) r s.operations a h, OperationLe-refl a);
  uses = (Evolves-refl s).uses;
  leases = (Evolves-refl s).leases;
}

pub Evolves-insert_use :
    (s : Db) (r : CapabilityRow) → Evolves s (record s { uses = insert_row r s.uses })
Evolves-insert_use s r = record {
  attempts = (Evolves-refl s).attempts;
  resources = (Evolves-refl s).resources;
  operations = (Evolves-refl s).operations;
  uses = λ p u h. find-insert_row p r s.uses u h;
  leases = (Evolves-refl s).leases;
}

pub Evolves-insert_lease :
    (s : Db) (r : LeaseRow) → Evolves s (record s { leases = insert_row r s.leases })
Evolves-insert_lease s r = record {
  attempts = (Evolves-refl s).attempts;
  resources = (Evolves-refl s).resources;
  operations = (Evolves-refl s).operations;
  uses = (Evolves-refl s).uses;
  leases = λ p l h. find-insert_row p r s.leases l h;
}

pub Evolves-put_attempt :
    (s : Db) (id : String) (old new : AttemptRow)
    → attempt_of s id ≡ some old
    → AttemptLe old new
    → Evolves s (record s { attempts = put (attempt_key id) new s.attempts })
Evolves-put_attempt s id old new h le = record {
  attempts = λ id' a.
      find-put_later AttemptLe AttemptLe-refl (attempt_key id) (attempt_key id') new s.attempts old
        a h (ap (λ i. i == id') le.id) le;
  resources = (Evolves-refl s).resources;
  operations = (Evolves-refl s).operations;
  uses = (Evolves-refl s).uses;
  leases = (Evolves-refl s).leases;
}

pub Evolves-put_resource :
    (s : Db) (id : String) (old new : ResourceRow)
    → resource_of s id ≡ some old
    → ResourceLe old new
    → Evolves s (record s { resources = put (resource_key id) new s.resources })
Evolves-put_resource s id old new h le = record {
  attempts = (Evolves-refl s).attempts;
  resources = λ id' a.
      find-put_later ResourceLe ResourceLe-refl (resource_key id) (resource_key id') new s.resources
        old a h (ap (λ i. i == id') le.id) le;
  operations = (Evolves-refl s).operations;
  uses = (Evolves-refl s).uses;
  leases = (Evolves-refl s).leases;
}

pub Evolves-put_operation :
    (s : Db) (p : OperationRow → Bool) (old new : OperationRow)
    → find p s.operations ≡ some old
    → OperationLe old new
    → Evolves s (record s { operations = put p new s.operations })
Evolves-put_operation s p old new h le = record {
  attempts = (Evolves-refl s).attempts;
  resources = (Evolves-refl s).resources;
  operations = λ actor key a.
      find-put_later OperationLe OperationLe-refl p (operation_key actor key) new s.operations old a
        h (rw (le.actor, le.key)) le;
  uses = (Evolves-refl s).uses;
  leases = (Evolves-refl s).leases;
}

pub Evolves-draw : (s : Db) (n : ℕ) → Evolves s (record s { drawn = n })
Evolves-draw s n = record {
  attempts = (Evolves-refl s).attempts;
  resources = (Evolves-refl s).resources;
  operations = (Evolves-refl s).operations;
  uses = (Evolves-refl s).uses;
  leases = (Evolves-refl s).leases;
}
