-- ===== src/StateStore/ControlPlane/Edges.antt =====
-- control_plane.py, transition: the state, the version and the row that it writes.
use failroom.Prelude.{
  ◌∙◌, ◌⊎◌, inl, inr, refl, sym, ap, Bool, ℕ, ◌+◌, ◌||◌, String, Option, some, none, ◌≡◌, arith,
  true, leb, text_beq→eq, text_beq_refl,
}
use failroom.Prelude.Tables.{find-put_self, find-test}
use failroom.StateStore.Models.{
  ServiceIdentity, ResourceRef, Receipt, State, aware, pos, Role, Action,
}
use failroom.StateStore.Rows.{AttemptRow, ResourceRow, OperationRow, ending}
use failroom.StateStore.Tx.{Db, done, ok, transaction, ◌>>◌}
use failroom.StateStore.Tx.Rules.{transaction-done, bind-done}
use failroom.StateStore.Libs.{Libs}
use failroom.StateStore.Sql.{
  resource_of, resource_key, update_resource, attempt_of, operation_of, update_operation,
  insert_operation, uuid4,
}
use failroom.StateStore.Common.{
  binding, binding_check, cas, finish, service, replay, read_clock, timestamp, request_hash,
  ref_values,
}
use failroom.StateStore.ControlPlane.Base.{next, resource, resource_check, live}
use failroom.StateStore.ControlPlane.Transition.{
  coalesce, destroys, transition, Move, check_arguments, moved, apply_move, write_move,
  settle_cleanup, move_values,
}

update_resource-written :
    (id : String) (f : ResourceRow → ResourceRow) (s t : Db) (r : ResourceRow)
    → ((x : ResourceRow) → (f x).sandbox_id ≡ x.sandbox_id)
    → resource_of s id ≡ some r
    → update_resource id f s ≡ done tt t
    → resource_of t id ≡ some (f r)
unfolding update_resource
update_resource-written id f s t r keeps e h = ground (
  arith,
  keeps r,
  find-put_self (resource_key r.sandbox_id) (f r) s.resources r,
  find-test (resource_key id) s.resources r,
  text_beq→eq r.sandbox_id id,
  text_beq_refl r.sandbox_id,
)

update_operation-resources :
    (p : OperationRow → Bool) (f : OperationRow → OperationRow) (s t : Db)
    → update_operation p f s ≡ done tt t
    → t.resources ≡ s.resources
unfolding update_operation
update_operation-resources p f s t h = ground arith

insert_operation-resources :
    (o : OperationRow) (s t : Db) → insert_operation o s ≡ done tt t → t.resources ≡ s.resources
unfolding insert_operation
insert_operation-resources o s t h = ground arith

settle_cleanup-resources :
    (state : State) (id : String) (v : ℕ) (s t : Db)
    → settle_cleanup state id v s ≡ done tt t
    → t.resources ≡ s.resources
unfolding update_operation
settle_cleanup-resources state id v s t h = ground arith

-- What a transition has checked and written, for the resource `r` that it found.
pub record Moved (m : Move) (clock : ℕ) (ref : ResourceRef) (a : AttemptRow) (r : ResourceRow)
    (receipt : Receipt) (t : Db) : Type 0 where
  pub edge : next r.state m.state ≡ true
  pub version : m.expected_version ≡ pos r.version
  pub receipt_version : receipt.version ≡ r.version + 1
  pub receipt_state : receipt.state ≡ m.state
  pub row : ResourceRow
  pub row_written : resource_of t ref.sandbox_id ≡ some row
  pub row_state : row.state ≡ m.state
  pub row_version : row.version ≡ receipt.version
  pub row_kept :
      (row.sandbox_id ≡ r.sandbox_id)
      × (row.attempt_id ≡ r.attempt_id)
      × (row.generation ≡ r.generation)
      × (row.runtime_operation_id ≡ r.runtime_operation_id)
      × (row.expires_at ≡ r.expires_at)
  pub row_container :
      (row.container_id ≡ m.container_id)
      ⊎ ((m.container_id ≡ none) × (row.container_id ≡ r.container_id))
  pub row_destroy : row.destroy_intent ≡ (r.destroy_intent || ending m.state)
  pub row_expiry :
      row.expiry_intent ≡ (r.expiry_intent || (leb r.expires_at clock || a.expiry_intent))

container_of :
    (new old : Option String) → (coalesce new old ≡ new) ⊎ ((new ≡ none) × (coalesce new old ≡ old))
container_of none old = inr (refl, refl)
container_of (some c) old = inl refl

destroys-ending : (x : State) → destroys x ≡ ending x
destroys-ending x = ground arith

module _ ⦃lib : Libs⦄ where
  finish-receipt :
      (actor action key fingerprint : String) (ref : ResourceRef) (state : State) (version : ℕ)
      (code : Option String) (s t : Db) (receipt : Receipt)
      → finish actor action key fingerprint ref state version code s ≡ done receipt t
      → (t.resources ≡ s.resources) × (receipt.state ≡ state) × (receipt.version ≡ version)
  unfolding finish insert_operation uuid4
  finish-receipt actor action key fingerprint ref state version code s t receipt h = ground arith

  -- the resource that the statements leave, and their receipt
  abbrev Written : ResourceRef → Move → Bool → ResourceRow → ℕ → Receipt → Db → Type 0
  Written ref m expired r version receipt t =
      (resource_of t ref.sandbox_id
        ≡ some (moved m.state m.container_id m.evidence_digest expired r))
      × (receipt.state ≡ m.state)
      × (receipt.version ≡ version + 1)

  write_move-Written :
      (actor key fingerprint : String) (ref : ResourceRef) (m : Move) (expired : Bool) (version : ℕ)
      (r : ResourceRow) (s t : Db) (receipt : Receipt)
      → resource_of s ref.sandbox_id ≡ some r
      → write_move actor key fingerprint ref m expired version s ≡ done receipt t
      → Written ref m expired r version receipt t
  unfolding write_move moved
  write_move-Written actor key fingerprint ref m expired version r s t receipt e h =
      let id = ref.sandbox_id in
      let f = moved m.state m.container_id m.evidence_digest expired in
      let settle = settle_cleanup m.state id (version + 1) in
      let end = finish actor "transition" key fingerprint ref m.state (version + 1) m.error_code in
      let (_, s1, u, h1) = bind-done (update_resource id f) (λ _. settle >> end) s t receipt h in
      let (_, s2, w, h2) = bind-done settle (λ _. end) s1 t receipt h1 in
      let fin = finish-receipt _ _ _ _ ref m.state (version + 1) _ s2 t receipt h2 in
      let same = fin.0 ∙ settle_cleanup-resources _ _ _ s1 s2 w in
      (rw same (update_resource-written id f s s1 r (λ x. moved-id x) e u), fin.1, fin.2)
    where
      moved-id :
          (x : ResourceRow)
          → (moved m.state m.container_id m.evidence_digest expired x).sandbox_id ≡ x.sandbox_id
      moved-id x = ground arith

  apply_move-Written :
      (actor key fingerprint : String) (ref : ResourceRef) (m : Move) (a : AttemptRow)
      (r : ResourceRow) (clock : ℕ) (s t : Db) (receipt : Receipt)
      → resource_of s ref.sandbox_id ≡ some r
      → apply_move actor key fingerprint ref m a r clock s ≡ done receipt t
      → (next r.state m.state ≡ true)
        × (m.expected_version ≡ pos r.version)
        × Written ref m (leb r.expires_at clock || a.expiry_intent) r r.version receipt t
  unfolding apply_move cas
  apply_move-Written actor key fingerprint ref m a r clock s t receipt e h = ground (
    arith,
    write_move-Written actor key fingerprint ref m (leb r.expires_at clock || a.expiry_intent)
        r.version r s t receipt e,
  )

  apply_move-Moved :
      (actor key fingerprint : String) (ref : ResourceRef) (m : Move) (a : AttemptRow)
      (r : ResourceRow) (clock : ℕ) (s t : Db) (receipt : Receipt)
      → resource_of s ref.sandbox_id ≡ some r
      → apply_move actor key fingerprint ref m a r clock s ≡ done receipt t
      → Moved m clock ref a r receipt t
  unfolding moved
  apply_move-Moved actor key fingerprint ref m a r clock s t receipt e h =
      let (edge, version, (written, state, next_version)) =
        apply_move-Written actor key fingerprint ref m a r clock s t receipt e h in
      record {
        edge = edge;
        version = version;
        receipt_version = next_version;
        receipt_state = state;
        row =
            moved m.state m.container_id m.evidence_digest
              (leb r.expires_at clock || a.expiry_intent) r;
        row_written = written;
        row_state = refl;
        row_version = sym next_version;
        row_kept = (refl, refl, refl, refl, refl);
        row_container = container_of m.container_id r.container_id;
        row_destroy = ap (λ b. r.destroy_intent || b) (destroys-ending m.state);
        row_expiry = refl;
      }

  transition-apply_move :
      (i : ServiceIdentity) (ref : ResourceRef) (m : Move) (key actor : String) (clock : ℕ)
      (s t : Db) (receipt : Receipt) (a : AttemptRow) (r : ResourceRow)
      → service i Role.control_plane Action.transition ≡ ok actor
      → attempt_of s ref.attempt_id ≡ some a
      → resource_of s ref.sandbox_id ≡ some r
      → operation_of s actor key ≡ none
      → transition i ref m key (some (aware clock)) s ≡ done receipt t
      → apply_move actor key
          (request_hash "transition" (ref_values ref (move_values m)))
          ref
          m
          a
          r
          clock
          s
        ≡ done receipt t
  unfolding transition check_arguments binding binding_check resource resource_check live replay
      read_clock timestamp
  transition-apply_move i ref m key actor clock s t receipt a r auth att res new h = ground arith

  -- A request to move a resource that returns, and was not logged before, goes along an edge of
  -- `_NEXT` from the version that it names, and leaves the resource in the state asked for, one
  -- version on, with its identity and deadline kept and its intents raised.
  pub transition_moves :
      (i : ServiceIdentity) (ref : ResourceRef) (m : Move) (key actor : String) (clock : ℕ)
      (s t : Db) (receipt : Receipt) (a : AttemptRow) (r : ResourceRow)
      → service i Role.control_plane Action.transition ≡ ok actor
      → attempt_of s ref.attempt_id ≡ some a
      → resource_of s ref.sandbox_id ≡ some r
      → operation_of s actor key ≡ none
      → transaction (transition i ref m key (some (aware clock))) s ≡ (ok receipt, t)
      → Moved m clock ref a r receipt t
  transition_moves i ref m key actor clock s t receipt a r auth att res new h =
      let fingerprint = request_hash "transition" (ref_values ref (move_values m)) in
      apply_move-Moved actor key fingerprint ref m a r clock s t receipt res (
        transition-apply_move i ref m key actor clock s t receipt a r auth att res new
          (transaction-done _ s t receipt h))
