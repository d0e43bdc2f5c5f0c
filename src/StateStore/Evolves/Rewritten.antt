-- ===== src/StateStore/Evolves/Rewritten.antt =====
-- Tables with new rows, against Sound.
use failroom.Prelude.{
  String, ◌≡◌, ◌⊎◌, inl, inr, some, true, false, arith, ◌∙◌, sym, text_beq→eq, text_beq_refl,
  text_eq, List, ◌==◌, not, ◌&&◌, ap, has,
}
use mathlib.Core.Path.{subst}
use failroom.Prelude.Tables.{find, find-fails}
use failroom.StateStore.Models.{state_eq}
use failroom.StateStore.Rows.{AttemptRow, ResourceRow, attempt_check, resource_check}
use failroom.StateStore.Tx.{Db}
use failroom.StateStore.Sql.{
  attempt_of, resource_of, attempt_key, resource_key, sandbox_taken, container_taken,
}
use failroom.StateStore.Evolves.Sound.{
  AttemptSound, ResourceSound, Sound, check-AttemptSound, check-ResourceSound,
}

-- a test that does not find a row takes none of the rows that are there
sandbox_apart :
    (s : Db) (r b : AttemptRow) (id : String)
    → sandbox_taken s r ≡ false
    → attempt_of s id ≡ some b
    → b.sandbox_id ≡ r.sandbox_id
    → b.attempt_id ≡ r.attempt_id
unfolding sandbox_taken
sandbox_apart s r b id free e same =
    let test =
      λ (o : AttemptRow). o.sandbox_id == r.sandbox_id && not (o.attempt_id == r.attempt_id) in
    let fails = find-fails test (attempt_key id) s.attempts b (ground arith) e in
    ground (arith, fails, text_beq→eq b.attempt_id r.attempt_id, text_beq_refl r.sandbox_id)

container_apart :
    (s : Db) (r b : ResourceRow) (id c : String)
    → container_taken s r ≡ false
    → resource_of s id ≡ some b
    → r.container_id ≡ some c
    → b.container_id ≡ some c
    → b.sandbox_id ≡ r.sandbox_id
unfolding container_taken
container_apart s r b id c free e here there =
    let test = λ (o : ResourceRow). has o.container_id c && not (o.sandbox_id == r.sandbox_id) in
    let fails = find-fails test (resource_key id) s.resources b (ground arith) e in
    ground (arith, fails, text_beq→eq b.sandbox_id r.sandbox_id, text_beq_refl c)

-- New attempts `xs`, of which each is a written row `a` or stood in the table before.
module _ (s : Db) (a : AttemptRow) (xs : List AttemptRow)
    (old : (id : String) (b : AttemptRow)
      → find (attempt_key id) xs ≡ some b
      → (b ≡ a) ⊎ (attempt_of s id ≡ some b))
    (there : (id : String) (b : AttemptRow)
      → attempt_of s id ≡ some b
      → (b' : AttemptRow) × (find (attempt_key id) xs ≡ some b'))
    (check : attempt_check a ≡ true) (free : sandbox_taken s a ≡ false) (h : Sound s) where
  each_attempt : (id : String) (b : AttemptRow) → find (attempt_key id) xs ≡ some b → AttemptSound b
  each_attempt id b e = elim (old id b e) [
    | inl same ↦ subst AttemptSound (sym same) (check-AttemptSound a check)
    | inr before ↦ h.attempts id b before
  ]

  apart_attempts :
      (i j : String) (b c : AttemptRow)
      → find (attempt_key i) xs ≡ some b
      → find (attempt_key j) xs ≡ some c
      → b.sandbox_id ≡ c.sandbox_id
      → b.attempt_id ≡ c.attempt_id
  apart_attempts i j b c e f same = elim (old i b e) [
    | inl p ↦ elim (old j c f) [
      | inl q ↦ ground arith
      | inr q ↦ let apart = sandbox_apart s a c j free q in ground (arith, apart)
    ]
    | inr p ↦ elim (old j c f) [
      | inl q ↦ let apart = sandbox_apart s a b i free p in ground (arith, apart)
      | inr q ↦ h.sandboxes i j b c p q same
    ]
  ]

  pub Sound-attempts : Sound (record s { attempts = xs })
  Sound-attempts = record {
    attempts = each_attempt;
    resources = h.resources;
    owned = λ id r e. let (b, f) = h.owned id r e in there r.attempt_id b f;
    sandboxes = apart_attempts;
    containers = h.containers;
  }

-- New resources `xs`, of which each is a written row `r` or stood in the table before.
module _ (s : Db) (r : ResourceRow) (xs : List ResourceRow)
    (old : (id : String) (q : ResourceRow)
      → find (resource_key id) xs ≡ some q
      → (q ≡ r) ⊎ (resource_of s id ≡ some q))
    (check : resource_check r ≡ true) (free : container_taken s r ≡ false) (owner : AttemptRow)
    (owns : attempt_of s r.attempt_id ≡ some owner) (h : Sound s) where
  each_resource :
      (id : String) (q : ResourceRow) → find (resource_key id) xs ≡ some q → ResourceSound q
  each_resource id q e = elim (old id q e) [
    | inl same ↦ subst ResourceSound (sym same) (check-ResourceSound r check)
    | inr before ↦ h.resources id q before
  ]

  owned_resource :
      (id : String) (q : ResourceRow)
      → find (resource_key id) xs ≡ some q
      → (a : AttemptRow) × (attempt_of s q.attempt_id ≡ some a)
  owned_resource id q e = elim (old id q e) [
    | inl same ↦ (owner, ap (λ (x : ResourceRow). attempt_of s x.attempt_id) same ∙ owns)
    | inr before ↦ h.owned id q before
  ]

  apart_resources :
      (i j c : String) (p q : ResourceRow)
      → find (resource_key i) xs ≡ some p
      → find (resource_key j) xs ≡ some q
      → p.container_id ≡ some c
      → q.container_id ≡ some c
      → p.sandbox_id ≡ q.sandbox_id
  apart_resources i j c p q e f here there = elim (old i p e) [
    | inl x ↦ elim (old j q f) [
      | inl y ↦ ground arith
      | inr y ↦ let apart = container_apart s r q j c free y in ground (arith, apart)
    ]
    | inr x ↦ elim (old j q f) [
      | inl y ↦ let apart = container_apart s r p i c free x in ground (arith, apart)
      | inr y ↦ h.containers i j c p q x y here there
    ]
  ]

  pub Sound-resources : Sound (record s { resources = xs })
  Sound-resources = record {
    attempts = h.attempts;
    resources = each_resource;
    owned = owned_resource;
    sandboxes = h.sandboxes;
    containers = apart_resources;
  }

-- the constraints read only the attempts and the resources
pub Sound-others :
    (s t : Db) → t.attempts ≡ s.attempts → t.resources ≡ s.resources → Sound s → Sound t
Sound-others s t p q h = record {
  attempts = λ id a e. h.attempts id a (ap (find (attempt_key id)) (sym p) ∙ e);
  resources = λ id r e. h.resources id r (ap (find (resource_key id)) (sym q) ∙ e);
  owned = λ id r e.
      let (a, f) = h.owned id r (ap (find (resource_key id)) (sym q) ∙ e) in
      (a, ap (find (attempt_key r.attempt_id)) p ∙ f);
  sandboxes = λ i j a b e f.
      h.sandboxes i j a b (ap (find (attempt_key i)) (sym p) ∙ e)
        (ap (find (attempt_key j)) (sym p) ∙ f);
  containers = λ i j c a b e f.
      h.containers i j c a b (ap (find (resource_key i)) (sym q) ∙ e)
        (ap (find (resource_key j)) (sym q) ∙ f);
}
