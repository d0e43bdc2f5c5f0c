-- ===== src/Terminal/Attached.antt =====
-- terminal.py, ControlPlaneTerminalService.attach: its answers.
use Prim.Native.String.{String}
use failroom.Prelude.{
  ℕ, ◌+◌, ◌≡◌, ◌<◌, refl, ap, Bool, true, false, not, ◌||◌, ◌==◌, List, [], ◌∷◌, ◌++◌, Option, none,
  some, length, arith,
}
use failroom.Prelude.Answers.{Answer, returns, raises, bind-returns, unless-returns}
use failroom.StateStore.Models.{
  ServiceIdentity, ResourceRef, Resource, AttachmentLease, Datetime, aware, naive, state_eq, ref_eq,
  ref_beq→eq,
}
use failroom.StateStore.Tx.{Db, Result, ok, err, transaction}
use failroom.StateStore.Libs.{Libs}
use failroom.StateStore.ControlPlane
use failroom.Terminal.Slots.{Slot, Slots, acquire, release, release_slot, slot_at, active}
use failroom.Terminal.Counting.{active-append, active-mark_released, one}
use failroom.Terminal.Attach.{
  TerminalCode, not_after, container_of, can_attach, inspected, container, authorize, opened,
  with_slot, attach_to, attach,
}

slot_at-append : (xs : List Slot) (x : Slot) → slot_at (xs ++ x ∷ []) (length xs) ≡ some x
slot_at-append [] x = refl
slot_at-append (y ∷ xs) x = slot_at-append xs x

release_slot-active :
    (k : ℕ) (o : Option Slot) (s : Slots) (x : Slot) (r : ResourceRef)
    → slot_at s.given k ≡ o
    → o ≡ some x
    → x.released ≡ false
    → active r (release_slot k o s).given + one (x.ref == r) ≡ active r s.given
release_slot-active k none s x r e h u = ground arith
release_slot-active k (some y) s x r e h u = ground (arith, active-mark_released r s.given k y e)

abbrev new_slot : ResourceRef → Slot
new_slot ref = record { ref = ref; released = false }

acquired :
    (limit : ℕ) (ref : ResourceRef) (k : ℕ) (s : Slots)
    → (acquire limit ref s).0 ≡ some k
    → (k ≡ length s.given) × ((acquire limit ref s).1.given ≡ s.given ++ new_slot ref ∷ [])
unfolding acquire
acquired limit ref k s h = (ground arith, ground arith)

full :
    (limit : ℕ) (ref : ResourceRef) (s : Slots) (r : ResourceRef)
    → (acquire limit ref s).0 ≡ none
    → active r (acquire limit ref s).1.given ≡ active r s.given
unfolding acquire
full limit ref s r h = ground arith

-- A place that is taken and given back at once leaves no holder behind.
released-active :
    (limit : ℕ) (ref : ResourceRef) (k : ℕ) (s t : Slots) (r : ResourceRef)
    → k ≡ length s.given
    → t.given ≡ s.given ++ new_slot ref ∷ []
    → active r (release k t).given ≡ active r s.given
unfolding release
released-active limit ref k s t r e g =
    let at = slot_at-append s.given (new_slot ref) in
    let found : slot_at t.given k ≡ some (new_slot ref) = cc in
    let grown = active-append r s.given (new_slot ref ∷ []) in
    let same : active r t.given ≡ active r (s.given ++ new_slot ref ∷ []) =
      ap (λ xs. active r xs) g in
    let back = release_slot-active k (slot_at t.given k) t (new_slot ref) r refl found refl in
    omega (arith, grown, same, back)

-- what an attachment has seen of the lease and of the sandbox
pub record Current ⦃lib : Libs⦄ (identity : ServiceIdentity) (lease : AttachmentLease)
    (current : Datetime) (s : Db) (id : String) : Type 0 where
  pub instant : ℕ
  pub lease_end : ℕ
  pub sandbox_end : ℕ
  pub resource : Resource
  pub read : current ≡ aware instant
  pub inspected : (transaction (ControlPlane.inspect identity lease.ref) s).0 ≡ ok resource
  pub same : resource.ref ≡ lease.ref
  pub lease_ends : lease.expires_at ≡ aware lease_end
  pub lease_alive : instant < lease_end
  pub sandbox_ends : resource.expires_at ≡ aware sandbox_end
  pub sandbox_alive : instant < sandbox_end
  pub state : can_attach resource.state ≡ true
  pub kept : (resource.expiry_intent ≡ false) × (resource.destroy_intent ≡ false)
  pub container : resource.container_id ≡ some id

abbrev Alive : Datetime → Datetime → Type 0
Alive a b = (i : ℕ) × (j : ℕ) × (b ≡ aware i) × (a ≡ aware j) × (i < j)

not_after-Alive : (a b : Datetime) (x : Bool) → not_after a b ≡ returns x → x ≡ false → Alive a b
not_after-Alive naive b x h f = ground arith
not_after-Alive (aware t) naive x h f = ground arith
not_after-Alive (aware t) (aware u) x h f = (u, t, refl, refl, ground arith)

container_of-some : (o : Option String) (id : String) → container_of o ≡ returns id → o ≡ some id
container_of-some none id h = ground arith
container_of-some (some x) id h = ground arith

inspected-ok : (r : Result Resource) (x : Resource) → inspected r ≡ returns x → r ≡ ok x
inspected-ok (ok y) x h = ground arith
inspected-ok (err e) x h = ground arith

module _ ⦃lib : Libs⦄ (identity : ServiceIdentity) where
  authorize-Current :
      (lease : AttachmentLease) (current : Datetime) (s : Db) (id : String)
      → authorize identity lease current s ≡ returns id
      → Current identity lease current s id
  unfolding authorize container
  authorize-Current lease current s id h0 =
      let (over, read, h1) = bind-returns (not_after lease.expires_at current) _ id h0 in
      let (in_time, h2) = unless-returns over _ _ id h1 in
      let (i, j, now, ends, alive) = not_after-Alive lease.expires_at current over read in_time in
      let (r, seen, h3) =
        bind-returns (inspected (transaction (ControlPlane.inspect identity lease.ref) s).0) _ id
          h2 in
      let (same, h4) = unless-returns (not (r.ref == lease.ref)) _ _ id h3 in
      let (over', read', h5) = bind-returns (not_after r.expires_at current) _ id h4 in
      let (in_time', h6) = unless-returns over' _ _ id h5 in
      let (i', j', now', ends', alive') =
        not_after-Alive r.expires_at current over' read' in_time' in
      let (fit, h7) =
        unless-returns (not (can_attach r.state) || r.expiry_intent || r.destroy_intent) _ _ id
          h6 in
      record {
        instant = i;
        lease_end = j;
        sandbox_end = j';
        resource = r;
        read = now;
        inspected = inspected-ok (transaction (ControlPlane.inspect identity lease.ref) s).0 r seen;
        same = ref_beq→eq r.ref lease.ref (ground arith);
        lease_ends = ends;
        lease_alive = alive;
        sandbox_ends = ends';
        sandbox_alive = ground arith;
        state = ground arith;
        kept = (ground arith, ground arith);
        container = container_of-some r.container_id id h7;
      }

  attached_from :
      (opens : String → Bool) (limit : ℕ) (lease : AttachmentLease) (slots : Slots)
      (a : Answer TerminalCode String) (k : ℕ)
      → (attach_to identity opens limit lease slots a).0 ≡ returns k
      → (id : String) × (a ≡ returns id) × (opens id ≡ true)
  attached_from opens limit lease slots (raises e) k h = ground arith
  attached_from opens limit lease slots (returns id) k h =
      (id, refl, slot_opens (acquire limit lease.ref slots) h)
    where
      opened_true :
          (b : Bool) (j : ℕ) (t : Slots) → (opened identity b j t).0 ≡ returns k → b ≡ true
      opened_true true j t e = refl
      opened_true false j t e = ground arith

      slot_opens :
          (p : Option ℕ × Slots) → (with_slot identity (opens id) p).0 ≡ returns k → opens id ≡ true
      slot_opens (none, t) e = ground arith
      slot_opens (some j, t) e = opened_true (opens id) j t e

  -- A terminal that is attached opens in the container of the very sandbox that the lease names,
  -- which the control plane's inspection shows READY or RUNNING and neither expired nor to be
  -- destroyed, before the deadlines of the lease and of the sandbox.
  pub attach-Current :
      (opens : String → Bool) (limit : ℕ) (lease : AttachmentLease) (current : Datetime) (s : Db)
      (slots : Slots) (k : ℕ)
      → (attach identity opens limit lease current s slots).0 ≡ returns k
      → (id : String) × Current identity lease current s id × (opens id ≡ true)
  unfolding attach
  attach-Current opens limit lease current s slots k h =
      let (id, authorized, opened_) =
        attached_from opens limit lease slots (authorize identity lease current s) k h in
      (id, authorize-Current lease current s id authorized, opened_)

  -- An attachment that is refused, for whatever reason, leaves every sandbox with as many
  -- unreleased holders as it had.
  pub attach-refused :
      (opens : String → Bool) (limit : ℕ) (lease : AttachmentLease) (current : Datetime) (s : Db)
      (slots : Slots) (e : TerminalCode) (r : ResourceRef)
      → (attach identity opens limit lease current s slots).0 ≡ raises e
      → active r (attach identity opens limit lease current s slots).1.given ≡ active r slots.given
  unfolding attach
  attach-refused opens limit lease current s slots e r h =
      refused (authorize identity lease current s) h
    where
      given_back :
          (b : Bool) (k : ℕ)
          → (acquire limit lease.ref slots).0 ≡ some k
          → (opened identity b k (acquire limit lease.ref slots).1).0 ≡ raises e
          → active r (opened identity b k (acquire limit lease.ref slots).1).1.given
            ≡ active r slots.given
      given_back true k a x = ground arith
      given_back false k a x =
          let (at, grown) = acquired limit lease.ref k slots a in
          released-active limit lease.ref k slots (acquire limit lease.ref slots).1 r at grown

      refused :
          (a : Answer TerminalCode String)
          → (attach_to identity opens limit lease slots a).0 ≡ raises e
          → active r (attach_to identity opens limit lease slots a).1.given ≡ active r slots.given
      refused (raises x) y = refl
      refused (returns id) y = slot (acquire limit lease.ref slots).0 refl y
        where
          slot :
              (o : Option ℕ)
              → (acquire limit lease.ref slots).0 ≡ o
              → (with_slot identity (opens id) (o, (acquire limit lease.ref slots).1)).0 ≡ raises e
              → active r
                  (with_slot identity (opens id) (o, (acquire limit lease.ref slots).1)).1.given
                ≡ active r slots.given
          slot none a z = full limit lease.ref slots r a
          slot (some k) a z = given_back (opens id) k a z
