-- ===== src/Terminal/Counting.antt =====
-- terminal.py, _SandboxSlots: the table of counts, against the list of slots that are held.
use failroom.Prelude.{
  refl, sym, ap, ℕ, zero, suc, ◌+◌, ◌≤◌, ◌≡◌, List, [], ◌∷◌, ◌++◌, Bool, true, false, Option, none,
  some, leb, ◌==◌, if◌then◌else◌, length, arith,
}
use failroom.StateStore.Models.{ResourceRef, ref_eq, ref_beq→eq, ref_beq_refl}
use failroom.Terminal.Slots.{
  Slot, Slots, Event, acquires, releases, no_slots, held_of, acquire, release, release_slot,
  slot_at, mark_released, active, step, run,
}

-- A reference that keeps no counts: it looks at the slots themselves.
unfoldable pub reference_step : ℕ → Event → List Slot → Option ℕ × List Slot
reference_step limit (acquires ref) given =
    if leb limit (active ref given)
    then (none, given)
    else (some (length given), given ++ record { ref = ref; released = false } ∷ [])
reference_step limit (releases k) given = (none, mark_released given k)

unfoldable pub reference_run : ℕ → List Event → List Slot → List (Option ℕ) × List Slot
reference_run limit [] given = ([], given)
reference_run limit (e ∷ es) given =
    let (answer, given') = reference_step limit e given in
    let (answers, last) = reference_run limit es given' in (answer ∷ answers, last)

abbrev pub Counts : Slots → Type 0
Counts s = (ref : ResourceRef) → held_of s ref ≡ active ref s.given

pub active-append :
    (ref : ResourceRef) (xs ys : List Slot) → active ref (xs ++ ys) ≡ active ref xs + active ref ys
active-append ref [] ys = omega arith
active-append ref (x ∷ xs) ys = omega (arith, active-append ref xs ys)

abbrev pub one : Bool → ℕ
one b = if b then 1 else 0

pub active-mark_released :
    (ref : ResourceRef) (xs : List Slot) (k : ℕ) (x : Slot)
    → slot_at xs k ≡ some x
    → x.released ≡ false
    → active ref xs ≡ active ref (mark_released xs k) + one (x.ref == ref)
active-mark_released ref [] k x h r = ground arith
active-mark_released ref (y ∷ ys) zero x h r = ground arith
active-mark_released ref (y ∷ ys) (suc k) x h r =
    ground (arith, active-mark_released ref ys k x h r)

-- Marking a slot again, or no slot, changes nothing.
mark_released_again :
    (xs : List Slot) (k : ℕ) (x : Slot)
    → slot_at xs k ≡ some x
    → x.released ≡ true
    → mark_released xs k ≡ xs
mark_released_again [] k x h r = refl
mark_released_again (y ∷ ys) zero x h r = ground arith
mark_released_again (y ∷ ys) (suc k) x h r = ap (λ t. y ∷ t) (mark_released_again ys k x h r)

mark_released-none : (xs : List Slot) (k : ℕ) → slot_at xs k ≡ none → mark_released xs k ≡ xs
mark_released-none [] k h = refl
mark_released-none (y ∷ ys) zero h = ground arith
mark_released-none (y ∷ ys) (suc k) h = ap (λ t. y ∷ t) (mark_released-none ys k h)

same_count : (held : ResourceRef → Option ℕ) (a b : ResourceRef) → a == b ≡ true → held a ≡ held b
same_count held a b h = ap held (ref_beq→eq a b h)

active_positive :
    (xs : List Slot) (k : ℕ) (x : Slot)
    → slot_at xs k ≡ some x
    → x.released ≡ false
    → 1 ≤ active x.ref xs
active_positive xs k x h r =
    omega (arith, active-mark_released x.ref xs k x h r, ap one (ref_beq_refl x.ref))

acquire-Counts :
    (limit : ℕ) (ref : ResourceRef) (s : Slots) → Counts s → Counts (acquire limit ref s).1
unfolding acquire
acquire-Counts limit ref s c other = ground (
  arith,
  c other,
  c ref,
  same_count s.held ref other,
  active-append other s.given (record { ref = ref; released = false } ∷ []),
)

release_slot-Counts :
    (k : ℕ) (o : Option Slot) (s : Slots)
    → slot_at s.given k ≡ o
    → Counts s
    → Counts (release_slot k o s)
release_slot-Counts k none s e c other = c other
release_slot-Counts k (some x) s e c other = ground (
  arith,
  c other,
  c x.ref,
  same_count s.held x.ref other,
  active-mark_released other s.given k x,
  active_positive s.given k x,
)

step-Counts : (limit : ℕ) (e : Event) (s : Slots) → Counts s → Counts (step limit e s).1
unfolding step release
step-Counts limit (acquires ref) s c = acquire-Counts limit ref s c
step-Counts limit (releases k) s c = release_slot-Counts k (slot_at s.given k) s refl c

release_slot-given :
    (k : ℕ) (o : Option Slot) (s : Slots)
    → slot_at s.given k ≡ o
    → (release_slot k o s).given ≡ mark_released s.given k
release_slot-given k none s e = sym (mark_released-none s.given k e)
release_slot-given k (some x) s e = ground (arith, mark_released_again s.given k x e)

-- One step of the table answers as the reference does, and leaves the same slots.
step-reference :
    (limit : ℕ) (e : Event) (s : Slots)
    → Counts s
    → ((step limit e s).0 ≡ (reference_step limit e s.given).0)
      × ((step limit e s).1.given ≡ (reference_step limit e s.given).1)
unfolding step reference_step acquire release
step-reference limit (acquires ref) s c = (ground (arith, c ref), ground (arith, c ref))
step-reference limit (releases k) s c = (refl, release_slot-given k (slot_at s.given k) s refl)

run-reference_from :
    (limit : ℕ) (es : List Event) (s : Slots)
    → Counts s
    → ((run limit es s).0 ≡ (reference_run limit es s.given).0)
      × ((run limit es s).1.given ≡ (reference_run limit es s.given).1)
unfolding run reference_run
run-reference_from limit [] s c = (refl, refl)
run-reference_from limit (e ∷ es) s c =
    let (same, left) = step-reference limit e s c in
    let (answers, last) =
      run-reference_from limit es (step limit e s).1 (step-Counts limit e s c) in
    (cc, cc)

-- Whatever the order in which places are taken and given back, repeated releases included, the
-- table of counts answers each request as a look at the unreleased holders does.
pub run-reference :
    (limit : ℕ) (es : List Event) → (run limit es no_slots).0 ≡ (reference_run limit es []).0
run-reference limit es = (run-reference_from limit es no_slots (λ ref. refl)).0

active-mark_released_le :
    (ref : ResourceRef) (xs : List Slot) (k : ℕ) → active ref (mark_released xs k) ≤ active ref xs
active-mark_released_le ref [] k = omega arith
active-mark_released_le ref (x ∷ xs) zero = ground arith
active-mark_released_le ref (x ∷ xs) (suc k) = ground (arith, active-mark_released_le ref xs k)

same_active : (xs : List Slot) (a b : ResourceRef) → a == b ≡ true → active a xs ≡ active b xs
same_active xs a b h = ap (λ r. active r xs) (ref_beq→eq a b h)

reference_step-le :
    (limit : ℕ) (e : Event) (xs : List Slot) (ref : ResourceRef)
    → active ref xs ≤ limit
    → active ref (reference_step limit e xs).1 ≤ limit
unfolding reference_step
reference_step-le limit (acquires r) xs ref h =
    ground (
      arith,
      same_active xs r ref,
      active-append ref xs (record { ref = r; released = false } ∷ []),
    )
reference_step-le limit (releases k) xs ref h = omega (arith, active-mark_released_le ref xs k)

reference_run-le :
    (limit : ℕ) (es : List Event) (xs : List Slot) (ref : ResourceRef)
    → active ref xs ≤ limit
    → active ref (reference_run limit es xs).1 ≤ limit
unfolding reference_run
reference_run-le limit [] xs ref h = h
reference_run-le limit (e ∷ es) xs ref h =
    reference_run-le limit es (reference_step limit e xs).1 ref (reference_step-le limit e xs ref h)

-- No sandbox generation ever has more unreleased holders than the limit.
pub run-limit :
    (limit : ℕ) (es : List Event) (ref : ResourceRef)
    → active ref (run limit es no_slots).1.given ≤ limit
run-limit limit es ref =
    rw ((run-reference_from limit es no_slots (λ r. refl)).1)
      (reference_run-le limit es [] ref (omega arith))
