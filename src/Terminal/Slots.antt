-- ===== src/Terminal/Slots.antt =====
-- terminal.py, _SandboxSlots and _Slot: counted holders for each exact sandbox generation.
use failroom.Prelude.{
  ℕ, zero, suc, ◌+◌, ◌-◌, List, [], ◌∷◌, ◌++◌, Bool, true, false, Option, none, some, leb, ◌==◌,
  if◌then◌else◌, length,
}
use failroom.StateStore.Models.{ResourceRef, ref_eq}

-- `_Slot`: the sandbox that it holds a place of, and `_released`
pub record Slot : Type 0 where
  pub ref : ResourceRef
  pub released : Bool

-- `_held`, a dictionary, and every slot that was given out, oldest first
pub record Slots : Type 0 where
  pub held : ResourceRef → Option ℕ
  pub given : List Slot

abbrev pub no_slots : Slots
no_slots = record { held = λ ref. none; given = [] }

-- `self._held.get(ref, 0)`
abbrev pub or_zero : Option ℕ → ℕ
or_zero none = 0
or_zero (some n) = n

abbrev pub held_of : Slots → ResourceRef → ℕ
held_of s ref = or_zero (s.held ref)

abbrev pub assign : ResourceRef → Option ℕ → (ResourceRef → Option ℕ) → ResourceRef → Option ℕ
assign ref n held other = if ref == other then n else held other

abbrev pub slot_at : List Slot → ℕ → Option Slot
slot_at [] k = none
slot_at (x ∷ xs) zero = some x
slot_at (x ∷ xs) (suc k) = slot_at xs k

abbrev pub mark_released : List Slot → ℕ → List Slot
mark_released [] k = []
mark_released (x ∷ xs) zero = record x { released = true } ∷ xs
mark_released (x ∷ xs) (suc k) = x ∷ mark_released xs k

-- `acquire`: the index of the slot that is given out, or LIMIT_REACHED
unfoldable pub acquire : ℕ → ResourceRef → Slots → Option ℕ × Slots
acquire limit ref s = if leb limit (held_of s ref) then (none, s) else (
  some (length s.given),
  record {
    held = assign ref (some (held_of s ref + 1)) s.held;
    given = s.given ++ record { ref = ref; released = false } ∷ [];
  },
)

-- `if remaining: … else: del …`
abbrev pub unless_zero : ℕ → Option ℕ
unless_zero zero = none
unless_zero (suc n) = some (suc n)

-- `release` of a slot, which is skipped for one that is marked. A slot whose sandbox has no entry
-- would raise a KeyError, after it is marked.
abbrev pub release_slot : ℕ → Option Slot → Slots → Slots
release_slot k none s = s
release_slot k (some slot) s = if slot.released then s else (record {
  held = elim (s.held slot.ref) [
    | none ↦ s.held
    | some n ↦ assign slot.ref (unless_zero (n - 1)) s.held
  ];
  given = mark_released s.given k;
})

unfoldable pub release : ℕ → Slots → Slots
release k s = release_slot k (slot_at s.given k) s

pub data Event : Type 0 where
  acquires : ResourceRef → Event
  releases : ℕ → Event

-- Threads reach the slots one at a time, under the lock.
unfoldable pub step : ℕ → Event → Slots → Option ℕ × Slots
step limit (acquires ref) s = acquire limit ref s
step limit (releases k) s = (none, release k s)

unfoldable pub run : ℕ → List Event → Slots → List (Option ℕ) × Slots
run limit [] s = ([], s)
run limit (e ∷ es) s =
    let (answer, s') = step limit e s in let (answers, t) = run limit es s' in (answer ∷ answers, t)

-- the holders of a sandbox that have not released
abbrev pub active : ResourceRef → List Slot → ℕ
active ref [] = 0
active ref (x ∷ xs) = (if x.released then 0 else if x.ref == ref then 1 else 0) + active ref xs
