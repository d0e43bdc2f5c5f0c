-- ===== src/Terminal/Attach.antt =====
-- terminal.py, ControlPlaneTerminalService: a terminal for the holder of an attachment lease.
use Prim.Native.String.{String}
use failroom.Prelude.{
  ℕ, Bool, true, false, not, ◌||◌, ◌==◌, Option, none, some, leb, text_beq, if◌then◌else◌,
}
use failroom.Prelude.Answers.{Answer, returns, raises, ◌>>=◌, ◌>>◌, raise_when}
use failroom.StateStore.Models.{
  ServiceIdentity, Resource, AttachmentLease, Datetime, aware, naive, State, state_eq, ready,
  running, ref_eq,
}
use failroom.StateStore.Tx.{Db, Result, ok, err, transaction}
use failroom.StateStore.Libs.{Libs}
use failroom.StateStore.ControlPlane
use failroom.Terminal.Slots.{Slots, acquire, release}

-- the codes of TerminalError that the service raises once it is set up
pub data TerminalCode : Type 0 where
  attachment_denied limit_reached pty_unavailable : TerminalCode

-- `a <= b` of two datetimes; one without an offset is a TypeError
abbrev pub not_after : Datetime → Datetime → Answer TerminalCode Bool
not_after (aware a) (aware b) = returns (leb a b)
not_after (aware a) naive = raises attachment_denied
not_after naive b = raises attachment_denied

-- `type(resource.container_id) is not str or not resource.container_id`, and else the identifier
abbrev pub container_of : Option String → Answer TerminalCode String
container_of none = raises attachment_denied
container_of (some id) = if text_beq id "" then raises attachment_denied else returns id

abbrev pub can_attach : State → Bool
can_attach s = s == ready || s == running

abbrev pub inspected : Result Resource → Answer TerminalCode Resource
inspected (ok r) = returns r
inspected (err e) = raises attachment_denied

-- the tests of the resource
unfoldable pub container : AttachmentLease → Datetime → Resource → Answer TerminalCode String
container lease current r = do
  raise_when (not (r.ref == lease.ref)) attachment_denied
  over ← not_after r.expires_at current
  raise_when over attachment_denied
  raise_when (not (can_attach r.state) || r.expiry_intent || r.destroy_intent) attachment_denied
  container_of r.container_id

module _ ⦃lib : Libs⦄ (identity : ServiceIdentity) where
  -- the first `try` of `attach`, at one reading of the clock
  unfoldable pub authorize : AttachmentLease → Datetime → Db → Answer TerminalCode String
  authorize lease current s = do
    over ← not_after lease.expires_at current
    raise_when over attachment_denied
    r ← inspected (transaction (ControlPlane.inspect identity lease.ref) s).0
    container lease current r

  -- `self._runtime.open(…)`, which the slot is given back for if it raises
  abbrev pub opened : Bool → ℕ → Slots → Answer TerminalCode ℕ × Slots
  opened true k slots = (returns k, slots)
  opened false k slots = (raises pty_unavailable, release k slots)

  abbrev pub with_slot : Bool → Option ℕ × Slots → Answer TerminalCode ℕ × Slots
  with_slot opens (none, slots) = (raises limit_reached, slots)
  with_slot opens (some k, slots) = opened opens k slots

  abbrev pub attach_to :
      (String → Bool)
      → ℕ
      → AttachmentLease
      → Slots
      → Answer TerminalCode String
      → Answer TerminalCode ℕ × Slots
  attach_to opens limit lease slots (raises e) = (raises e, slots)
  attach_to opens limit lease slots (returns id) =
      with_slot (opens id) (acquire limit lease.ref slots)

  -- `attach`: the session is known by its slot. `opens` is the runtime: whether it opens a PTY of
  -- the size that was asked for in the container.
  unfoldable pub attach :
      (String → Bool) → ℕ → AttachmentLease → Datetime → Db → Slots → Answer TerminalCode ℕ × Slots
  attach opens limit lease current s slots =
      attach_to opens limit lease slots (authorize lease current s)

-- `admit`
unfoldable pub admit : ℕ → AttachmentLease → Slots → Option ℕ × Slots
admit limit lease slots = acquire limit lease.ref slots
