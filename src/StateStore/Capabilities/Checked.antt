-- ===== src/StateStore/Capabilities/Checked.antt =====
-- backend.py, consume: the attempt and the resource of a consumption.
use failroom.Prelude.{
  List, some, ◌≡◌, ◌≢◌, refl, arith, ℕ, ◌<◌, ◌≤◌, ◌⊎◌, true, false, Option-cases, inl, inr,
  text_beq→eq, text_eq,
}
use failroom.StateStore.Models.{
  ServiceIdentity, CapabilityClaims, CapabilityUse, Clock, Datetime, aware, pos, ℤ,
}
use failroom.StateStore.Rows.{AttemptRow, ResourceRow}
use failroom.StateStore.Tx.{Db, done, ok, transaction}
use failroom.StateStore.Tx.Rules.{transaction-done}
use failroom.StateStore.Libs.{Libs}
use failroom.StateStore.Sql.{attempt_of, resource_of}
use failroom.StateStore.Common.{
  binding, binding_check, is_current, read_clock, timestamp, non_negative,
}
use failroom.StateStore.Backend.{consume, claims_fit, attachable, can_attach}
use failroom.StateStore.Backend.Live.{live}
use failroom.StateStore.Evolves.History.{Request, history, history-Evolves}

-- The attempt and its resource admit the capability at this time.
pub record Admits (c : CapabilityClaims) (clock deadline epoch : ℕ) (a : AttemptRow) : Type 0 where
  pub owner : a.user_id ≡ c.user_id
  pub current : is_current c.ref a ≡ true
  pub state : can_attach a.state ≡ true
  pub kept : a.destroy_intent ≡ false
  pub epoch_now : a.session_epoch ≡ epoch
  pub before_end : clock < deadline
  pub within : deadline ≤ a.expires_at

module _ ⦃lib : Libs⦄ where
  admitted :
      (i : ServiceIdentity) (c : CapabilityClaims) (clock deadline epoch : ℕ) (s s' : Db)
      (u : CapabilityUse) (a : AttemptRow)
      → c.expires_at ≡ aware deadline
      → c.session_epoch ≡ pos epoch
      → attempt_of s c.ref.attempt_id ≡ some a
      → consume i c (some (aware clock)) s ≡ done u s'
      → Admits c clock deadline epoch a
  unfolding consume binding binding_check live read_clock timestamp non_negative claims_fit
  admitted i c clock deadline epoch s s' u a d e f h =
      ground (arith, text_beq→eq a.user_id c.user_id)

  attachable_resource :
      (i : ServiceIdentity) (c : CapabilityClaims) (now : Clock) (s s' : Db) (u : CapabilityUse)
      → consume i c now s ≡ done u s'
      → (r : ResourceRow) × (resource_of s c.ref.sandbox_id ≡ some r) × (attachable r ≡ true)
  unfolding consume binding live
  attachable_resource i c now s s' u h = elim (Option-cases (resource_of s c.ref.sandbox_id)) [
    | inl e ↦ absurd (ground arith)
    | inr (r, e) ↦ (r, e, ground arith)
  ]

  -- A consumption that returns was made by the owner for the exact current sandbox of a live attempt,
  -- in its current epoch and before its deadline, and the sandbox is READY or RUNNING and not to be
  -- destroyed or expired.
  pub consume-Admits :
      (i : ServiceIdentity) (c : CapabilityClaims) (clock deadline epoch : ℕ) (s s' : Db)
      (u : CapabilityUse) (a : AttemptRow)
      → c.expires_at ≡ aware deadline
      → c.session_epoch ≡ pos epoch
      → attempt_of s c.ref.attempt_id ≡ some a
      → transaction (consume i c (some (aware clock))) s ≡ (ok u, s')
      → Admits c clock deadline epoch a
        × ((r : ResourceRow) × (resource_of s c.ref.sandbox_id ≡ some r) × (attachable r ≡ true))
  consume-Admits i c clock deadline epoch s s' u a d e f h =
      let run = transaction-done _ s s' u h in
      (admitted i c clock deadline epoch s s' u a d e f run, attachable_resource i c _ s s' u run)

  refused :
      (i : ServiceIdentity) (c : CapabilityClaims) (now : Clock) (d : Datetime) (z : ℤ) (s s' : Db)
      (u : CapabilityUse) (a : AttemptRow)
      → c.expires_at ≡ d
      → c.session_epoch ≡ z
      → attempt_of s c.ref.attempt_id ≡ some a
      → consume i c now s ≡ done u s'
      → (a.destroy_intent ≡ false) × (z ≡ pos a.session_epoch)
  unfolding consume binding binding_check live read_clock timestamp non_negative claims_fit
  refused i c (some (aware clock)) (aware deadline) (pos e) s s' u a p q f h = ground arith
  refused i c _ _ _ s s' u a p q f h = ground arith

  -- A stop, and the end of a session, are final for terminals: once an attempt is to be destroyed,
  -- or has an epoch beyond the capability's, no consumption of the capability returns, whatever
  -- requests to either store came in between.
  pub ended_session :
      (i : ServiceIdentity) (c : CapabilityClaims) (now : Clock) (epoch : ℕ) (s t : Db)
      (u : CapabilityUse) (a : AttemptRow) (rs : List Request)
      → c.session_epoch ≡ pos epoch
      → attempt_of s c.ref.attempt_id ≡ some a
      → (a.destroy_intent ≡ true) ⊎ (epoch < a.session_epoch)
      → transaction (consume i c now) (history rs s) ≢ (ok u, t)
  ended_session i c now epoch s t u a rs e f over h =
      let (b, g, le) = (history-Evolves rs s).attempts c.ref.attempt_id a f in
      let live_now =
        refused i c now c.expires_at (pos epoch) (history rs s) t u b refl e g
          (transaction-done _ _ t u h) in
      ground (arith, live_now)
