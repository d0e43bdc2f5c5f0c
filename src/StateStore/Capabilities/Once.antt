-- ===== src/StateStore/Capabilities/Once.antt =====
-- backend.py, consume, on a capability that was consumed before.
use failroom.Prelude.{
  List, some, none, ◌≡◌, ◌≢◌, refl, arith, text_beq_refl, ℕ, Option-cases, inl, inr,
}
use failroom.Prelude.Tables.{find-insert_row_new}
use failroom.StateStore.Models.{
  ServiceIdentity, CapabilityClaims, CapabilityUse, Clock, Datetime, aware,
}
use failroom.StateStore.Rows.{CapabilityRow}
use failroom.StateStore.Tx.{Db, done, ok, transaction}
use failroom.StateStore.Tx.Rules.{transaction-done}
use failroom.StateStore.Libs.{Libs}
use failroom.StateStore.Sql.{use_of, use_key, insert_use}
use failroom.StateStore.Common.{binding, read_clock, timestamp}
use failroom.StateStore.Backend.{consume}
use failroom.StateStore.Backend.Live.{live}
use failroom.StateStore.Evolves.History.{Request, history, history-Evolves}

insert_use-recorded :
    (r : CapabilityRow) (s s' : Db) → insert_use r s ≡ done tt s' → use_of s' r.jti_hash ≡ some r
unfolding insert_use
insert_use-recorded r s s' h =
    ground (arith, find-insert_row_new (use_key r.jti_hash) r s.uses, text_beq_refl r.jti_hash)

module _ ⦃lib : Libs⦄ where
  -- the row that a consumption writes
  abbrev pub used_row : CapabilityClaims → ℕ → ℕ → CapabilityRow
  used_row c clock deadline = record {
    jti_hash = lib.sha256 c.jti;
    attempt_id = c.ref.attempt_id;
    consumed_at = clock;
    expires_at = deadline;
  }

  recorded_at :
      (i : ServiceIdentity) (c : CapabilityClaims) (now : Clock) (d : Datetime) (s s' : Db)
      (u : CapabilityUse)
      → c.expires_at ≡ d
      → consume i c now s ≡ done u s'
      → use_of s' (lib.sha256 c.jti) ≢ none
  unfolding consume binding live read_clock timestamp
  recorded_at i c (some (aware clock)) (aware deadline) s s' u e h k =
      ground (arith, insert_use-recorded (used_row c clock deadline) s s')
  recorded_at i c _ d s s' u e h k = ground arith

  unused :
      (i : ServiceIdentity) (c : CapabilityClaims) (now : Clock) (s s' : Db) (u : CapabilityUse)
      → consume i c now s ≡ done u s'
      → use_of s (lib.sha256 c.jti) ≡ none
  unfolding consume binding live
  unused i c now s s' u h = ground arith

  -- Once a capability is consumed, no later consumption of the same jti returns, whoever asks,
  -- with whatever other claims, and whatever requests to either store came in between.
  pub consume_once :
      (i j : ServiceIdentity) (c d : CapabilityClaims) (now later : Clock) (s s' t : Db)
      (u v : CapabilityUse) (rs : List Request)
      → transaction (consume i c now) s ≡ (ok u, s')
      → d.jti ≡ c.jti
      → transaction (consume j d later) (history rs s') ≢ (ok v, t)
  consume_once i j c d now later s s' t u v rs h same again =
      let written = recorded_at i c now c.expires_at s s' u refl (transaction-done _ s s' u h) in
      let free = unused j d later (history rs s') t v (transaction-done _ _ t v again) in
      elim (Option-cases (use_of s' (lib.sha256 c.jti))) [
        | inl e ↦ written e
        | inr (row, e) ↦
            let kept = (history-Evolves rs s').uses (use_key (lib.sha256 c.jti)) row e in cc
      ]
