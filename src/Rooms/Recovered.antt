-- ===== src/Rooms/Recovered.antt =====
-- recovery.py, RecoveryVerificationService.verify: its answers.
use failroom.Prelude.{refl, ◌≡◌, not, ◌==◌, ◌&&◌, nat_eq, Bool, true, false, String, arith}
use failroom.Prelude.Answers.{Answer, returns, raises}
use failroom.StateStore.Models.{
  UserIdentity, ServiceIdentity, Resource, Attempt, state_eq, state_beq→eq, resolved,
}
use failroom.StateStore.Libs.{Libs}
use failroom.StateStore.Worker.World.{Env, World}
use failroom.Rooms.Acts.{Act, pure, unless, ◌>>=◌}
use failroom.Rooms.Lifecycle.{RoomStatus}
use failroom.Rooms.Provision.{Thrown}
use failroom.Rooms.Recovery.{to_running, to_resolved, context, conclude, recover, verify}

-- every answer that an act returns has a property
record Gives {E A : Type 0} (P : A → Type 0) (m : Act E A) : Type 0 where
  at : (w : World) (a : A) → (m w).0 ≡ returns a → P a

module _ {E A : Type 0} {P : A → Type 0} where
  Gives-pure : (a : A) → P a → Gives P (pure {E = E} a)
  Gives-pure a h = record { at = λ w b e. ground arith }

  Gives-unless : (b : Bool) (e : E) (m : Act E A) → (b ≡ false → Gives P m) → Gives P (unless b e m)
  Gives-unless true e m h = record { at = λ w b e. ground arith }
  Gives-unless false e m h = h refl

  Gives-cases :
      (b : Bool) (m n : Act E A)
      → (b ≡ true → Gives P m)
      → (b ≡ false → Gives P n)
      → Gives P (elim b [ true ↦ m | false ↦ n ])
  Gives-cases true m n h k = h refl
  Gives-cases false m n h k = k refl

  after :
      {B : Type 0} (r : Answer E B) (w : World) (f : B → Act E A)
      → ((b : B) → Gives P (f b))
      → (a : A) → (◌>>=◌ (λ (_ : World). (r, w)) f w).0 ≡ returns a
      → P a
  after (returns b) w f h a e = (h b).at w a e
  after (raises x) w f h a e = ground arith

  Gives-bind :
      {B : Type 0} (m : Act E B) (f : B → Act E A) → ((b : B) → Gives P (f b)) → Gives P (m >>= f)
  Gives-bind m f h = record { at = λ w a e. after (m w).0 (m w).1 f h a e }

abbrev IsResolved : RoomStatus → Type 0
IsResolved s = s.state ≡ resolved

module _ ⦃lib : Libs⦄ (env : Env) (verify_runtime : Resource → String → Answer Thrown String)
    (backend control : ServiceIdentity) (identity : UserIdentity) (attempt_id root : String) where
  conclude-IsResolved :
      (p : Attempt × Resource)
      → Gives IsResolved (conclude env verify_runtime backend control identity attempt_id root p)
  unfolding conclude
  conclude-IsResolved (a, r) = Gives-unless (not (r.state == resolved)) _ _ λ _.
      Gives-bind _ _ λ a'.
        Gives-unless (not (a'.state == resolved)) _ _
          λ h. Gives-pure _ (ground (arith, state_beq→eq a'.state resolved))

  recover-IsResolved :
      (p : Attempt × Resource × String)
      → Gives IsResolved (recover env verify_runtime backend control identity attempt_id root p)
  unfolding recover
  recover-IsResolved (a, r, room) =
      Gives-cases (a.state == resolved && r.state == resolved) _ _
        (λ h. Gives-pure _ (ground (arith, state_beq→eq a.state resolved)))
        (λ _.
          Gives-bind (to_running env verify_runtime backend control identity attempt_id root a r) _
            λ r'.
              Gives-bind
                (to_resolved env verify_runtime backend control identity attempt_id root room a r')
                _ λ p. conclude-IsResolved p)

  -- A verification that returns answers with an attempt in RESOLVED, wherever it started from and
  -- whatever other writers did meanwhile.
  pub verify-resolved :
      (w : World) (s : RoomStatus)
      → (verify env verify_runtime backend control identity attempt_id root w).0 ≡ returns s
      → s.state ≡ resolved
  unfolding verify
  verify-resolved w s e =
      let all : Gives IsResolved
          (verify env verify_runtime backend control identity attempt_id root) =
        Gives-bind (context env verify_runtime backend control identity attempt_id root) _
          (λ p. recover-IsResolved p) in
      all.at w s e
