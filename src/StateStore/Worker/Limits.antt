-- ===== src/StateStore/Worker/Limits.antt =====
-- The scans pending_finalizations (backend.py) and reconcile (control_plane.py), and their limits.
use failroom.Prelude.{ℕ, ◌≤◌, ◌≡◌, List, [], ◌∷◌, map, length, arith, refl, some, none, ◌≢◌}
use failroom.Prelude.Tables.{take, keep, order_by, length-take_le}
use failroom.StateStore.Models.{
  ServiceIdentity, ResourceRef, CleanupTask, Clock, aware, naive, invalid_request,
}
use failroom.StateStore.Tx.{Db, done, ok, err, transaction, pure, ◌>>=◌}
use failroom.StateStore.Tx.Rules.{transaction-done, bind-done}
use failroom.StateStore.Libs.{Libs}
use failroom.StateStore.Common.{row_ref, read_clock, timestamp}
use failroom.StateStore.Backend.{pending_finalizations, by_deadline, finalizable}
use failroom.StateStore.ControlPlane.{
  Candidate, visit, visit_all, reconcile, by_urgency, candidates,
}

length-map : {A B : Type 0} (f : A → B) (xs : List A) → length (map f xs) ≡ length xs
length-map f [] = refl
length-map f (x ∷ xs) = omega (arith, length-map f xs)

length-map-take : {A B : Type 0} (f : A → B) (n : ℕ) (xs : List A) → length (map f (take n xs)) ≤ n
length-map-take f n xs = omega (arith, length-map f (take n xs), length-take_le n xs)

finalizations-limit :
    (i : ServiceIdentity) (limit : ℕ) (s t : Db) (refs : List ResourceRef)
    → pending_finalizations i limit s ≡ done refs t
    → length refs ≤ limit
unfolding pending_finalizations
finalizations-limit i limit s t refs h =
    ground (
      arith,
      length-map-take row_ref limit (order_by by_deadline (keep (finalizable s) s.attempts)),
    )

-- A scan for finished removals reports at most `limit` of them.
pub pending_finalizations-limit :
    (i : ServiceIdentity) (limit : ℕ) (s t : Db) (refs : List ResourceRef)
    → transaction (pending_finalizations i limit) s ≡ (ok refs, t)
    → length refs ≤ limit
pending_finalizations-limit i limit s t refs h =
    finalizations-limit i limit s t refs (transaction-done _ s t refs h)

module _ ⦃lib : Libs⦄ where
  visit_all-length :
      (clock : ℕ) (cs : List Candidate) (s t : Db) (tasks : List CleanupTask)
      → visit_all clock cs s ≡ done tasks t
      → length tasks ≡ length cs
  unfolding visit_all
  visit_all-length clock [] s t tasks h = ground arith
  visit_all-length clock (c ∷ cs) s t tasks h =
      let rest = λ (task : CleanupTask). visit_all clock cs >>= λ more. pure (task ∷ more) in
      let (task, s1, _, h1) = bind-done (visit clock c) rest s t tasks h in
      let (more, s2, k, h2) =
        bind-done (visit_all clock cs) (λ more. pure (task ∷ more)) s1 t tasks h1 in
      let same = visit_all-length clock cs s1 s2 more k in ground (arith, same)

  reconcile-visit_all :
      (i : ServiceIdentity) (clock limit : ℕ) (s t : Db) (tasks : List CleanupTask)
      → reconcile i (some (aware clock)) limit s ≡ done tasks t
      → visit_all clock (take limit (order_by by_urgency (candidates s clock))) s ≡ done tasks t
  unfolding reconcile read_clock timestamp
  reconcile-visit_all i clock limit s t tasks h = ground arith

  reconcile-refuses :
      (i : ServiceIdentity) (limit : ℕ) (d : Clock) (s t : Db) (tasks : List CleanupTask)
      → read_clock d ≡ err invalid_request
      → reconcile i d limit s ≢ done tasks t
  unfolding reconcile
  reconcile-refuses i limit d s t tasks e h = ground arith

  reconcile-done :
      (i : ServiceIdentity) (now : Clock) (limit : ℕ) (s t : Db) (tasks : List CleanupTask)
      → reconcile i now limit s ≡ done tasks t
      → length tasks ≤ limit
  unfolding read_clock timestamp
  reconcile-done i (some (aware clock)) limit s t tasks h =
      let k = reconcile-visit_all i clock limit s t tasks h in
      let same = visit_all-length clock _ s t tasks k in
      omega (arith, same, length-take_le limit (order_by by_urgency (candidates s clock)))
  reconcile-done i (some naive) limit s t tasks h =
      absurd (reconcile-refuses i limit (some naive) s t tasks refl h)
  reconcile-done i none limit s t tasks h = absurd (reconcile-refuses i limit none s t tasks refl h)

  -- A scan for cleanup work makes at most `limit` tasks.
  pub reconcile-limit :
      (i : ServiceIdentity) (now : Clock) (limit : ℕ) (s t : Db) (tasks : List CleanupTask)
      → transaction (reconcile i now limit) s ≡ (ok tasks, t)
      → length tasks ≤ limit
  reconcile-limit i now limit s t tasks h =
      reconcile-done i now limit s t tasks (transaction-done _ s t tasks h)
