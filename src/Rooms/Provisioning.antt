-- ===== src/Rooms/Provisioning.antt =====
-- orchestrator.py, against the relation between tables of StateStore/Evolves.
use failroom.Prelude.{not, ◌==◌, nat_eq, ℕ, Bool, true, false, String, Option, none, some}
use failroom.Prelude.Answers.{Answer, returns, raises}
use failroom.StateStore.Models.{
  requested, invalid_transition, legacy_runtime_binding, state_eq, creating, resetting, ready,
  provisioning, UserIdentity, ServiceIdentity, ResourceRef, Resource, Receipt, Attempt, Code, Clock,
  State, stale_binding,
}
use failroom.StateStore.Rows.{is_null}
use failroom.StateStore.Tx.{Tx, Result}
use failroom.StateStore.Tx.Rules.{Keeps}
use failroom.StateStore.Libs.{Libs}
use failroom.StateStore.ControlPlane
use failroom.StateStore.Worker.World.{Env, World, call}
use failroom.StateStore.Evolves.Steps.{Steps, Keeps-Evolves}
use failroom.StateStore.Evolves.Relation.{Evolves, Evolves-IsPreorder}
use failroom.StateStore.Evolves.Attempts.{
  Keeps-publish_ready, Keeps-publish_reset_ready, Keeps-fail_reset,
}
use failroom.StateStore.Evolves.Sandboxes.{Keeps-transition, Keeps-accept}
use failroom.StateStore.Evolves.Reads.{Keeps-inspect_resource, Keeps-room_id_for_binding}
use failroom.Rooms.Acts.{Act, raise}
use failroom.Rooms.Keys.{phase_key}
use failroom.Rooms.Provision.{
  of_store, move_to, Runtime, Thrown, docker, DockerCode, Phase, Raised, lifecycle, store_error,
  thrown, Body, stage, store_call, keyed, publish_ready, fail_resource,
}
use failroom.Rooms.Orchestrator.{
  on_thrown, session_call, advance, bootstrapped, started_body, session_body, leaving, with_session,
  after_session, run_runtime, provision_requested, provision_accepted, provision,
}
use failroom.Rooms.Steady.{
  Steady, OthersKeep, Steady-same, Steady-store, Steady-call, Steady-cases, Steady-unless,
  Steady-catch,
}
use failroom.Rooms.Evolving.{Steady-raise, Steady-pure, Steady-and_then}

module _ ⦃lib : Libs⦄ (env : Env) (quiet : OthersKeep Evolves env) where
  Steady-store_call :
      {A : Type 0} (m : Clock → Tx A)
      → ((now : Clock) → Keeps Steps (m now))
      → Steady Evolves (store_call env m)
  Steady-store_call m k =
      Steady-store Evolves-IsPreorder store_error (call env m)
        (Steady-call Evolves-IsPreorder env quiet m (λ now. Keeps-Evolves (k now)))

  keyed_by :
      {A : Type 0} (o : Option String) (m : String → Clock → Tx A)
      → ((key : String) (now : Clock) → Keeps Steps (m key now))
      → Steady Evolves {X = Answer Raised A} (elim o [
        | none ↦ raise (
            lifecycle
              (failroom.Rooms.Provision.of_store failroom.StateStore.Models.invalid_request))
        | some key ↦ store_call env (m key)
      ])
  keyed_by none m k = Steady-raise _
  keyed_by (some key) m k = Steady-store_call (m key) (k key)

  Steady-keyed :
      {A : Type 0} (root phase : String) (ref : ResourceRef) (v : ℕ) (m : String → Clock → Tx A)
      → ((key : String) (now : Clock) → Keeps Steps (m key now))
      → Steady Evolves (keyed env root phase ref v m)
  Steady-keyed root phase ref v m k = keyed_by (phase_key root phase ref v) m k

  Keeps-cases :
      {A : Type 0} (b : Bool) (m n : Tx A)
      → Keeps Steps m
      → Keeps Steps n
      → Keeps {A = A} Steps (elim b [ true ↦ m | false ↦ n ])
  Keeps-cases true m n h k = h
  Keeps-cases false m n h k = k

  Steady-publish_ready :
      (receipt : Receipt) (backend : ServiceIdentity) (root : String)
      → Steady Evolves (publish_ready env receipt backend root)
  unfolding publish_ready
  Steady-publish_ready receipt backend root = Steady-keyed _ _ _ _ _ λ key now.
      Keeps-cases (receipt.state == provisioning) _ _ (Keeps-publish_ready _ _ _ _ _)
        (Keeps-publish_reset_ready _ _ _ _ _)

  Steady-fail_resource :
      (resource : Resource) (control backend : ServiceIdentity) (receipt : Receipt) (root : String)
      (code : DockerCode) (phase : Phase)
      → Steady Evolves (fail_resource env resource control backend receipt root code phase)
  unfolding fail_resource
  Steady-fail_resource resource control backend receipt root code phase =
      Steady-and_then (Steady-keyed _ _ _ _ _ (λ key now. Keeps-transition _ _ _ _ _)) λ _.
        Steady-cases Evolves-IsPreorder (receipt.state == resetting) _ _
          (Steady-and_then (Steady-keyed _ _ _ _ _ (λ key now. Keeps-fail_reset _ _ _ _ _))
            λ _. Steady-pure tt)
          (Steady-pure tt)

  Steady-stage :
      {A : Type 0} (c : Resource) (m : Act Raised A) (k : A → Body)
      → Steady Evolves m
      → ((a : A) → Steady Evolves (k a))
      → Steady Evolves (stage c m k)
  Steady-stage {A} c m k h l = record { at = λ w. after w.db (m w).0 (m w).1 (h.at w) }
    where
      after :
          (s : failroom.StateStore.Tx.Db) (r : Answer Raised A) (v : World)
          → Evolves s v.db
          → Evolves s (stage c (λ (_ : World). (r, v)) k v).1.db
      after s (returns a) v e = Evolves-IsPreorder.then_ s v.db (k a v).1.db e ((l a).at v)
      after s (raises x) v e = e

  module _ (rt : Runtime) (backend control : ServiceIdentity) (root : String)
      (receipt : Receipt) where
    Steady-on_thrown :
        {A : Type 0} (c : Resource) (phase : Phase) (e : Thrown)
        → Steady Evolves {X = Answer Raised A}
            (on_thrown env rt backend control root receipt c phase e)
    unfolding on_thrown
    Steady-on_thrown c phase (docker e) =
        Steady-and_then (Steady-fail_resource c control backend receipt root e phase)
          λ _. Steady-raise _
    Steady-on_thrown c phase Thrown.other = Steady-raise _

    Steady-session_call :
        {A : Type 0} (c : Resource) (phase : Phase) (a : Answer Thrown A)
        → Steady Evolves (session_call env rt backend control root receipt c phase a)
    Steady-session_call c phase (returns a) = Steady-pure a
    Steady-session_call c phase (raises e) = Steady-on_thrown c phase e

    Steady-advance :
        (c : Resource) (state : State) (phase : String) (container digest : Option String)
        → Steady Evolves
            (advance env rt backend control root receipt c state phase container digest)
    unfolding advance
    Steady-advance c state phase container digest =
        Steady-and_then (Steady-keyed _ _ _ _ _ (λ key now. Keeps-transition _ _ _ _ _)) λ moved.
          Steady-and_then (Steady-store_call _ (λ now. Keeps-inspect_resource control c.ref))
            λ c'. Steady-pure _

    ended :
        {A : Type 0} (b : Bool) (m n : World → A × World)
        → Steady Evolves m
        → Steady Evolves n
        → Steady Evolves {X = A} (elim b [ true ↦ m | false ↦ n ])
    ended true m n h k = h
    ended false m n h k = k

    Steady-started_body :
        (container : String) (p : ℕ × Resource)
        → Steady Evolves (started_body env rt backend control root receipt container p)
    Steady-started_body container (version, c) =
        ended (c.version == version) _ _
          (Steady-stage c _ _ (Steady-session_call c Phase.start (rt.start container))
            λ observation.
              Steady-stage {A = String} c _ _
                (Steady-session_call c Phase.bootstrap
                  (bootstrapped env rt backend control root receipt container observation))
                λ digest. Steady-same Evolves-IsPreorder (c, returns digest))
          (Steady-same Evolves-IsPreorder (c, raises (store_error stale_binding)))

    Steady-session_body :
        (c : Resource) → Steady Evolves (session_body env rt backend control root receipt c)
    unfolding session_body
    Steady-session_body c =
        Steady-stage c _ _ (Steady-session_call c Phase.create (rt.create c))
          λ container. Steady-stage c _ _ (Steady-advance c _ _ _ _) (Steady-started_body container)

    entered :
        (o : Option Thrown) (c : Resource)
        → Steady Evolves {X = Resource × Answer Raised String} (λ w. elim o [
          | some e ↦ ((c, raises (thrown e)), w)
          | none ↦
              let (r, w') = session_body env rt backend control root receipt c w in
              (leaving env rt backend control root receipt r, w')
        ])
    entered (some e) c = Steady-same Evolves-IsPreorder _
    entered none c = record { at = (Steady-session_body c).at }

    Steady-with_session :
        (c : Resource) (room : String)
        → Steady Evolves (with_session env rt backend control root receipt c room)
    unfolding with_session
    Steady-with_session c room = entered (rt.enter c room) c

    Steady-after_session :
        (r : Resource × Answer Raised String)
        → Steady Evolves (after_session env rt backend control root receipt r)
    Steady-after_session (c, raises (thrown e)) = Steady-on_thrown c Phase.create e
    Steady-after_session (c, raises (lifecycle e)) = Steady-raise _
    Steady-after_session (c, raises (store_error e)) = Steady-raise _
    Steady-after_session (c, returns digest) =
        Steady-and_then (Steady-advance c _ _ _ _) λ (version, c').
          Steady-unless Evolves-IsPreorder _ _ _
            (Steady-and_then (Steady-publish_ready receipt backend root) λ _. Steady-pure tt)

    Steady-run_runtime :
        (c : Resource) (room : String)
        → Steady Evolves (run_runtime env rt backend control root receipt c room)
    unfolding run_runtime
    Steady-run_runtime c room = record {
      at = λ w.
          let v = with_session env rt backend control root receipt c room w in
          Evolves-IsPreorder.then_ w.db v.1.db _ ((Steady-with_session c room).at w)
            ((Steady-after_session v.0).at v.1);
    }

    Steady-provision_requested :
        (v : ℕ) (c : Resource)
        → Steady Evolves (provision_requested env rt backend control root receipt v c)
    unfolding provision_requested
    Steady-provision_requested v c =
        Steady-unless Evolves-IsPreorder (is_null c.runtime_operation_id)
          (lifecycle (of_store legacy_runtime_binding)) _
          (Steady-unless Evolves-IsPreorder (not (c.state == requested))
            (store_error invalid_transition) _
            (Steady-and_then (Steady-store_call _ (λ now. Keeps-room_id_for_binding backend c.ref))
              λ room.
                Steady-and_then
                  (Steady-keyed root "creating" receipt.ref v
                    (λ key now.
                      ControlPlane.transition control receipt.ref
                        (move_to creating v none none none) key now)
                    (λ key now.
                      Keeps-transition control receipt.ref (move_to creating v none none none) key
                        now))
                  λ made.
                    Steady-and_then
                      (Steady-store_call _ (λ now. Keeps-inspect_resource control receipt.ref))
                      λ c'.
                        Steady-unless Evolves-IsPreorder (not (c'.version == made.version))
                          (store_error stale_binding) _ (Steady-run_runtime c' room)))

    Steady-provision_accepted :
        Steady Evolves (provision_accepted env rt backend control root receipt)
    unfolding provision_accepted
    Steady-provision_accepted =
        Steady-and_then (Steady-keyed _ _ _ _ _ (λ key now. Keeps-accept _ _ _ _)) λ accepted.
          Steady-and_then (Steady-store_call _ (λ now. Keeps-inspect_resource control receipt.ref))
            λ c.
              Steady-cases Evolves-IsPreorder (c.state == ready) _ _
                (Steady-and_then (Steady-publish_ready receipt backend root) λ _. Steady-pure tt)
                (Steady-provision_requested accepted.version c)

    -- A provisioning, whatever the runtime answers, lets the tables evolve.
    pub Steady-provision : Steady Evolves (provision env rt backend control root receipt)
    unfolding provision
    Steady-provision =
        Steady-unless Evolves-IsPreorder _ _ _
          (Steady-catch Evolves-IsPreorder _ _ Steady-provision_accepted λ e. Steady-raise _)
