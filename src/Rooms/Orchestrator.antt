-- ===== src/Rooms/Orchestrator.antt =====
-- orchestrator.py, LifecycleOrchestrator.provision and _run_runtime.
use failroom.Prelude.{ℕ, String, true, false, not, ◌==◌, ◌||◌, nat_eq, Option, none, some}
use failroom.Prelude.Answers.{Answer, returns, raises}
use failroom.StateStore.Models.{
  ServiceIdentity, Receipt, Resource, State, state_eq, provisioning, resetting, requested, creating,
  starting, ready, invalid_request, invalid_transition, stale_binding, legacy_runtime_binding,
}
use failroom.StateStore.Rows.{is_null}
use failroom.StateStore.Libs.{Libs}
use failroom.StateStore.Backend
use failroom.StateStore.ControlPlane
use failroom.StateStore.Worker.World.{Env}
use failroom.Rooms.Acts.{Act, pure, raise, unless, catch, ◌>>=◌, ◌>>◌}
use failroom.Rooms.Provision.{
  Runtime, Thrown, docker, Phase, Raised, lifecycle, store_error, thrown, of_store, failure_code,
  move_to, as_lifecycle, Body, stage, ends, store_call, keyed, control_inspect, publish_ready,
  fail_resource,
}

module _ ⦃lib : Libs⦄ (env : Env) (rt : Runtime) (backend control : ServiceIdentity) (root : String)
    (receipt : Receipt) where
  -- `except DockerError as error: self._fail(…); raise LifecycleError(…)`; another exception goes on
  unfoldable pub on_thrown : {A : Type 0} → Resource → Phase → Thrown → Act Raised A
  on_thrown c phase (docker e) = do
    fail_resource env c control backend receipt root e phase
    raise (lifecycle (failure_code e phase))
  on_thrown c phase Thrown.other = raise (thrown Thrown.other)

  -- a call of the session, with that handler
  abbrev pub session_call : {A : Type 0} → Resource → Phase → Answer Thrown A → Act Raised A
  session_call c phase (returns a) = pure a
  session_call c phase (raises e) = on_thrown c phase e

  -- a move of the resource, and the resource read again
  unfoldable pub advance :
      Resource → State → String → Option String → Option String → Act Raised (ℕ × Resource)
  advance c state phase container digest = do
    moved ← keyed env root phase c.ref c.version λ key now.
        ControlPlane.transition control c.ref (move_to state c.version container digest none) key
          now
    c' ← control_inspect env control c.ref
    pure (moved.version, c')

  abbrev pub bootstrapped : String → String → Answer Thrown String
  bootstrapped container observation = elim rt.bootstraps [
    | true ↦ rt.bootstrap container observation
    | false ↦ returns observation
  ]

  -- the block, once the container is created and the resource read again
  abbrev pub started_body : String → ℕ × Resource → Body
  started_body container (version, c) = elim (c.version == version) [
    | false ↦ ends c (raises (store_error stale_binding))
    | true ↦ stage c (session_call c Phase.start (rt.start container)) λ observation.
        stage c (session_call c Phase.bootstrap (bootstrapped container observation))
          λ digest. ends c (returns digest)
  ]

  -- the block under `with self._runtime.open(…) as session`
  unfoldable pub session_body : Resource → Body
  session_body c = stage c (session_call c Phase.create (rt.create c)) λ container.
      stage c (advance c starting "starting" (some container) none) (started_body container)

  -- what leaving the context makes of what the block came to
  abbrev pub leaving : Resource × Answer Raised String → Resource × Answer Raised String
  leaving (c, r) = elim (rt.exit c) [ none ↦ (c, r) | some e ↦ (c, raises (thrown e)) ]

  unfoldable pub with_session : Resource → String → Body
  with_session c room w = elim (rt.enter c room) [
    | some e ↦ ((c, raises (thrown e)), w)
    | none ↦ let (r, w') = session_body c w in (leaving r, w')
  ]

  -- the handlers round the block, and what follows it
  abbrev pub after_session : Resource × Answer Raised String → Act Raised (Unit {0})
  after_session (c, raises (thrown e)) = on_thrown c Phase.create e
  after_session (c, raises (lifecycle e)) = raise (lifecycle e)
  after_session (c, raises (store_error e)) = raise (store_error e)
  after_session (c, returns digest) = do
    (version, c') ← advance c ready "ready" none (some digest)
    unless (not (c'.version == version)) (store_error stale_binding)
        do publish_ready env receipt backend root; pure tt

  -- `_run_runtime`
  unfoldable pub run_runtime : Resource → String → Act Raised (Unit {0})
  run_runtime c room w = let (r, w') = with_session c room w in after_session r w'

  -- the resource was accepted and is not READY
  unfoldable pub provision_requested : ℕ → Resource → Act Raised (Unit {0})
  provision_requested accepted c =
      unless (is_null c.runtime_operation_id) (lifecycle (of_store legacy_runtime_binding)) (
        unless (not (c.state == requested)) (store_error invalid_transition) do
          room ← store_call env (λ now. Backend.room_id_for_binding backend c.ref)
          made ← keyed env root "creating" receipt.ref accepted λ key now.
              ControlPlane.transition control receipt.ref (move_to creating accepted none none none)
                key now
          c' ← control_inspect env control receipt.ref
          unless (not (c'.version == made.version)) (store_error stale_binding)
              (run_runtime c' room))

  unfoldable pub provision_accepted : Act Raised (Unit {0})
  provision_accepted = do
    accepted ←
        keyed env root "accept" receipt.ref receipt.version
          λ key now. ControlPlane.accept backend receipt.ref key now
    c ← control_inspect env control receipt.ref
    elim (c.state == ready) [
      | true ↦ do publish_ready env receipt backend root; pure tt
      | false ↦ provision_requested accepted.version c
    ]

  -- `provision`
  unfoldable pub provision : Act Raised (Unit {0})
  provision =
      unless (not (receipt.state == provisioning || receipt.state == resetting))
        (lifecycle (of_store invalid_request))
        (catch provision_accepted (λ e. raise (as_lifecycle e)))
