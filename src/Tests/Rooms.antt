-- ===== src/Tests/Rooms.antt =====
-- The theorems on the services, from the states of the scenario.
use failroom.Prelude.{◌+◌, List, [], ◌∷◌, none, ◌≡◌, refl, false}
use failroom.Prelude.Answers.{returns}
use failroom.StateStore.Models.{aware, resolved, active_ref}
use failroom.StateStore.Backend
use failroom.StateStore.Common
use failroom.StateStore.Worker.World.{Env, World, Reply, call}
use failroom.StateStore.Evolves.Relation.{Evolves, Evolves-refl}
use failroom.Rooms.Keys.{phase_key, is_ascii}
use failroom.Rooms.Lifecycle.{RoomStatus}
use failroom.Rooms.Provision.{Runtime}
use failroom.Rooms.Recovery
use failroom.Rooms.Recovery.{verify}
use failroom.Rooms.Recovered.{verify-resolved}
use failroom.Rooms.Serving.{Deployment, Call, serve_all, serve_all-Evolves}
use failroom.Rooms.Steady.{OthersKeep}
use failroom.Tests.Data.{plain, alice, backend, control, at, evidence}
use failroom.Tests.Scenario.{published, everything}

abbrev env : Env
env = record {
  clock = λ n. at (40 + n);
  others = λ n s. s;
  fault = λ n. none;
  runtime = λ target. Reply.evidence evidence;
}

quiet : OthersKeep Evolves env
quiet = record { others = λ n s. Evolves-refl s }

abbrev runtime : Runtime
runtime = record {
  enter = λ r room. none;
  create = λ r. returns "container-1";
  start = λ container. returns evidence;
  bootstraps = false;
  bootstrap = λ container digest. returns evidence;
  exit = λ r. none;
}

abbrev deployment : Deployment
deployment = record {
  runtime = runtime;
  verify_runtime = λ r room. returns evidence;
  backend = backend;
  control = control;
  retry_delay = 5;
  attempt_ttl = 1000;
  maintenance_limit = 10;
}

abbrev before : World
before = record { db = published; readings = 0; transactions = 0 }

abbrev calls : List Call
calls =
    Call.enters alice "disk-full" "k40"
    ∷ Call.verifies alice "id-" "k41"
    ∷ Call.resets alice "id-" "k42"
    ∷ Call.maintains
    ∷ Call.leaves alice "id-" "k43"
    ∷ []

serve_all-Evolves_example : Evolves published (serve_all env deployment calls before).db
serve_all-Evolves_example = serve_all-Evolves env deployment quiet calls before

abbrev status : RoomStatus
status = record {
  attempt_id = "id-";
  room_id = "room-1";
  state = resolved;
  expires_at = aware 1000;
  destroy_intent = false;
}

verified :
    (verify env (λ r room. returns evidence) backend control alice "id-" "k41" before).0
    ≡ returns status
unfolding everything verify call Recovery.context Recovery.recover Recovery.to_running
    Recovery.to_resolved Recovery.conclude Recovery.recovery_move Recovery.recovery_key
    Recovery.prove Recovery.publish_running Recovery.publish_resolved phase_key is_ascii
    Recovery.recovery_code Backend.Live.inspect Backend.Live.room_id_for_binding active_ref
    Common.attempt_record Backend.publish_resolved
verified = refl

verify-resolved_example : status.state ≡ resolved
verify-resolved_example =
    verify-resolved env (λ r room. returns evidence) backend control alice "id-" "k41" before status
      verified
