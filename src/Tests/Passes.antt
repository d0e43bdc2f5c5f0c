-- ===== src/Tests/Passes.antt =====
-- The theorems on the log, identities and cleanup passes, at the states of the scenario.
use failroom.Prelude.{
  Option, arith, ◌+◌, ◌≤◌, List, [], ◌∷◌, some, none, length, ◌≡◌, ◌≢◌, inl, refl, true, false,
  text_beq_refl, text_eq, ◌==◌,
}
use failroom.Prelude.Text.{is_identifier}
use failroom.StateStore.Models.{
  UserIdentity, ResourceRef, Receipt, CleanupTask, Role, Action, role_value, idempotency_conflict,
  stopping, aware, provisioning, running, store_failure,
}
use failroom.StateStore.Tx.{
  Db, Tx, Outcome, Result, ok, err, empty_db, transaction, done, deny, fail,
}
use failroom.StateStore.Common.{user, finish, replay}
use failroom.StateStore.Backend.{create}
use failroom.StateStore.ControlPlane.{reconcile}
use failroom.StateStore.Evolves.History.{Request, history, handle}
use failroom.StateStore.Evolves.Log.{replay-finish}
use failroom.StateStore.Evolves.Repeated.{create_again, fingerprint_of}
use failroom.StateStore.Evolves.Conflicts.{create_conflicts}
use failroom.StateStore.Evolves.Authority.{Unauthorised, Lacks, Unauthorised-unchanged}
use failroom.StateStore.Worker.World.{Env, World, Reply}
use failroom.StateStore.Worker.World as Worlds
use failroom.StateStore.Worker.Pass
use failroom.StateStore.Worker.Pass.{CleanupRun, run_once, run_tasks, no_counts}
use failroom.StateStore.Worker.Counts.{run_once-counts, run_tasks-TaskCounts, TaskCounts}
use failroom.StateStore.Worker.Limits.{reconcile-limit}
use failroom.Tests.Data.{plain, alice, backend, control, gateway, at, ref, evidence}
use failroom.Tests.Scenario.{published, everything, move, returns}

-- the log

abbrev creating_attempt : Tx Receipt
creating_attempt = create alice "room-1" "k1" (aware 1000) (at 1)

abbrev created : Db
created = (transaction creating_attempt empty_db).1

abbrev created_receipt : Receipt
created_receipt = record { operation_id = "id-fff"; ref = ref; state = provisioning; version = 0 }

creates : (transaction creating_attempt empty_db).0 ≡ ok created_receipt
unfolding everything
creates = refl

-- the room is provisioned and left before the request is repeated
abbrev between : List Request
between =
    Request.accept backend ref "k2" (at 2)
    ∷ Request.transition control ref (move 0 failroom.StateStore.Models.creating none none) "k3"
        (at 3)
    ∷ Request.leave alice ref "k13" (at 30)
    ∷ []

create_again_example :
    (again : Receipt) × (transaction
        (create alice "room-1" "k1" (aware 1000) (at 40))
        (history between created)
      ≡ (ok again, history between created))
    × (again.operation_id ≡ "id-fff")
    × (again.ref ≡ ref)
create_again_example =
    create_again alice "room-1" "k1" (aware 1000) (at 1) 40 empty_db created created_receipt between
      (returns creating_attempt empty_db created_receipt creates)

-- the user of two rooms
abbrev bob : UserIdentity
bob = record { user_id = "bob"; authorized_room_ids = "room-1" ∷ "room-2" ∷ [] }

abbrev creating_first : Tx Receipt
creating_first = create bob "room-1" "k1" (aware 1000) (at 1)

first_creates : (transaction creating_first empty_db).0 ≡ ok created_receipt
unfolding everything
first_creates = refl

tested_apart : (fingerprint_of "room-1" 1000 == fingerprint_of "room-2" 1000) ≡ false
unfolding everything
tested_apart = refl

fingerprints_differ : fingerprint_of "room-1" 1000 ≢ fingerprint_of "room-2" 1000
fingerprints_differ e = ground (arith, tested_apart, text_beq_refl (fingerprint_of "room-1" 1000))

room_known : user bob "room-2" ≡ ok "user:bob"
unfolding everything
room_known = refl

room_valid : is_identifier "room-2" ≡ true
unfolding everything
room_valid = refl

create_conflicts_example :
    transaction
      (create bob "room-2" "k1" (aware 1000) (at 40))
      (history between (transaction creating_first empty_db).1)
    ≡ (err idempotency_conflict, history between (transaction creating_first empty_db).1)
create_conflicts_example =
    create_conflicts bob "room-1" "room-2" "k1" "user:bob" 1000 1 1000 40 empty_db
      (transaction creating_first empty_db).1 created_receipt between
      (returns creating_first empty_db created_receipt first_creates) room_known room_valid
      fingerprints_differ

leave_key_valid : is_identifier "k13" ≡ true
unfolding everything
leave_key_valid = refl

abbrev logging : Tx Receipt
logging = finish "user:alice" "leave" "k13" "leave" ref stopping 2 none

abbrev answer_of : {A : Type 0} → Outcome A → Option A
answer_of (done a s) = some a
answer_of (deny e s) = none
answer_of (fail e) = none

abbrev tables_of : {A : Type 0} → Outcome A → Db
tables_of (done a s) = s
tables_of (deny e s) = s
tables_of (fail e) = empty_db

answered : {A : Type 0} (o : Outcome A) (a : A) → answer_of o ≡ some a → o ≡ done a (tables_of o)
answered o a h = ground arith

abbrev logged : Db
logged = tables_of (logging published)

abbrev log_receipt : Receipt
log_receipt = record { operation_id = "id-fffffffff"; ref = ref; state = stopping; version = 2 }

logs : answer_of (logging published) ≡ some log_receipt
unfolding everything
logs = refl

replay-finish_example : replay "user:alice" "k13" "leave" logged ≡ done (some log_receipt) logged
replay-finish_example =
    replay-finish "user:alice" "leave" "k13" "leave" ref stopping 2 none published logged
      log_receipt leave_key_valid (answered (logging published) log_receipt logs)

-- authority

gateway-Lacks : Lacks gateway Role.control_plane Action.transition
gateway-Lacks = inl (λ e. cc)

Unauthorised-unchanged_example :
    handle (Request.transition gateway ref (move 3 running none none) "k30" (at 8)) published
    ≡ published
unfolding Unauthorised
Unauthorised-unchanged_example =
    Unauthorised-unchanged (Request.transition gateway ref (move 3 running none none) "k30" (at 8))
      published gateway-Lacks

-- a pass after the user has left

abbrev left : Db
left = history (Request.leave alice ref "k13" (at 30) ∷ []) published

abbrev scan : Tx (List CleanupTask)
scan = reconcile control (at 31) 10

abbrev value_of : {A : Type 0} → A → Result A → A
value_of a (ok b) = b
value_of a (err e) = a

abbrev tasks : List CleanupTask
tasks = value_of [] (transaction scan left).0

scans : transaction scan left ≡ (ok tasks, (transaction scan left).1)
unfolding everything
scans = refl

one_task : length tasks ≡ 1
unfolding everything
one_task = refl

reconcile-limit_example : length tasks ≤ 10
reconcile-limit_example =
    reconcile-limit control (at 31) 10 left (transaction scan left).1 tasks scans

-- The clock advances with each reading, nothing fails, and the runtime removes the container.
abbrev env : Env
env = record {
  clock = λ n. at (40 + n);
  others = λ n s. s;
  fault = λ n. none;
  runtime = λ target. Reply.evidence evidence;
}

abbrev before : World
before = record { db = left; readings = 0; transactions = 0 }

abbrev counts : CleanupRun
counts = record { destroyed_count = 1; deferred = 0; finalized = 1 }

pass : (run_once env 5 control backend 10 before).0 ≡ ok counts
unfolding everything Worlds.tick Worlds.call Pass.run_once Pass.run_scan Pass.finalize_all
    Pass.run_remaining Pass.run_tasks Pass.run_task Pass.destroy Pass.task_current Pass.verdict
    Pass.finalize
pass = refl

returned :
    run_once env 5 control backend 10 before
    ≡ (ok counts, (run_once env 5 control backend 10 before).1)
returned = λ i. (pass i, (run_once env 5 control backend 10 before).1)

run_once-counts_example :
    (counts.finalized + counts.deferred ≤ 10)
    × (counts.destroyed_count ≤ counts.finalized + counts.deferred)
run_once-counts_example =
    run_once-counts env 5 control backend 10 counts before
      (run_once env 5 control backend 10 before).1 returned

abbrev swept : Db
swept = (transaction scan left).1

abbrev world : World
world = record { db = swept; readings = 0; transactions = 0 }

tasks_run : (run_tasks env 5 control backend tasks no_counts world).0 ≡ ok counts
unfolding everything Worlds.tick Worlds.call Pass.finalize_all Pass.run_tasks Pass.run_task
    Pass.destroy Pass.task_current Pass.verdict Pass.finalize
tasks_run = refl

run_tasks-TaskCounts_example : TaskCounts (length tasks) no_counts counts
run_tasks-TaskCounts_example =
    run_tasks-TaskCounts env 5 control backend tasks no_counts counts world
      (run_tasks env 5 control backend tasks no_counts world).1
      (λ i. (tasks_run i, (run_tasks env 5 control backend tasks no_counts world).1))
