-- ===== src/Lib.antt =====
-- The failroom repository: its state store (packages/state-store), which decides who may create, use,
-- reset and destroy the sandboxes of a room, and the services that drive the store, speak for it to
-- users, and hand out terminals (services/control-plane, services/api, services/sandbox-engine).
--
-- The program. An attempt is a user's run of a room; it reserves a tuple of attempt, sandbox and
-- generation, and a resource is the sandbox behind such a tuple. The backend creates and ends
-- attempts and publishes what the control plane has reported; the control plane accepts tuples,
-- moves resources through their states, issues attachment leases and makes cleanup tasks; the
-- cleanup worker drives both until the tasks are done. All of them share the tables of one SQLite
-- file, and each call is one transaction on it. The services of the control plane compose these
-- operations: they enter, provision, leave, reset and verify rooms, and a maintenance pass expires,
-- cleans and resumes. The api holds browser sessions and signs terminal capabilities, which the
-- store consumes. A terminal is attached for a lease and takes one of the slots of its sandbox, and
-- the sandbox engine runs its PTY under limits of bytes and time.
--
-- The files of the store (paths from packages/state-store/failroom_state/):
--   StateStore/Models      models.py: the records and enums, and the codes of a StoreError.
--   StateStore/Rows        schema.py: the rows of version 4, the CHECK constraints of attempts,
--                          resources and operations as attempt_check, resource_check and
--                          operation_check, the triggers as attempt_trigger and resource_trigger.
--   StateStore/Tx          database.py: Db is the tables, Tx a transaction's body, `transaction` the
--                          commit, the rollback on an error, and the commit of a CommitDenial.
--   StateStore/Sql         the INSERT and UPDATE statements, and the constraints under which they run.
--   StateStore/Libs        what the code calls outside of the repository, as parameters.
--   StateStore/Common      common.py: the checks of arguments and identities, owned, binding, replay,
--                          finish.
--   StateStore/Backend     backend.py: Live (create, leave, inspect), Publish, Reset, Queries (expire
--                          and the two scans), Cleanup (complete_cleanup and consume).
--   StateStore/ControlPlane  control_plane.py: Base (_NEXT, _stop, _live), Accept, Transition, Lease,
--                          Reconcile (reconcile and cleanup_failed).
--   StateStore/Worker      docker_worker.py: World is what a pass meets, Pass is run_once.
--   StateStore/Evolves, Capabilities, Resets  theorems across these parts; the theorems on a single
--                          part stand in its own folder (Edges, Limits, Counts). In Evolves, Relation
--                          and Sound say what is kept, Steps joins them, Statements, Rewritten, Writes,
--                          Shared, Attempts, Sandboxes and Reads go through the statements and methods,
--                          and History, Log, Authority, Repeated and Conflicts state the theorems.
--
-- The files of the services:
--   Rooms                  services/control-plane/failroom_control_plane: Lifecycle (lifecycle.py and
--                          reset.py), Provision, Keys and Orchestrator (orchestrator.py), Recovery,
--                          Maintenance, Entry, and Serving, the services as `build` of
--                          local_runtime.py puts them together. Acts are calls that may raise.
--                          Steady, Passes, Evolving, Provisioning, Verifying and Recovered are proofs.
--   Terminal               terminal.py of the same folder: Slots (_SandboxSlots) and Attach (attach);
--                          Counting and Attached are proofs about them.
--   Api                    services/api/failroom_api: Authentication (bearer credentials), Sessions
--                          (session.py), Capability (the codec), Authority (authorization.py); Bearer,
--                          Table, Evicting, Opened, Verified, Lifetimes, Genuine, Issued, Accepted,
--                          Single are proofs.
--   Sandbox                services/sandbox-engine/failroom_sandbox/pty.py: Limits, and Pty for
--                          _SubprocessPtySession; Device is what is relied on of the operating
--                          system; Sizes, Budget, Closing and Writing are proofs. Scenario is
--                          scenario.py and the registry of room_scenarios.py, Declared its proofs.
--   Tests                  runs on concrete states, and the theorems at them.
--
-- How the code is read:
--   * A table is a list of rows in the order of insertion, with the statements' keys looked up in it.
--     ORDER BY is a stable sort and LIMIT a prefix of it. A statement that a constraint or a trigger
--     refuses is the sqlite3.IntegrityError that _transaction turns into STORE_FAILURE.
--   * A CHECK that compares with NULL passes and a trigger whose condition is NULL does not fire
--     (may_equal), as in SQL.
--   * The arguments have the types that the code tests for, so that the refusals of other types are
--     not branches of the model. Expected versions and session epochs are integers, since the code
--     tests their sign; other numbers are naturals. A point of time is the number of microseconds
--     since the epoch, and a datetime without an offset is `naive`.
--   * The checks before a transaction stand in the same do block as its body. They change nothing,
--     and a failure of them leaves the tables as they are.
--   * A clock is what one call of it answers. A transaction calls it once.
--   * json.dumps, hashlib.sha256 and uuid4 are the fields of Libs, of any value; draws of uuid4 are
--     numbered by `drawn`, and nothing is assumed of them, not even that they differ.
--   * A request is one transaction, and a history is any sequence of requests, by whichever callers:
--     BEGIN IMMEDIATE makes the transactions of a file follow one another.
--   * The worker runs in World: between its transactions other processes do whatever they like
--     (Env.others), a transaction may meet an sqlite3.Error (Env.fault), and the runtime answers with
--     evidence, a RuntimeCleanupError or another exception (Env.runtime).
--   * A service runs in the same World. Its runtime is a record of what each call answers, or the
--     error that it raises; a call of the store that takes no clock counts a reading all the same,
--     which changes nothing, since the readings are arbitrary. `str` and `canonical` of Libs are
--     str of an integer and the JSON behind a configuration digest.
--   * Threads that share a table (sessions, slots) reach it one at a time under its lock, so that any
--     interleaving is a sequence of calls. Random tokens are arguments of the calls that draw them.
--   * The base64, json and HMAC of a capability are the fields of Codec, of any value. What is relied on
--     of them where a token is read back is Lawful (Api/Accepted), and what is relied on of reads and
--     writes of a PTY is in Sandbox/Device; each is a hypothesis of the theorems that use it.
--   * A PTY session is a state with the effects it had so far; what the operating system answers is
--     Outside, by the number of the call. Its time is in nanoseconds.
--   * Two loops run on fuel: evict (while the table is full) on the number of sessions, and write_loop
--     (while bytes remain) on the number of bytes: a round of the first removes a session, and a
--     write that returns has taken a byte. The other loops run over lists.
--
-- Not modelled: the overflow of 64-bit columns and of datetime, times before the epoch, I/O errors of
-- SQLite within an operation of the two stores, the initialisation, migration and schema check of
-- database.py, and the statements of schema.py for the versions 1 to 3. Of the services, the tests
-- of configuration in the constructors of the control plane, the opening of the PTY and its marker
-- line, and the websocket and HTTP layers. The Docker lifecycle, the qualification probes and the web
-- client (apps/web) are input and output around these parts.
pub mod Prelude
pub mod StateStore
pub mod Rooms
pub mod Terminal
pub mod Api
pub mod Sandbox
pub mod Tests
