-- ===== src/Rooms/Evolving.antt =====
-- lifecycle.py and reset.py, against the relation between tables of StateStore/Evolves.
use failroom.Prelude.{String}
use failroom.Prelude.Answers.{returns, raises}
use failroom.StateStore.Models.{UserIdentity}
use failroom.StateStore.Libs.{Libs}
use failroom.StateStore.Worker.World.{Env}
use failroom.StateStore.Worker.Pass.{CleanupRun}
use failroom.StateStore.Evolves.Steps.{Keeps-Evolves}
use failroom.StateStore.Evolves.Relation.{Evolves, Evolves-IsPreorder}
use failroom.StateStore.Evolves.Attempts.{Keeps-leave, Keeps-begin_reset}
use failroom.StateStore.Evolves.Reads.{Keeps-inspect_attempt}
use failroom.Rooms.Acts.{Act, pure, raise, ◌>>=◌}
use failroom.Rooms.Lifecycle.{status, leave_attempt, leave, reset}
use failroom.Rooms.Steady.{
  Steady, OthersKeep, Steady-same, Steady-store, Steady-unless, Steady-cases, Steady-bind,
  Steady-catch, Steady-tick, Steady-call,
}

pub Steady-pure : {E A : Type 0} (a : A) → Steady Evolves (pure {E = E} a)
Steady-pure a = Steady-same Evolves-IsPreorder (returns a)

pub Steady-raise : {E A : Type 0} (e : E) → Steady Evolves (raise {A = A} e)
Steady-raise e = Steady-same Evolves-IsPreorder (raises e)

pub Steady-and_then :
    {E A B : Type 0} {m : Act E A} {f : A → Act E B}
    → Steady Evolves m
    → ((a : A) → Steady Evolves (f a))
    → Steady Evolves (m >>= f)
Steady-and_then {m} {f} h k = Steady-bind Evolves-IsPreorder m f h k

pub ruleset acts = (
  Evolves-IsPreorder, Steady-pure, Steady-raise, Steady-store, Steady-unless, Steady-cases,
  Steady-bind, Steady-catch, Steady-tick, Steady-call, Keeps-Evolves,
)

module _ ⦃lib : Libs⦄ (env : Env) (quiet : OthersKeep Evolves env) where
  pub Steady-status : (i : UserIdentity) (id : String) → Steady Evolves (status env i id)
  unfolding status
  Steady-status i id = search (acts, quiet, Keeps-inspect_attempt) depth 20

  pub Steady-leave_attempt :
      (i : UserIdentity) (id key : String) → Steady Evolves (leave_attempt env i id key)
  unfolding leave_attempt
  Steady-leave_attempt i id key = search (acts, quiet, Keeps-inspect_attempt, Keeps-leave) depth 20

  pub Steady-leave :
      (cleanup : Act (Unit {0}) CleanupRun) (i : UserIdentity) (id key : String)
      → Steady Evolves cleanup
      → Steady Evolves (leave env cleanup i id key)
  unfolding leave
  Steady-leave cleanup i id key h = Steady-and_then (Steady-leave_attempt i id key) λ _.
      Steady-and_then (Steady-catch Evolves-IsPreorder cleanup _ h (λ e. Steady-raise _))
        λ _. Steady-status i id

  pub Steady-reset : (i : UserIdentity) (id key : String) → Steady Evolves (reset env i id key)
  unfolding reset
  Steady-reset i id key = search (acts, quiet, Keeps-inspect_attempt, Keeps-begin_reset) depth 30
