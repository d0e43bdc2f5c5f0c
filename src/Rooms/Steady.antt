-- ===== src/Rooms/Steady.antt =====
-- Calls that may raise, and a relation between the tables: a rule for each way to build them.
use failroom.Prelude.{ℕ, Bool, true, false, Option, none, some, if◌then◌else◌}
use failroom.Prelude.Answers.{Answer, returns, raises}
use failroom.StateStore.Models.{Code, Clock}
use failroom.StateStore.Tx.{Db, Tx, Result, ok, err}
use failroom.StateStore.Tx.Rules.{IsPreorder, Keeps, Keeps-transaction}
use failroom.StateStore.Worker.World.{Env, World, Job, call, tick}
use failroom.StateStore.Worker.World as Jobs
use failroom.Rooms.Acts.{Act, unless, store, catch, ◌>>=◌}

-- the tables after a run are related to those before it
pub record Steady (R : Db → Db → Type 0) {X : Type 0} (m : World → X × World) : Type 0 where
  pub at : (w : World) → R w.db (m w).1.db

-- what the other writers do keeps the relation
pub record OthersKeep (R : Db → Db → Type 0) (env : Env) : Type 0 where
  pub others : (n : ℕ) (s : Db) → R s (env.others n s)

module _ {R : Db → Db → Type 0} (P : IsPreorder R) where
  pub Steady-same : {X : Type 0} (x : X) → Steady R (λ w. (x, w))
  Steady-same x = record { at = λ w. P.same w.db }

  module _ {E A : Type 0} where
    pub Steady-store : (f : Code → E) (m : Job A) → Steady R m → Steady R (store f m)
    Steady-store f m h = record { at = h.at }

    pub Steady-unless : (b : Bool) (e : E) (m : Act E A) → Steady R m → Steady R (unless b e m)
    Steady-unless true e m h = Steady-same (raises e)
    Steady-unless false e m h = h

    pub Steady-cases :
        (b : Bool) (m n : Act E A)
        → Steady R m
        → Steady R n
        → Steady R {X = Answer E A} (elim b [ true ↦ m | false ↦ n ])
    Steady-cases true m n h k = h
    Steady-cases false m n h k = k

  module _ {E A B : Type 0} where
    after_bind :
        (s : Db) (r : Answer E A) (v : World) (f : A → Act E B)
        → R s v.db
        → ((a : A) → Steady R (f a))
        → R s (◌>>=◌ (λ (_ : World). (r, v)) f v).1.db
    after_bind s (returns a) v f h k = P.then_ s v.db (f a v).1.db h ((k a).at v)
    after_bind s (raises e) v f h k = h

    pub Steady-bind :
        (m : Act E A) (f : A → Act E B)
        → Steady R m
        → ((a : A) → Steady R (f a))
        → Steady R (m >>= f)
    Steady-bind m f h k = record { at = λ w. after_bind w.db (m w).0 (m w).1 f (h.at w) k }

  module _ {E F A : Type 0} where
    after_catch :
        (s : Db) (r : Answer E A) (v : World) (f : E → Act F A)
        → R s v.db
        → ((e : E) → Steady R (f e))
        → R s (catch (λ (_ : World). (r, v)) f v).1.db
    after_catch s (returns a) v f h k = h
    after_catch s (raises e) v f h k = P.then_ s v.db (f e v).1.db h ((k e).at v)

    pub Steady-catch :
        (m : Act E A) (f : E → Act F A)
        → Steady R m
        → ((e : E) → Steady R (f e))
        → Steady R (catch m f)
    Steady-catch m f h k = record { at = λ w. after_catch w.db (m w).0 (m w).1 f (h.at w) k }

  -- the same for the calls of the worker
  module _ {A B : Type 0} where
    after_job :
        (s : Db) (r : Result A) (v : World) (f : A → Job B)
        → R s v.db
        → ((a : A) → Steady R (f a))
        → R s (Jobs.◌>>=◌ (λ (_ : World). (r, v)) f v).1.db
    after_job s (ok a) v f h k = P.then_ s v.db (f a v).1.db h ((k a).at v)
    after_job s (err e) v f h k = h

    pub Steady-job_bind :
        (m : Job A) (f : A → Job B)
        → Steady R m
        → ((a : A) → Steady R (f a))
        → Steady R (Jobs.◌>>=◌ m f)
    Steady-job_bind m f h k = record { at = λ w. after_job w.db (m w).0 (m w).1 f (h.at w) k }

  module _ {A : Type 0} where
    after_job_catch :
        (s : Db) (r : Result A) (v : World) (f : Code → Job A)
        → R s v.db
        → ((e : Code) → Steady R (f e))
        → R s (Jobs.catch (λ (_ : World). (r, v)) f v).1.db
    after_job_catch s (ok a) v f h k = h
    after_job_catch s (err e) v f h k = P.then_ s v.db (f e v).1.db h ((k e).at v)

    pub Steady-job_catch :
        (m : Job A) (f : Code → Job A)
        → Steady R m
        → ((e : Code) → Steady R (f e))
        → Steady R (Jobs.catch m f)
    Steady-job_catch m f h k = record {
      at = λ w. after_job_catch w.db (m w).0 (m w).1 f (h.at w) k;
    }

    pub Steady-job_if :
        (b : Bool) (m n : Job A) → Steady R m → Steady R n → Steady R (if b then m else n)
    Steady-job_if true m n h k = h
    Steady-job_if false m n h k = k

  module _ (env : Env) (quiet : OthersKeep R env) where
    pub Steady-tick : Steady R (tick env)
    unfolding tick
    Steady-tick = record { at = λ w. P.same w.db }

    after_fault :
        {A : Type 0} (o : Option Code) (m : Tx A) (s : Db)
        → Keeps R m
        → R s (Jobs.attempt_call env o m s).1
    after_fault none m s k = Keeps-transaction P m s k
    after_fault (some e) m s k = P.same s

    pub Steady-call :
        {A : Type 0} (m : Clock → Tx A) → ((now : Clock) → Keeps R (m now)) → Steady R (call env m)
    unfolding call
    Steady-call m k = record {
      at = λ w.
          let s = env.others w.transactions w.db in
          P.then_ w.db s _ (quiet.others w.transactions w.db) (
            after_fault (env.fault w.transactions) (m (env.clock w.readings)) s
              (k (env.clock w.readings)));
    }
