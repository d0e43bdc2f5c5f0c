-- ===== src/StateStore/Evolves/Attempts.antt =====
-- backend.py: its methods, against Steps.
use failroom.Prelude.{String, Option, none, some, List, [], ◌∷◌, ℕ}
use failroom.StateStore.Models.{
  UserIdentity, ServiceIdentity, ResourceRef, Datetime, Clock, ℤ, State, CapabilityClaims,
}
use failroom.StateStore.Rows.{AttemptRow}
use failroom.StateStore.Tx.Rules.{Keeps, Keeps-bind}
use failroom.StateStore.Libs.{Libs}
use failroom.StateStore.Backend.{
  create, leave, publish_ready, publish_runtime_state, begin_reset, publish_reset_ready, fail_reset,
  expire, stop_all, complete_cleanup, consume, select_active, deny_expired,
}
use failroom.StateStore.Backend.Live.{stop, live}
use failroom.StateStore.Evolves.Steps.{Steps, Steps-IsPreorder}
use failroom.StateStore.Evolves.Shared.{evolving}

Keeps-stop : (row : AttemptRow) (now : ℕ) → Keeps Steps (stop row now)
unfolding stop
Keeps-stop row now = search evolving

Keeps-live : (row : AttemptRow) (now : ℕ) → Keeps Steps (live row now)
unfolding live
Keeps-live row now = search (evolving, Keeps-stop) depth 10

Keeps-deny_expired : (row : AttemptRow) (now : ℕ) → Keeps Steps (deny_expired row now)
unfolding deny_expired
Keeps-deny_expired row now = search (evolving, Keeps-stop) depth 10

Keeps-select_active : (id : Option String) → Keeps Steps (select_active id)
Keeps-select_active none = search evolving
Keeps-select_active (some id) = search evolving

Keeps-stop_all : (rows : List AttemptRow) (now : ℕ) → Keeps Steps (stop_all rows now)
unfolding stop_all
Keeps-stop_all [] now = search evolving
Keeps-stop_all (row ∷ rows) now =
    Keeps-bind Steps-IsPreorder (stop row now) (λ _. stop_all rows now) (Keeps-stop row now)
      (λ _. Keeps-stop_all rows now)

module _ ⦃lib : Libs⦄ where
  pub Keeps-create :
      (i : UserIdentity) (room key : String) (expires_at : Datetime) (now : Clock)
      → Keeps Steps (create i room key expires_at now)
  unfolding create
  Keeps-create i room key expires_at now = search evolving depth 30

  pub Keeps-leave :
      (i : UserIdentity) (ref : ResourceRef) (key : String) (now : Clock)
      → Keeps Steps (leave i ref key now)
  unfolding leave
  Keeps-leave i ref key now = search (evolving, Keeps-stop) depth 30

  pub Keeps-publish_ready :
      (i : ServiceIdentity) (ref : ResourceRef) (v : ℤ) (key : String) (now : Clock)
      → Keeps Steps (publish_ready i ref v key now)
  unfolding publish_ready
  Keeps-publish_ready i ref v key now = search (evolving, Keeps-live) depth 30

  pub Keeps-publish_runtime_state :
      (source target : State) (i : ServiceIdentity) (ref : ResourceRef) (v : ℤ) (key : String)
      (now : Clock)
      → Keeps Steps (publish_runtime_state source target i ref v key now)
  unfolding publish_runtime_state
  Keeps-publish_runtime_state source target i ref v key now = search (evolving, Keeps-live) depth 30

  pub Keeps-begin_reset :
      (i : UserIdentity) (ref : ResourceRef) (key : String) (now : Clock)
      → Keeps Steps (begin_reset i ref key now)
  unfolding begin_reset
  Keeps-begin_reset i ref key now = search (evolving, Keeps-deny_expired) depth 30

  pub Keeps-publish_reset_ready :
      (i : ServiceIdentity) (ref : ResourceRef) (v : ℤ) (key : String) (now : Clock)
      → Keeps Steps (publish_reset_ready i ref v key now)
  unfolding publish_reset_ready
  Keeps-publish_reset_ready i ref v key now =
      search (evolving, Keeps-deny_expired, Keeps-select_active) depth 30

  pub Keeps-fail_reset :
      (i : ServiceIdentity) (ref : ResourceRef) (v : ℤ) (key : String) (now : Clock)
      → Keeps Steps (fail_reset i ref v key now)
  unfolding fail_reset
  Keeps-fail_reset i ref v key now = search (evolving, Keeps-deny_expired) depth 30

  pub Keeps-expire :
      (i : ServiceIdentity) (now : Clock) (limit : ℕ) → Keeps Steps (expire i now limit)
  unfolding expire
  Keeps-expire i now limit = search (evolving, Keeps-stop_all) depth 30

  pub Keeps-complete_cleanup :
      (i : ServiceIdentity) (ref : ResourceRef) (key : String) (now : Clock)
      → Keeps Steps (complete_cleanup i ref key now)
  unfolding complete_cleanup
  Keeps-complete_cleanup i ref key now = search (evolving, Keeps-stop) depth 30

  pub Keeps-consume :
      (i : ServiceIdentity) (claims : CapabilityClaims) (now : Clock)
      → Keeps Steps (consume i claims now)
  unfolding consume
  Keeps-consume i claims now = search (evolving, Keeps-live) depth 40
