-- ===== src/Api/Opened.antt =====
-- session.py: the sessions of the table, and the calls that opened them.
use Prim.Native.Nat.{◌/◌}
use mathlib.Core.List.{Memᴰ}
use failroom.Prelude.{
  ℕ, zero, suc, ◌+◌, ◌-◌, ◌≤◌, ◌≡◌, refl, not, branches, List, [], ◌∷◌, Option, none, some, length,
  String, text_beq, arith, ltb, leb, min,
}
use failroom.Prelude.Answers.{Answer, returns, raises}
use failroom.StateStore.Models.{UserIdentity, aware, naive, Clock}
use failroom.StateStore.Libs.{Libs}
use failroom.Api.Authentication.{AuthenticationCode, clock}
use failroom.Api.Sessions.{
  Session, Settings, IssuedSession, SessionCall, opens, verifies, closes, Table, get, remove,
  soonest, drop_soonest, evict, unexpired, admit, open_at, open_session, verify, with_clock,
  found_session, is_token, close, step, run,
}
use failroom.Api.Table.{Every, Every-keep, Every-assign}

-- A row that a call of `open` made, with the bounds that the call set.
pub record Origin ⦃lib : Libs⦄ (o : Settings) (cs : List SessionCall) (p : String × Session)
    : Type 0 where
  pub token : String
  pub credential_expires_at : ℕ
  pub opened_at : ℕ
  pub called :
      Memᴰ (opens p.1.identity (aware credential_expires_at) (some (aware opened_at)) token) cs
  pub digest : p.0 ≡ lib.sha256 token
  pub credential : p.1.expires_at ≤ credential_expires_at
  pub lifetime : p.1.expires_at ≤ opened_at + o.lifetime

Every-drop : (P : String × Session → Type 0) (t : Table) → Every P t → Every P (drop_soonest t)
unfolding remove
Every-drop P [] h = h
Every-drop P (p ∷ t) h = Every-keep P (λ q. not (text_beq q.0 (soonest p t).0)) (p ∷ t) h

Every-evict :
    (P : String × Session → Type 0) (n max : ℕ) (t : Table) → Every P t → Every P (evict n max t)
unfolding evict
Every-evict P zero max t h = h
Every-evict P (suc n) max t h =
    branches (Every P) (leb max (length t)) (evict n max (drop_soonest t)) t
      (λ _. Every-evict P n max (drop_soonest t) (Every-drop P t h)) (λ _. h)

module _ ⦃lib : Libs⦄ where
  Every-admit :
      (P : String × Session → Type 0) (max current : ℕ) (d : String) (s : Session) (t : Table)
      → P (d, s)
      → Every P t
      → Every P (admit max current d s t)
  unfolding admit unexpired
  Every-admit P max current d s t h k =
      let live = unexpired current t in
      Every-assign P d s (evict (length live) max live) h
        (Every-evict P (length live) max live (Every-keep P (λ p. ltb current p.1.expires_at) t k))

  Every-found :
      (P : String × Session → Type 0) (d : String) (current : ℕ) (f : Option Session) (t : Table)
      → Every P t
      → Every P (found_session d current f t).1
  unfolding remove
  Every-found P d current none t h = h
  Every-found P d current (some s) t h =
      branches (λ (r : Answer AuthenticationCode UserIdentity × Table). Every P r.1)
        (leb s.expires_at current) _ _ (λ _. Every-keep P (λ p. not (text_beq p.0 d)) t h) (λ _. h)

  module _ (o : Settings) (all : List SessionCall) where
    open_at-Origin :
        (i : UserIdentity) (e : ℕ) (token : String) (current : ℕ) (t : Table)
        → Memᴰ (opens i (aware e) (some (aware current)) token) all
        → Every (Origin o all) t
        → Every (Origin o all) (open_at o i e token current t).1
    unfolding open_at
    open_at-Origin i e token current t m h =
        branches (λ (r : Answer AuthenticationCode IssuedSession × Table). Every (Origin o all) r.1)
          (ltb ((min (current + o.lifetime) e - current) / 1000000) 1) _ _ (λ _. h)
          (λ _.
            Every-admit (Origin o all) o.max_sessions current (lib.sha256 token)
              (record { identity = i; expires_at = min (current + o.lifetime) e }) t
              (record {
                token = token;
                credential_expires_at = e;
                opened_at = current;
                called = m;
                digest = refl;
                credential = omega arith;
                lifetime = omega arith;
              })
              h)

    verify-Origin :
        (token : String) (now : Clock) (t : Table)
        → Every (Origin o all) t
        → Every (Origin o all) (verify token now t).1
    unfolding verify
    verify-Origin token now t h =
        branches (λ (r : Answer AuthenticationCode UserIdentity × Table). Every (Origin o all) r.1)
          (is_token token) _ _ (λ _. read (clock now)) (λ _. h)
      where
        read :
            (r : Answer AuthenticationCode ℕ)
            → Every
                (Origin o all)
                (with_clock r
                  (λ current u.
                    found_session (lib.sha256 token) current (get (lib.sha256 token) u) u)
                  t).1
        read (returns current) =
            Every-found (Origin o all) (lib.sha256 token) current (get (lib.sha256 token) t) t h
        read (raises x) = h

    step-Origin :
        (c : SessionCall) (t : Table)
        → Memᴰ c all
        → Every (Origin o all) t
        → Every (Origin o all) (step o c t)
    unfolding step open_session close remove clock
    step-Origin (opens i naive now token) t m h = h
    step-Origin (opens i (aware e) none token) t m h = h
    step-Origin (opens i (aware e) (some naive) token) t m h = h
    step-Origin (opens i (aware e) (some (aware current)) token) t m h =
        open_at-Origin i e token current t m h
    step-Origin (verifies token now) t m h = verify-Origin token now t h
    step-Origin (closes token) t m h =
        branches (Every (Origin o all)) (is_token token) _ _
          (λ _. Every-keep (Origin o all) (λ p. not (text_beq p.0 (lib.sha256 token))) t h) (λ _. h)

    pub run-Origin :
        (cs : List SessionCall) (t : Table)
        → ((c : SessionCall) → Memᴰ c cs → Memᴰ c all)
        → Every (Origin o all) t
        → Every (Origin o all) (run o cs t)
    unfolding run
    run-Origin [] t sub h = h
    run-Origin (c ∷ cs) t sub h =
        run-Origin cs (step o c t) (λ d m. sub d (Memᴰ.tail m))
          (step-Origin c t (sub c (Memᴰ.head refl)) h)
