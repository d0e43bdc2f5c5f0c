-- ===== src/Api/Verified.antt =====
-- session.py, BrowserSessionAuthority.verify: the sessions that it returns.
use mathlib.Core.List.{Memᴰ}
use mathlib.Core.Path.{subst}
use failroom.Prelude.{
  ℕ, ◌+◌, ◌<◌, ◌≡◌, refl, sym, ap, ◌∙◌, List, [], Option, none, some, String, inl, inr, Bool-cases,
  arith,
}
use failroom.Prelude.Answers.{returns}
use failroom.StateStore.Models.{UserIdentity, aware, naive, Clock}
use failroom.StateStore.Libs.{Libs}
use failroom.Api.Authentication.{clock}
use failroom.Api.Sessions.{
  Session, Settings, SessionCall, opens, Table, get, verify, with_clock, found_session, is_token,
  run,
}
use failroom.Api.Table.{Every-get}
use failroom.Api.Opened.{Origin, run-Origin}

-- a session of the table under the token's digest, that has not expired
record Found ⦃lib : Libs⦄ (token : String) (now : Clock) (t : Table) (i : UserIdentity)
    : Type 0 where
  session : Session
  held : get (lib.sha256 token) t ≡ some session
  identity : session.identity ≡ i
  current : ℕ
  read : now ≡ some (aware current)
  alive : current < session.expires_at

-- A call of `open` for the identity, under the token's digest, whose credential and whose lifetime
-- have not run out.
pub record Opened ⦃lib : Libs⦄ (o : Settings) (cs : List SessionCall) (token : String) (now : Clock)
    (i : UserIdentity) : Type 0 where
  pub drawn : String
  pub credential_expires_at : ℕ
  pub opened_at : ℕ
  pub called : Memᴰ (opens i (aware credential_expires_at) (some (aware opened_at)) drawn) cs
  pub digest : lib.sha256 drawn ≡ lib.sha256 token
  pub current : ℕ
  pub read : now ≡ some (aware current)
  pub credential : current < credential_expires_at
  pub lifetime : current < opened_at + o.lifetime

module _ ⦃lib : Libs⦄ where
  found_session-Found :
      (token : String) (now : Clock) (current : ℕ) (f : Option Session) (t : Table)
      (i : UserIdentity)
      → now ≡ some (aware current)
      → get (lib.sha256 token) t ≡ f
      → (found_session (lib.sha256 token) current f t).0 ≡ returns i
      → Found token now t i
  found_session-Found token now current none t i r g e = ground arith
  found_session-Found token now current (some s) t i r g e = record {
    session = s;
    held = g;
    identity = ground arith;
    current = current;
    read = r;
    alive = ground arith;
  }

  read-Found :
      (token : String) (now : Clock) (t : Table) (i : UserIdentity)
      → (with_clock
          (clock now)
          (λ current u. found_session (lib.sha256 token) current (get (lib.sha256 token) u) u)
          t).0
        ≡ returns i
      → Found token now t i
  unfolding clock
  read-Found token none t i e = ground arith
  read-Found token (some naive) t i e = ground arith
  read-Found token (some (aware current)) t i e =
      found_session-Found token (some (aware current)) current (get (lib.sha256 token) t) t i refl
        refl e

  verify-Found :
      (token : String) (now : Clock) (t : Table) (i : UserIdentity)
      → (verify token now t).0 ≡ returns i
      → Found token now t i
  unfolding verify
  verify-Found token now t i e = elim (Bool-cases (is_token token)) [
    | inl shaped ↦ read-Found token now t i (ground arith)
    | inr other ↦ ground arith
  ]

  opened_by :
      (o : Settings) (cs : List SessionCall) (token : String) (now : Clock) (i : UserIdentity)
      (s : Session) (k : String) (current : ℕ)
      → k ≡ lib.sha256 token
      → Origin o cs (k, s)
      → s.identity ≡ i
      → now ≡ some (aware current)
      → current < s.expires_at
      → Opened o cs token now i
  opened_by o cs token now i s k current ke g si r alive =
      let same : ◌≡◌ {A = SessionCall}
          (opens s.identity (aware g.credential_expires_at) (some (aware g.opened_at)) g.token)
          (opens i (aware g.credential_expires_at) (some (aware g.opened_at)) g.token) =
        ap (λ j. opens j (aware g.credential_expires_at) (some (aware g.opened_at)) g.token) si in
      record {
        drawn = g.token;
        credential_expires_at = g.credential_expires_at;
        opened_at = g.opened_at;
        called = subst (λ c. Memᴰ c cs) same g.called;
        digest = sym g.digest ∙ ke;
        current = current;
        read = r;
        credential = omega (arith, alive, g.credential);
        lifetime = omega (arith, alive, g.lifetime);
      }

  -- After any calls from an empty table, a token that verifies as an identity has the digest of a
  -- token that a call of `open` drew for this identity, and the clock has reached neither the
  -- deadline of the credential that opened the session nor the end of its lifetime.
  pub verify-Opened :
      (o : Settings) (cs : List SessionCall) (token : String) (now : Clock) (i : UserIdentity)
      → (verify token now (run o cs [])).0 ≡ returns i
      → Opened o cs token now i
  verify-Opened o cs token now i e =
      let f = verify-Found token now (run o cs []) i e in
      let (k, ke, origin) =
        Every-get (Origin o cs) (lib.sha256 token) (run o cs []) f.session f.held
          (run-Origin o cs cs [] (λ c m. m) tt) in
      opened_by o cs token now i f.session k f.current ke origin f.identity f.read f.alive
