-- ===== src/Api/Lifetimes.antt =====
-- session.py, BrowserSessionAuthority: verification after opening and after closing.
use failroom.Prelude.{
  ℕ, ◌+◌, ◌<◌, ◌≡◌, ap, ◌∙◌, true, false, not, List, [], ◌∷◌, Option, none, some, length, String,
  text_beq, arith, min,
}
use failroom.Prelude.Answers.{returns, raises}
use failroom.StateStore.Models.{UserIdentity, Datetime, aware, naive, Clock}
use failroom.StateStore.Libs.{Libs}
use failroom.Api.Authentication.{required, clock}
use failroom.Api.Sessions.{
  Session, Settings, IssuedSession, SessionCall, opens, verifies, closes, Table, get, remove, evict,
  drop_soonest, unexpired, admit, open_at, open_session, verify, found_session, is_token, close,
  step, run,
}
use failroom.Api.Table.{Every, get-assign, get-assign_other, get-keep-none, get-remove}

module _ ⦃lib : Libs⦄ where
  -- the session of the token that a call of `open` returned
  record Held (i : UserIdentity) (token : String) (issued : IssuedSession) (t : Table)
      : Type 0 where
    same : issued.token ≡ token
    held : get (lib.sha256 token) t ≡ some (record { identity = i; expires_at = issued.expires_at })

  open_at-Held :
      (o : Settings) (i : UserIdentity) (e : ℕ) (token : String) (current : ℕ) (t : Table)
      (issued : IssuedSession)
      → (open_at o i e token current t).0 ≡ returns issued
      → Held i token issued (open_at o i e token current t).1
  unfolding open_at admit
  open_at-Held o i e token current t issued h =
      let live = unexpired current t in
      let got =
        get-assign (lib.sha256 token)
          (record { identity = i; expires_at = min (current + o.lifetime) e })
          (evict (length live) o.max_sessions live) in
      record { same = ground arith; held = ground (arith, got) }

  open_session-Held :
      (o : Settings) (i : UserIdentity) (e : Datetime) (now : Clock) (token : String) (t : Table)
      (issued : IssuedSession)
      → (open_session o i e now token t).0 ≡ returns issued
      → Held i token issued (open_session o i e now token t).1
  unfolding open_session clock
  open_session-Held o i naive now token t issued h = ground arith
  open_session-Held o i (aware e) none token t issued h = ground arith
  open_session-Held o i (aware e) (some naive) token t issued h = ground arith
  open_session-Held o i (aware e) (some (aware current)) token t issued h =
      open_at-Held o i e token current t issued h

  verify_held :
      (token : String) (s : Session) (later : ℕ) (t : Table)
      → is_token token ≡ true
      → get (lib.sha256 token) t ≡ some s
      → later < s.expires_at
      → (verify token (some (aware later)) t).0 ≡ returns s.identity
  unfolding verify clock
  verify_held token s later t shaped g h = ground arith

  -- The token that `open` returns verifies as the identity that opened the session, at every
  -- instant before the deadline that `open` returns with it, where the token has the form that
  -- `verify` asks for.
  pub verify-open_session :
      (o : Settings) (i : UserIdentity) (e : Datetime) (now : Clock) (token : String) (t : Table)
      (issued : IssuedSession) (later : ℕ)
      → is_token token ≡ true
      → (open_session o i e now token t).0 ≡ returns issued
      → later < issued.expires_at
      → (verify issued.token (some (aware later)) (open_session o i e now token t).1).0 ≡ returns i
  verify-open_session o i e now token t issued later shaped h alive =
      let held = open_session-Held o i e now token t issued h in
      let answer =
        verify_held token (record { identity = i; expires_at = issued.expires_at }) later
          (open_session o i e now token t).1 shaped held.held alive in
      ap (λ s. (verify s (some (aware later)) (open_session o i e now token t).1).0) held.same
      ∙ answer

  get-drop-none : (d : String) (t : Table) → get d t ≡ none → get d (drop_soonest t) ≡ none
  unfolding remove
  get-drop-none d [] h = h
  get-drop-none d (p ∷ t) h = get-keep-none d _ (p ∷ t) h

  get-evict-none :
      (d : String) (n max : ℕ) (t : Table) → get d t ≡ none → get d (evict n max t) ≡ none
  unfolding evict
  get-evict-none d ℕ.zero max t h = h
  get-evict-none d (ℕ.suc n) max t h =
      ground (arith, get-evict-none d n max (drop_soonest t), get-drop-none d t)

  get-admit-none :
      (c : String) (max current : ℕ) (d : String) (s : Session) (t : Table)
      → text_beq d c ≡ false
      → get c t ≡ none
      → get c (admit max current d s t) ≡ none
  unfolding admit unexpired
  get-admit-none c max current d s t n h =
      let live = unexpired current t in
      get-assign_other c d s (evict (length live) max live) n
        (get-evict-none c (length live) max live (get-keep-none c _ t h))

  -- no call opens a session under the digest
  abbrev pub Unopened : String → SessionCall → Type 0
  Unopened d (opens i e now token) = text_beq (lib.sha256 token) d ≡ false
  Unopened d (verifies token now) = Unit {0}
  Unopened d (closes token) = Unit {0}

  open_at-gone :
      (c : String) (o : Settings) (i : UserIdentity) (e : ℕ) (token : String) (current : ℕ)
      (t : Table)
      → text_beq (lib.sha256 token) c ≡ false
      → get c t ≡ none
      → get c (open_at o i e token current t).1 ≡ none
  unfolding open_at
  open_at-gone c o i e token current t n h = ground (
    arith,
    get-admit-none c o.max_sessions current (lib.sha256 token)
        (record { identity = i; expires_at = min (current + o.lifetime) e }) t n h,
  )

  found-gone :
      (c d : String) (current : ℕ) (f : Option Session) (t : Table)
      → get c t ≡ none
      → get c (found_session d current f t).1 ≡ none
  unfolding remove
  found-gone c d current none t h = h
  found-gone c d current (some s) t h =
      ground (arith, get-keep-none c (λ p. not (text_beq p.0 d)) t h)

  verify-gone :
      (c token : String) (now : Clock) (t : Table)
      → get c t ≡ none
      → get c (verify token now t).1 ≡ none
  unfolding verify clock
  verify-gone c token none t h = ground arith
  verify-gone c token (some naive) t h = ground arith
  verify-gone c token (some (aware current)) t h =
      ground (arith, found-gone c (lib.sha256 token) current (get (lib.sha256 token) t) t h)

  step-gone :
      (c : String) (o : Settings) (call : SessionCall) (t : Table)
      → Unopened c call
      → get c t ≡ none
      → get c (step o call t) ≡ none
  unfolding step open_session close remove clock
  step-gone c o (opens i naive now token) t n h = h
  step-gone c o (opens i (aware e) none token) t n h = h
  step-gone c o (opens i (aware e) (some naive) token) t n h = h
  step-gone c o (opens i (aware e) (some (aware current)) token) t n h =
      open_at-gone c o i e token current t n h
  step-gone c o (verifies token now) t n h = verify-gone c token now t h
  step-gone c o (closes token) t n h =
      ground (arith, get-keep-none c (λ p. not (text_beq p.0 (lib.sha256 token))) t h)

  run-gone :
      (c : String) (o : Settings) (cs : List SessionCall) (t : Table)
      → Every (Unopened c) cs
      → get c t ≡ none
      → get c (run o cs t) ≡ none
  unfolding run
  run-gone c o [] t n h = h
  run-gone c o (call ∷ cs) t (n, ns) h =
      run-gone c o cs (step o call t) ns (step-gone c o call t n h)

  verify_gone :
      (token : String) (now : Clock) (t : Table)
      → (is_token token ≡ true → get (lib.sha256 token) t ≡ none)
      → (verify token now t).0 ≡ raises required
  unfolding verify clock
  verify_gone token none t h = ground arith
  verify_gone token (some naive) t h = ground arith
  verify_gone token (some (aware current)) t h = ground (arith, h)

  -- A token that was closed is refused from then on, after whatever calls, as long as none of them
  -- opens a session under the same digest.
  pub verify-close :
      (o : Settings) (token : String) (cs : List SessionCall) (now : Clock) (t : Table)
      → Every (Unopened (lib.sha256 token)) cs
      → (verify token now (run o cs (close token t))).0 ≡ raises required
  unfolding close
  verify-close o token cs now t n = verify_gone token now (run o cs (close token t)) λ shaped.
      run-gone (lib.sha256 token) o cs (close token t) n
        (ground (arith, get-remove (lib.sha256 token) t))
