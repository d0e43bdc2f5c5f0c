-- ===== src/Api/Sessions.antt =====
-- session.py, BrowserSessionAuthority: a bounded table of sessions under the digests of their tokens.
use Prim.Native.Nat.{◌/◌}
use Prim.Native.String.{String}
use failroom.Prelude.{
  ℕ, zero, suc, ◌+◌, ◌-◌, min, Bool, List, [], ◌∷◌, Option, none, some, leb, ltb, nat_beq, text_beq,
  if◌then◌else◌, length, ◌&&◌, ◌||◌, not,
}
use failroom.Prelude.Text.{codes, all}
use failroom.Prelude.Tables.{keep}
use failroom.Prelude.Answers.{Answer, returns, raises}
use failroom.StateStore.Models.{UserIdentity, Datetime, aware, naive, Clock}
use failroom.StateStore.Libs.{Libs}
use failroom.Api.Authentication.{
  AuthenticationCode, required, expired, invalid_configuration, clock,
}

-- `_Session`; instants are counts of microseconds
pub record Session : Type 0 where
  pub identity : UserIdentity
  pub expires_at : ℕ

-- IssuedSession
pub record IssuedSession : Type 0 where
  pub token : String
  pub expires_at : ℕ
  pub lifetime_seconds : ℕ

-- what the constructor keeps
pub record Settings : Type 0 where
  pub lifetime : ℕ
  pub max_sessions : ℕ

-- `__init__`
unfoldable pub settings : ℕ → ℕ → Answer AuthenticationCode Settings
settings lifetime max_sessions =
    if leb 60000000 lifetime
      && leb lifetime 43200000000
      && leb 1 max_sessions
      && leb max_sessions 64
    then returns (record { lifetime = lifetime; max_sessions = max_sessions })
    else raises invalid_configuration

-- `_sessions`, a dictionary in insertion order
abbrev pub Table : Type 0
Table = List (String × Session)

unfoldable pub get : String → Table → Option Session
get d [] = none
get d ((k, s) ∷ t) = if text_beq k d then some s else get d t

-- `self._sessions[d] = s`
unfoldable pub assign : String → Session → Table → Table
assign d s [] = (d, s) ∷ []
assign d s ((k, x) ∷ t) =
    let rest = assign d s t in if text_beq k d then (d, s) ∷ t else (k, x) ∷ rest

-- `del self._sessions[d]`
unfoldable pub remove : String → Table → Table
remove d = keep (λ p. not (text_beq p.0 d))

-- the sessions that have not expired
unfoldable pub unexpired : ℕ → Table → Table
unexpired current = keep (λ p. ltb current p.1.expires_at)

-- `min(self._sessions, key=…)`: the first of those that expire first
unfoldable pub soonest : String × Session → Table → String × Session
soonest p [] = p
soonest p (q ∷ t) = soonest (if ltb q.1.expires_at p.1.expires_at then q else p) t

abbrev pub drop_soonest : Table → Table
drop_soonest [] = []
drop_soonest (p ∷ t) = remove (soonest p t).0 (p ∷ t)

-- `while len(self._sessions) >= self._max_sessions: …`, on fuel
unfoldable pub evict : ℕ → ℕ → Table → Table
evict zero max t = t
evict (suc n) max t =
    let rest = evict n max (drop_soonest t) in if leb max (length t) then rest else t

-- [A-Za-z0-9_-]
abbrev pub is_token_char : ℕ → Bool
is_token_char c =
    leb b'A' c && leb c b'Z'
    || leb b'a' c && leb c b'z'
    || leb b'0' c && leb c b'9'
    || nat_beq c b'_'
    || nat_beq c b'-'

-- `_TOKEN.fullmatch(token)`
unfoldable pub is_token : String → Bool
is_token s = nat_beq (length (codes s)) 43 && all is_token_char (codes s)

-- A call, with what the clock and the random source give it.
pub data SessionCall : Type 0 where
  opens : UserIdentity → Datetime → Clock → String → SessionCall
  verifies : String → Clock → SessionCall
  closes : String → SessionCall

module _ ⦃lib : Libs⦄ where
  -- the table after the expired sessions, those that must go, and the new one
  unfoldable pub admit : ℕ → ℕ → String → Session → Table → Table
  admit max current d s t =
      let live = unexpired current t in assign d s (evict (length live) max live)

  -- `open`, once the clock is read: `token` is what `secrets.token_urlsafe` draws
  unfoldable pub open_at :
      Settings
      → UserIdentity
      → ℕ
      → String
      → ℕ
      → Table
      → Answer AuthenticationCode IssuedSession × Table
  open_at o identity credential_expires_at token current t =
      let expires_at = min (current + o.lifetime) credential_expires_at in
      let lifetime_seconds = (expires_at - current) / 1000000 in
      if ltb lifetime_seconds 1 then (raises expired, t) else (
        returns (record {
          token = token;
          expires_at = expires_at;
          lifetime_seconds = lifetime_seconds;
        }),
        admit o.max_sessions current (lib.sha256 token)
            (record { identity = identity; expires_at = expires_at }) t,
      )

  abbrev pub with_clock :
      {A : Type 0}
      → Answer AuthenticationCode ℕ
      → (ℕ → Table → Answer AuthenticationCode A × Table)
      → Table
      → Answer AuthenticationCode A × Table
  with_clock (raises e) f t = (raises e, t)
  with_clock (returns current) f t = f current t

  -- `open`
  unfoldable pub open_session :
      Settings
      → UserIdentity
      → Datetime
      → Clock
      → String
      → Table
      → Answer AuthenticationCode IssuedSession × Table
  open_session o identity naive now token t = (raises invalid_configuration, t)
  open_session o identity (aware e) now token t =
      with_clock (clock now) (open_at o identity e token) t

  abbrev pub found_session :
      String → ℕ → Option Session → Table → Answer AuthenticationCode UserIdentity × Table
  found_session d current none t = (raises required, t)
  found_session d current (some s) t =
      if leb s.expires_at current then (raises expired, remove d t) else (returns s.identity, t)

  -- `verify`
  unfoldable pub verify : String → Clock → Table → Answer AuthenticationCode UserIdentity × Table
  verify token now t =
      if is_token token
      then with_clock (clock now)
          (λ current u. found_session (lib.sha256 token) current (get (lib.sha256 token) u) u) t
      else (raises required, t)

  -- `close`
  unfoldable pub close : String → Table → Table
  close token t = if is_token token then remove (lib.sha256 token) t else t

  -- Threads reach the table one at a time, under the lock.
  unfoldable pub step : Settings → SessionCall → Table → Table
  step o (opens identity e now token) t = (open_session o identity e now token t).1
  step o (verifies token now) t = (verify token now t).1
  step o (closes token) t = close token t

  unfoldable pub run : Settings → List SessionCall → Table → Table
  run o [] t = t
  run o (c ∷ cs) t = run o cs (step o c t)
