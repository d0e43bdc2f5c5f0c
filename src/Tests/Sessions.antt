-- ===== src/Tests/Sessions.antt =====
-- The theorems on bearer credentials and browser sessions, at concrete calls.
use Prim.Native.String.{String}
use failroom.Prelude.{
  ℕ, suc, List, [], ◌∷◌, Option, some, none, ◌≡◌, ◌≤◌, ◌<◌, refl, true, arith, length, text_beq,
}
use failroom.Prelude.Answers.{returns, raises}
use failroom.Prelude.Tables.{keep}
use failroom.StateStore.Models.{aware}
use failroom.Api.Authentication.{
  required, Credential, Credentials, credential, clock, after_prefix, match_credential,
}
use failroom.Api.Bearer.{Shown, credential-Shown}
use failroom.Api.Sessions.{
  Settings, Session, IssuedSession, SessionCall, opens, verifies, closes, Table, run, verify, close,
  open_session, open_at, admit, evict, soonest, remove, assign, get, unexpired, is_token, step,
}
use failroom.Api.Evicting.{evict-ends, run-Bounded}
use failroom.Api.Verified.{Opened, verify-Opened}
use failroom.Api.Lifetimes.{verify-open_session, verify-close}
use failroom.Tests.Data.{plain, alice, at, pad}

abbrev bearer : String
bearer = "abcdefghijklmnopqrstuvwxyz0123456789"

abbrev credentials : Credentials
credentials =
    (
      "00000000000000000000000000000000000000000000000000000000000000ff",
      record { identity = alice; expires_at = 5 },
    )
    ∷ (pad 64 bearer, record { identity = alice; expires_at = 100 })
    ∷ []

abbrev alices : Credential
alices = record { identity = alice; expires_at = 100 }

accepted :
    credential credentials (at 50) "Bearer abcdefghijklmnopqrstuvwxyz0123456789" ≡ returns alices
unfolding credential clock after_prefix match_credential text_beq
accepted = refl

credential-Shown_example :
    Shown credentials (at 50) "Bearer abcdefghijklmnopqrstuvwxyz0123456789" alices
credential-Shown_example =
    credential-Shown credentials (at 50) "Bearer abcdefghijklmnopqrstuvwxyz0123456789" alices
      accepted

abbrev settings : Settings
settings = record { lifetime = 60000000; max_sessions = 2 }

abbrev token : String
token = "abcdefghijklmnopqrstuvwxyz0123456789ABCDEFG"

abbrev second : String
second = "ZYXdefghijklmnopqrstuvwxyz0123456789ABCDEFG"

abbrev until : ℕ → Session
until t = record { identity = alice; expires_at = t }

abbrev three : Table
three = ("a", until 30) ∷ ("b", until 10) ∷ ("c", until 20) ∷ []

evict-ends_example : (length (evict 5 2 three) < 2) × (evict 5 2 three ≡ evict 3 2 three)
evict-ends_example = evict-ends 2 5 three (omega arith) (omega arith)

abbrev calls : List SessionCall
calls =
    opens alice (aware 90000000) (at 1000000) token
    ∷ verifies second (at 2000000)
    ∷ opens alice (aware 90000000) (at 3000000) second
    ∷ closes second
    ∷ []

run-Bounded_example : length (run settings calls []) ≤ 2
run-Bounded_example = run-Bounded settings (omega arith) calls [] (omega arith)

verified : (verify token (at 4000000) (run settings calls [])).0 ≡ returns alice
unfolding run step verify close open_session open_at admit evict soonest remove assign get unexpired
    is_token keep clock text_beq
verified = refl

verify-Opened_example : Opened settings calls token (at 4000000) alice
verify-Opened_example = verify-Opened settings calls token (at 4000000) alice verified

abbrev issued : IssuedSession
issued = record { token = token; expires_at = 61000000; lifetime_seconds = 60 }

opened : (open_session settings alice (aware 90000000) (at 1000000) token []).0 ≡ returns issued
unfolding open_session open_at admit evict assign unexpired keep clock
opened = refl

token_valid : is_token token ≡ true
unfolding is_token
token_valid = refl

verify-open_session_example :
    (verify token
      (at 60999999)
      (open_session settings alice (aware 90000000) (at 1000000) token []).1).0
    ≡ returns alice
verify-open_session_example =
    verify-open_session settings alice (aware 90000000) (at 1000000) token [] issued 60999999
      token_valid opened (omega arith)

apart : text_beq (plain.sha256 second) (plain.sha256 token) ≡ failroom.Prelude.false
unfolding text_beq
apart = refl

verify-close_example :
    (verify token (at 4000000) (
      run settings
        (opens alice (aware 90000000) (at 3000000) second ∷ verifies token (at 3500000) ∷ [])
        (close token (run settings calls [])))).0
    ≡ raises required
verify-close_example =
    verify-close settings token
      (opens alice (aware 90000000) (at 3000000) second ∷ verifies token (at 3500000) ∷ [])
      (at 4000000) (run settings calls []) (apart, (tt, tt))
