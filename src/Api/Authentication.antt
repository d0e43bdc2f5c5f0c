-- ===== src/Api/Authentication.antt =====
-- authentication.py: the clock, and hashed bearer credentials.
use Prim.Native.Char.{code}
use Prim.Native.String.{String}
use failroom.Prelude.{
  ℕ, Bool, List, [], ◌∷◌, Option, none, some, leb, nat_beq, text_beq, if◌then◌else◌, length, ◌&&◌,
}
use failroom.Prelude.Text.{codes, all, is_hex_of}
use failroom.Prelude.Answers.{Answer, returns, raises, ◌>>=◌}
use failroom.StateStore.Models.{UserIdentity, Datetime, aware, naive, Clock}
use failroom.StateStore.Libs.{Libs}

-- the codes of AuthenticationError
pub data AuthenticationCode : Type 0 where
  required expired invalid_configuration : AuthenticationCode

-- `_clock`
unfoldable pub clock : Clock → Answer AuthenticationCode ℕ
clock none = raises required
clock (some naive) = raises required
clock (some (aware t)) = returns t

-- BearerCredential, as it is configured
pub record BearerCredential : Type 0 where
  pub identity : UserIdentity
  pub expires_at : Datetime

-- BearerCredential, with its deadline as an instant
pub record Credential : Type 0 where
  pub identity : UserIdentity
  pub expires_at : ℕ

abbrev pub Credentials : Type 0
Credentials = List (String × Credential)

-- `BearerIdentityVerifier.__init__`, entry by entry
unfoldable pub load_entry :
    String × BearerCredential → Answer AuthenticationCode (String × Credential)
load_entry (digest, c) =
    if is_hex_of 64 digest
    then elim c.expires_at [
      | naive ↦ raises invalid_configuration
      | aware t ↦ returns (digest, record { identity = c.identity; expires_at = t })
    ]
    else raises invalid_configuration

unfoldable pub load_all : List (String × BearerCredential) → Answer AuthenticationCode Credentials
load_all [] = returns []
load_all (e ∷ es) = do c ← load_entry e; cs ← load_all es; returns (c ∷ cs)

unfoldable pub configure : List (String × BearerCredential) → Answer AuthenticationCode Credentials
configure [] = raises invalid_configuration
configure (e ∷ es) = load_all (e ∷ es)

-- `authorization[len(_PREFIX):]`, where it starts with the prefix
unfoldable pub after_prefix : String → String → Option String
after_prefix String.[] s = some s
after_prefix (String.◌∷◌ p ps) String.[] = none
after_prefix (String.◌∷◌ p ps) (String.◌∷◌ c s) =
    let rest = after_prefix ps s in if nat_beq (code p) (code c) then rest else none

abbrev pub is_bearer_token : String → Bool
is_bearer_token s =
    all (λ c. leb c 127) (codes s) && leb 32 (length (codes s)) && leb (length (codes s)) 4096

-- `for digest, credential in …`: the clock is read for the credential that matches
unfoldable pub match_credential :
    String → Clock → Credentials → Answer AuthenticationCode Credential
match_credential candidate now [] = raises required
match_credential candidate now ((digest, c) ∷ cs) =
    let rest = match_credential candidate now cs in
    if text_beq candidate digest
    then (clock now >>= λ current. if leb c.expires_at current then raises expired else returns c)
    else rest

module _ ⦃lib : Libs⦄ where
  abbrev pub token_credential :
      Clock → Credentials → Option String → Answer AuthenticationCode Credential
  token_credential now cs none = raises required
  token_credential now cs (some token) =
      if is_bearer_token token then match_credential (lib.sha256 token) now cs else raises required

  -- `credential`
  unfoldable pub credential : Credentials → Clock → String → Answer AuthenticationCode Credential
  credential cs now authorization = token_credential now cs (after_prefix "Bearer " authorization)

  -- `verify`
  unfoldable pub verify : Credentials → Clock → String → Answer AuthenticationCode UserIdentity
  verify cs now authorization = do c ← credential cs now authorization; returns c.identity
