-- ===== src/Api/Bearer.antt =====
-- authentication.py, BearerIdentityVerifier: the credential that answers a header.
use Prim.Native.String.{String}
use mathlib.Core.List.{Memᴰ}
use failroom.Prelude.{
  ℕ, ◌<◌, ◌≡◌, refl, true, [], ◌∷◌, Option, none, some, leb, text_beq, text_beq→eq, Bool-cases, inl,
  inr, arith, if◌then◌else◌,
}
use failroom.Prelude.Answers.{returns, raises, ◌>>=◌}
use failroom.StateStore.Models.{aware, naive, Clock}
use failroom.StateStore.Libs.{Libs}
use failroom.Api.Authentication.{
  expired, clock, Credential, Credentials, after_prefix, is_bearer_token, match_credential,
  token_credential, credential,
}

-- the credential of an answer is in the table under a digest, and the clock has not reached it
record Matches (candidate : String) (now : Clock) (cs : Credentials) (c : Credential) : Type 0 where
  member : Memᴰ (candidate, c) cs
  current : ℕ
  read : now ≡ some (aware current)
  alive : current < c.expires_at

-- what `verify` accepts
pub record Shown ⦃lib : Libs⦄ (cs : Credentials) (now : Clock) (authorization : String)
    (c : Credential) : Type 0 where
  pub token : String
  pub bearer : after_prefix "Bearer " authorization ≡ some token
  pub bounded : is_bearer_token token ≡ true
  pub member : Memᴰ (lib.sha256 token, c) cs
  pub current : ℕ
  pub read : now ≡ some (aware current)
  pub alive : current < c.expires_at

pair_eq :
    {x y : String} {a b : Credential} → x ≡ y → a ≡ b → ◌≡◌ {A = String × Credential} (x, b) (y, a)
pair_eq e f = cc

in_rest :
    {candidate : String} {now : Clock} {p : String × Credential} {cs : Credentials} {c : Credential}
    → Matches candidate now cs c
    → Matches candidate now (p ∷ cs) c
in_rest m = record {
  member = Memᴰ.tail m.member;
  current = m.current;
  read = m.read;
  alive = m.alive;
}

checked :
    (now : Clock) (a c : Credential)
    → (clock now >>= λ current. if leb a.expires_at current then raises expired else returns a)
      ≡ returns c
    → (current : ℕ) × (now ≡ some (aware current)) × (current < c.expires_at) × (a ≡ c)
unfolding clock
checked none a c e = ground arith
checked (some naive) a c e = ground arith
checked (some (aware t)) a c e = (t, refl, ground arith, ground arith)

match_credential-Matches :
    (candidate : String) (now : Clock) (cs : Credentials) (c : Credential)
    → match_credential candidate now cs ≡ returns c
    → Matches candidate now cs c
unfolding match_credential
match_credential-Matches candidate now [] c e = ground arith
match_credential-Matches candidate now ((digest, a) ∷ cs) c e =
    elim (Bool-cases (text_beq candidate digest)) [
      | inl same ↦
          let (t, read, alive, is) = checked now a c (ground arith) in
          let named = text_beq→eq candidate digest same in
          record { member = Memᴰ.head (pair_eq named is); current = t; read = read; alive = alive }
      | inr other ↦ in_rest (match_credential-Matches candidate now cs c (ground arith))
    ]

module _ ⦃lib : Libs⦄ where
  token_credential-Shown :
      (cs : Credentials) (now : Clock) (authorization : String) (o : Option String) (c : Credential)
      → after_prefix "Bearer " authorization ≡ o
      → token_credential now cs o ≡ returns c
      → Shown cs now authorization c
  token_credential-Shown cs now authorization none c b e = ground arith
  token_credential-Shown cs now authorization (some token) c b e =
      elim (Bool-cases (is_bearer_token token)) [
        | inl bounded ↦
            let m = match_credential-Matches (lib.sha256 token) now cs c (ground arith) in
            record {
              token = token;
              bearer = b;
              bounded = bounded;
              member = m.member;
              current = m.current;
              read = m.read;
              alive = m.alive;
            }
        | inr unbounded ↦ ground arith
      ]

  -- A credential that `credential` returns is a configured one: the header carries, behind its
  -- prefix, a token of bounded length that the credential's digest is the SHA-256 of, and the
  -- clock has not reached the credential's deadline.
  pub credential-Shown :
      (cs : Credentials) (now : Clock) (authorization : String) (c : Credential)
      → credential cs now authorization ≡ returns c
      → Shown cs now authorization c
  unfolding credential
  credential-Shown cs now authorization c e =
      token_credential-Shown cs now authorization (after_prefix "Bearer " authorization) c refl e
