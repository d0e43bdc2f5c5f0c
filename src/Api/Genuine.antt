-- ===== src/Api/Genuine.antt =====
-- capability.py, CapabilityCodec.verify: the claims that it returns.
use Prim.Native.String.{String}
use mathlib.Core.Path.{subst}
use failroom.Prelude.{
  ℕ, ◌+◌, ◌-◌, ◌≤◌, ◌<◌, ◌≡◌, refl, sym, ap, ◌∙◌, Bool, true, not, ◌&&◌, List, [], ◌∷◌, Option,
  none, some, leb, ltb, arith, nat_beq→eq, text_beq→eq,
}
use failroom.Prelude.Answers.{
  Answer, returns, raises, ◌>>=◌, bind-returns, unless-returns, raise_when-returns,
}
use failroom.StateStore.Models.{CapabilityClaims, ResourceRef, aware, naive, Clock, ℤ, pos, negsuc}
use failroom.Api.Capability.{
  Codec, CapabilityCode, Bytes, bytes_beq, names_valid, is_scope, is_instant, timestamp, clock,
  in_time, in_time_of, three_parts, or_invalid, decode_segment, signing_input, signed_claims,
  claims_of, claims_in, read_token, verify, instant, fields_in, text_in, int_in, lookup, Scalar,
  is_header,
}

-- every answer that is returned has a property
record Leads {E A : Type 0} (P : A → Type 0) (m : Answer E A) : Type 0 where
  at : (a : A) → m ≡ returns a → P a

Leads-bind :
    {E A B : Type 0} {P : B → Type 0} (m : Answer E A) (f : A → Answer E B)
    → ((a : A) → Leads P (f a))
    → Leads P (m >>= f)
Leads-bind (returns a) f h = record { at = (h a).at }
Leads-bind (raises e) f h = record { at = λ b k. ground arith }

bytes_beq→eq : (x y : Bytes) → bytes_beq x y ≡ true → x ≡ y
bytes_beq→eq [] [] h = refl
bytes_beq→eq [] (y ∷ ys) h = ground arith
bytes_beq→eq (x ∷ xs) [] h = ground arith
bytes_beq→eq (x ∷ xs) (y ∷ ys) h = ground (arith, nat_beq→eq x y, bytes_beq→eq xs ys)

-- the token's third part decodes to the signature of the other two
pub record Signed (codec : Codec) (token : String) : Type 0 where
  pub head : String
  pub payload : String
  pub signature : String
  pub parts : three_parts token ≡ some (head, payload, signature)
  pub genuine :
      decode_segment codec signature ≡ returns (codec.sign (signing_input codec head payload))

-- what a verified token shows
pub record Genuine (codec : Codec) (token : String) (now : Clock) (c : CapabilityClaims)
    : Type 0 where
  pub signed : Signed codec token
  pub names : names_valid c.jti c.user_id c.ref c.session_epoch ≡ true
  pub scope : c.scope ≡ "terminal:attach"
  pub current : ℕ
  pub deadline : ℕ
  pub read : now ≡ some (aware current)
  pub ends : c.expires_at ≡ aware deadline
  pub alive : current < deadline
  pub short : deadline ≤ current + codec.max_lifetime

module _ (codec : Codec) where
  record Valid (p : CapabilityClaims × ℤ) : Type 0 where
    names : names_valid p.0.jti p.0.user_id p.0.ref p.0.session_epoch ≡ true
    scope : p.0.scope ≡ "terminal:attach"
    ends : p.0.expires_at ≡ instant codec p.1

  claims_of-Valid :
      (jti user_id : String) (ref : ResourceRef) (epoch e : ℤ) (scope : String)
      → Leads Valid (claims_of codec jti user_id ref epoch e scope)
  unfolding claims_of
  claims_of-Valid jti user_id ref epoch e scope = record {
    at = λ p h0.
        let (_, h1) = unless-returns (not (is_instant e)) _ _ p h0 in
        let (valid, h2) =
          unless-returns (not (names_valid jti user_id ref epoch && is_scope scope)) _ _ p h1 in
        let (names, scoped) =
          both (names_valid jti user_id ref epoch) (is_scope scope) (ground arith) in
        let built = returned _ p h2 in
        subst Valid built (record {
          names = names;
          scope = text_beq→eq scope "terminal:attach" scoped;
          ends = refl;
        });
  }
    where
      both : (a b : Bool) → a && b ≡ true → (a ≡ true) × (b ≡ true)
      both a b h = ground arith

      returned :
          (p q : CapabilityClaims × ℤ)
          → ◌≡◌ {A = Answer CapabilityCode _} (returns p) (returns q)
          → p ≡ q
      returned p q h = cc

  claims_in-Valid : (fs : List (String × Scalar)) → Leads Valid (claims_in codec fs)
  unfolding claims_in
  claims_in-Valid fs = Leads-bind (text_in codec (lookup "jti" fs)) _ λ jti.
      Leads-bind (text_in codec (lookup "user_id" fs)) _ λ user_id.
        Leads-bind (text_in codec (lookup "attempt_id" fs)) _ λ attempt_id.
          Leads-bind (text_in codec (lookup "sandbox_id" fs)) _ λ sandbox_id.
            Leads-bind (int_in codec (lookup "generation" fs)) _ λ generation.
              Leads-bind (int_in codec (lookup "session_epoch" fs)) _ λ epoch.
                Leads-bind (int_in codec (lookup "expires_at" fs)) _ λ e.
                  Leads-bind (text_in codec (lookup "scope" fs)) _
                    λ scope. claims_of-Valid jti user_id _ epoch e scope

  signed_claims-Valid :
      (token a b c : String) (p : CapabilityClaims × ℤ)
      → three_parts token ≡ some (a, b, c)
      → signed_claims codec (a, b, c) ≡ returns p
      → Signed codec token × Valid p
  unfolding signed_claims
  signed_claims-Valid token a b c p parts h0 =
      let (header_bytes, _, h1) = bind-returns (decode_segment codec a) _ p h0 in
      let (payload_bytes, _, h2) = bind-returns (decode_segment codec b) _ p h1 in
      let (signature, decoded, h3) = bind-returns (decode_segment codec c) _ p h2 in
      let (head, _, h4) = bind-returns (or_invalid (codec.loads header_bytes)) _ p h3 in
      let (payload, _, h5) = bind-returns (or_invalid (codec.loads payload_bytes)) _ p h4 in
      let (_, h6) = unless-returns (not (is_header head)) _ _ p h5 in
      let (fs, _, h7) = bind-returns (fields_in codec payload) _ p h6 in
      let (same, h8) =
        unless-returns (not (bytes_beq signature (codec.sign (signing_input codec a b)))) _ _ p
          h7 in
      let equal = bytes_beq→eq signature (codec.sign (signing_input codec a b)) (ground arith) in
      (
        record {
          head = a;
          payload = b;
          signature = c;
          parts = parts;
          genuine = decoded ∙ ap (λ x. returns x) equal;
        },
        (claims_in-Valid fs).at p h8,
      )

  read_token-Valid :
      (token : String) (p : CapabilityClaims × ℤ)
      → read_token codec token ≡ returns p
      → Signed codec token × Valid p
  unfolding read_token
  read_token-Valid token p h0 =
      let (_, h1) = unless-returns _ _ _ p h0 in
      let ((a, b, c), found, h2) = bind-returns (or_invalid (three_parts token)) _ p h1 in
      signed_claims-Valid token a b c p (found_in (three_parts token) (a, b, c) found) h2
    where
      found_in :
          (o : Option (String × String × String)) (x : String × String × String)
          → or_invalid o ≡ returns x
          → o ≡ some x
      found_in none x e = ground arith
      found_in (some y) x e = ground arith

  pub in_time-bounds :
      (max e current : ℕ) → in_time max e current ≡ returns tt → (current < e) × (e ≤ current + max)
  in_time-bounds max e current h0 =
      let (late, h1) = unless-returns (leb e current) _ _ tt h0 in
      let long = raise_when-returns (ltb max (e - current)) _ h1 in (ground arith, ground arith)

  clock-read :
      (now : Clock) (current : ℕ) → clock now ≡ returns current → now ≡ some (aware current)
  unfolding clock timestamp
  clock-read none current h = ground arith
  clock-read (some naive) current h = ground arith
  clock-read (some (aware t)) current h = ground arith

  timed :
      (token : String) (now : Clock) (c : CapabilityClaims) (e : ℤ) (current : ℕ) (u : Unit {0})
      → Signed codec token
      → Valid (c, e)
      → clock now ≡ returns current
      → in_time_of codec e current ≡ returns u
      → Genuine codec token now c
  timed token now c (negsuc e) current u s v r h = ground arith
  timed token now c (pos e) current u s v r h =
      let (alive, short) = in_time-bounds codec.max_lifetime e current h in
      record {
        signed = s;
        names = v.names;
        scope = v.scope;
        current = current;
        deadline = e;
        read = clock-read now current r;
        ends = v.ends;
        alive = alive;
        short = short;
      }

  -- Claims that verify come from a token whose third part is the signature of the other two, are
  -- well formed and of scope terminal:attach, and end after the reading of the clock and no
  -- later than the codec's lifetime from it.
  pub verify-Genuine :
      (token : String) (now : Clock) (c : CapabilityClaims)
      → verify codec token now ≡ returns c
      → Genuine codec token now c
  unfolding verify
  verify-Genuine token now c h0 =
      let ((d, e), found, h1) = bind-returns (read_token codec token) _ c h0 in
      let (current, read, h2) = bind-returns (clock now) _ c h1 in
      let (u, timely, h3) = bind-returns (in_time_of codec e current) _ c h2 in
      let (signed, valid) = read_token-Valid token (d, e) found in
      let same : d ≡ c = ground arith in
      timed token now c e current u signed
        (record {
          names = rw (sym same) valid.names;
          scope = ap (λ x. x.scope) (sym same) ∙ valid.scope;
          ends = ap (λ x. x.expires_at) (sym same) ∙ valid.ends;
        })
        read timely
