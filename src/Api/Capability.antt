-- ===== src/Api/Capability.antt =====
-- capability.py, CapabilityCodec: one signed terminal capability.
use Prim.Native.Char.{code}
use Prim.Native.String.{String, ◌++◌}
use failroom.Prelude.{
  ℕ, ◌+◌, ◌-◌, Bool, true, false, ◌&&◌, ◌||◌, not, List, [], ◌∷◌, Option, none, some, leb, ltb,
  nat_beq, text_beq, if◌then◌else◌, length,
}
use failroom.Prelude.Text.{codes, all, is_identifier, is_hex_of}
use failroom.Prelude.Answers.{Answer, returns, raises, ◌>>=◌, ◌>>◌, raise_when}
use failroom.StateStore.Models.{
  CapabilityClaims, ResourceRef, Datetime, aware, naive, Clock, ℤ, pos, negsuc,
}
use failroom.Api.Sessions.{is_token_char}

-- the codes of CapabilityError
pub data CapabilityCode : Type 0 where
  invalid_request capability_invalid capability_scope capability_expired : CapabilityCode
  capability_lifetime invalid_configuration : CapabilityCode

abbrev pub Bytes : Type 0
Bytes = List ℕ

-- A value of a JSON object: a str, an int, a bool or float that is equal to an int, or any other.
pub data Scalar : Type 0 where
  text : String → Scalar
  int like_int : ℤ → Scalar
  other : Scalar

-- what `json.loads` makes: a dict, or any other value
pub data Json : Type 0 where
  object : List (String × Scalar) → Json
  no_object : Json

-- The codec: its lifetime in microseconds, HMAC-SHA256 under its secret, and what it uses of base64
-- (without padding) and json. `none` is an error of the library.
pub record Codec : Type 0 where
  pub max_lifetime : ℕ
  pub sign : String → Bytes
  pub encode : Bytes → String
  pub decode : String → Option Bytes
  pub dumps : Json → Bytes
  pub loads : Bytes → Option Json

-- `__init__` accepts the secret's length and the lifetime
unfoldable pub codec_valid : ℕ → ℕ → Bool
codec_valid secret_bytes lifetime = leb 32 secret_bytes && leb 1 lifetime && leb lifetime 300000000

-- `_timestamp`
unfoldable pub timestamp : Datetime → Answer CapabilityCode ℕ
timestamp naive = raises invalid_request
timestamp (aware t) = returns t

-- `_clock`, as microseconds
unfoldable pub clock : Clock → Answer CapabilityCode ℕ
clock none = raises invalid_request
clock (some d) = timestamp d

unfoldable pub not_negative : ℤ → Bool
not_negative (pos n) = true
not_negative (negsuc n) = false

-- the first two tests of `_validate_claims`
abbrev pub names_valid : String → String → ResourceRef → ℤ → Bool
names_valid jti user_id ref session_epoch =
    is_hex_of 32 jti
    && is_identifier user_id
    && is_identifier ref.attempt_id
    && is_identifier ref.sandbox_id
    && leb 1 ref.generation
    && not_negative session_epoch

abbrev pub is_scope : String → Bool
is_scope scope = text_beq scope "terminal:attach"

-- `_validate_claims`
unfoldable pub validate_claims : CapabilityClaims → Answer CapabilityCode (Unit {0})
validate_claims c = do
  raise_when (not (names_valid c.jti c.user_id c.ref c.session_epoch)) capability_invalid
  raise_when (not (is_scope c.scope)) capability_scope
  t ← timestamp c.expires_at
  returns tt

-- `_HEADER`
abbrev pub header : Json
header =
    object (("alg", text "HS256") ∷ ("typ", text "FAILROOM_CAPABILITY") ∷ ("v", int (pos 1)) ∷ [])

unfoldable pub lookup : String → List (String × Scalar) → Option Scalar
lookup k [] = none
lookup k ((x, v) ∷ fs) = if text_beq x k then some v else lookup k fs

abbrev pub is_text : String → Option Scalar → Bool
is_text s (some (text t)) = text_beq t s
is_text s (some (int n)) = false
is_text s (some (like_int n)) = false
is_text s (some other) = false
is_text s none = false

abbrev pub is_one : Option Scalar → Bool
is_one (some (int (pos n))) = nat_beq n 1
is_one (some (like_int (pos n))) = nat_beq n 1
is_one (some (int (negsuc n))) = false
is_one (some (like_int (negsuc n))) = false
is_one (some (text t)) = false
is_one (some other) = false
is_one none = false

unfoldable pub among : List String → String → Bool
among [] x = false
among (k ∷ ks) x = text_beq x k || among ks x

-- the keys of a dict are exactly these
unfoldable pub has_keys : List String → List (String × Scalar) → Bool
has_keys ks fs = all (λ f. among ks f.0) fs && all (λ k. among_fields fs k) ks
  where
    among_fields : List (String × Scalar) → String → Bool
    among_fields [] k = false
    among_fields ((x, v) ∷ gs) k = text_beq x k || among_fields gs k

-- `header == _HEADER`
unfoldable pub is_header : Json → Bool
is_header no_object = false
is_header (object fs) =
    has_keys ("alg" ∷ "typ" ∷ "v" ∷ []) fs
    && is_text "HS256" (lookup "alg" fs)
    && is_text "FAILROOM_CAPABILITY" (lookup "typ" fs)
    && is_one (lookup "v" fs)

-- `_FIELDS`
abbrev pub fields : List String
fields =
    "jti" ∷ "user_id" ∷ "attempt_id" ∷ "sandbox_id" ∷ "generation" ∷ "session_epoch" ∷ "expires_at"
    ∷ "scope" ∷ []

-- the payload that `issue` signs
abbrev pub payload_of : CapabilityClaims → ℕ → Json
payload_of c expires_at = object (
    ("attempt_id", text c.ref.attempt_id)
    ∷ ("expires_at", int (pos expires_at))
    ∷ ("generation", int (pos c.ref.generation))
    ∷ ("jti", text c.jti)
    ∷ ("sandbox_id", text c.ref.sandbox_id)
    ∷ ("scope", text c.scope)
    ∷ ("session_epoch", int c.session_epoch)
    ∷ ("user_id", text c.user_id)
    ∷ [])

-- `len(s.encode("utf-8"))`
abbrev pub utf8_width : ℕ → ℕ
utf8_width c = if leb c 127 then 1 else if leb c 2047 then 2 else if leb c 65535 then 3 else 4

unfoldable pub utf8_length : List ℕ → ℕ
utf8_length [] = 0
utf8_length (c ∷ cs) = utf8_width c + utf8_length cs

-- `token.split(".")`: the part before the first dot, and the rest if there is one
unfoldable pub split_dot : String → String × Option String
split_dot String.[] = ("", none)
split_dot (String.◌∷◌ c s) =
    let (part, rest) = split_dot s in
    if nat_beq (code c) b'.' then ("", some s) else (String.◌∷◌ c part, rest)

-- three parts, none of them empty
abbrev pub part_of : String × Option String → Option (String × String)
part_of (part, none) = none
part_of (part, some rest) = if text_beq part "" then none else some (part, rest)

abbrev pub last_of : String × Option String → Option String
last_of (part, some rest) = none
last_of (part, none) = if text_beq part "" then none else some part

abbrev pub third : String → String → Option String → Option (String × String × String)
third a b none = none
third a b (some c) = some (a, b, c)

abbrev pub second : String → Option (String × String) → Option (String × String × String)
second a none = none
second a (some (b, rest)) = third a b (last_of (split_dot rest))

abbrev pub first : Option (String × String) → Option (String × String × String)
first none = none
first (some (a, rest)) = second a (part_of (split_dot rest))

unfoldable pub three_parts : String → Option (String × String × String)
three_parts s = first (part_of (split_dot s))

-- the largest and the smallest instant that a datetime can hold
abbrev pub is_instant : ℤ → Bool
is_instant (pos n) = leb n 253402300799999999
is_instant (negsuc n) = ltb n 62135596800000000

abbrev pub bytes_beq : Bytes → Bytes → Bool
bytes_beq [] [] = true
bytes_beq [] (y ∷ ys) = false
bytes_beq (x ∷ xs) [] = false
bytes_beq (x ∷ xs) (y ∷ ys) = nat_beq x y && bytes_beq xs ys

-- an error of a library call becomes CAPABILITY_INVALID
abbrev pub or_invalid : {A : Type 0} → Option A → Answer CapabilityCode A
or_invalid none = raises capability_invalid
or_invalid (some a) = returns a

-- the two tests of a deadline against the clock
abbrev pub in_time : ℕ → ℕ → ℕ → Answer CapabilityCode (Unit {0})
in_time max_lifetime expires_at current = do
  raise_when (leb expires_at current) capability_expired
  raise_when (ltb max_lifetime (expires_at - current)) capability_lifetime

module _ (codec : Codec) where
  -- `_decode_segment`
  unfoldable pub decode_segment : String → Answer CapabilityCode Bytes
  decode_segment s =
      if not (text_beq s "") && all is_token_char (codes s)
      then or_invalid (codec.decode s)
      else raises capability_invalid

  abbrev pub signing_input : String → String → String
  signing_input a b = a ++ "." ++ b

  -- `issue`
  unfoldable pub issue : CapabilityClaims → Clock → Answer CapabilityCode String
  issue c now = do
    validate_claims c
    current ← clock now
    expires_at ← timestamp c.expires_at
    in_time codec.max_lifetime expires_at current
    let a = codec.encode (codec.dumps header)
    let b = codec.encode (codec.dumps (payload_of c expires_at))
    let token = signing_input a b ++ "." ++ codec.encode (codec.sign (signing_input a b))
    raise_when (ltb 4096 (length (codes token))) capability_lifetime
    returns token

  -- a value of the payload, with the test of its type
  abbrev pub text_in : Option Scalar → Answer CapabilityCode String
  text_in (some (text s)) = returns s
  text_in (some (int n)) = raises capability_invalid
  text_in (some (like_int n)) = raises capability_invalid
  text_in (some other) = raises capability_invalid
  text_in none = raises capability_invalid

  abbrev pub int_in : Option Scalar → Answer CapabilityCode ℤ
  int_in (some (int n)) = returns n
  int_in (some (text s)) = raises capability_invalid
  int_in (some (like_int n)) = raises capability_invalid
  int_in (some other) = raises capability_invalid
  int_in none = raises capability_invalid

  -- a generation below 0 fails the claims' test as 0 does
  abbrev pub natural : ℤ → ℕ
  natural (pos n) = n
  natural (negsuc n) = 0

  -- an instant before the epoch is 0 here; the tests of time look at the number itself
  abbrev pub instant : ℤ → Datetime
  instant e = aware (natural e)

  -- `claims` of the values, once they pass the tests, and `expires_at` as the number
  unfoldable pub claims_of :
      String → String → ResourceRef → ℤ → ℤ → String → Answer CapabilityCode (CapabilityClaims × ℤ)
  claims_of jti user_id ref session_epoch expires_at scope = do
    raise_when (not (is_instant expires_at)) capability_invalid
    raise_when (not (names_valid jti user_id ref session_epoch && is_scope scope))
        capability_invalid
    returns (
      record {
        jti = jti;
        user_id = user_id;
        ref = ref;
        session_epoch = session_epoch;
        expires_at = instant expires_at;
        scope = scope;
      },
      expires_at,
    )

  unfoldable pub claims_in : List (String × Scalar) → Answer CapabilityCode (CapabilityClaims × ℤ)
  claims_in fs = do
    jti ← text_in (lookup "jti" fs)
    user_id ← text_in (lookup "user_id" fs)
    attempt_id ← text_in (lookup "attempt_id" fs)
    sandbox_id ← text_in (lookup "sandbox_id" fs)
    generation ← int_in (lookup "generation" fs)
    session_epoch ← int_in (lookup "session_epoch" fs)
    expires_at ← int_in (lookup "expires_at" fs)
    scope ← text_in (lookup "scope" fs)
    let ref : ResourceRef = record {
      attempt_id = attempt_id;
      sandbox_id = sandbox_id;
      generation = natural generation;
    }
    claims_of jti user_id ref session_epoch expires_at scope

  abbrev pub fields_in : Json → Answer CapabilityCode (List (String × Scalar))
  fields_in no_object = raises capability_invalid
  fields_in (object fs) = if has_keys fields fs then returns fs else raises capability_invalid

  -- the tests of a deadline that may lie before the epoch
  abbrev pub in_time_of : ℤ → ℕ → Answer CapabilityCode (Unit {0})
  in_time_of (pos e) current = in_time codec.max_lifetime e current
  in_time_of (negsuc e) current = raises capability_expired

  -- the claims that three parts carry, under a signature that fits
  unfoldable pub signed_claims :
      String × String × String → Answer CapabilityCode (CapabilityClaims × ℤ)
  signed_claims (a, b, c) = do
    header_bytes ← decode_segment a
    payload_bytes ← decode_segment b
    signature ← decode_segment c
    head ← or_invalid (codec.loads header_bytes)
    payload ← or_invalid (codec.loads payload_bytes)
    raise_when (not (is_header head)) capability_invalid
    fs ← fields_in payload
    raise_when (not (bytes_beq signature (codec.sign (signing_input a b)))) capability_invalid
    claims_in fs

  -- the claims of a token, before its times are looked at
  unfoldable pub read_token : String → Answer CapabilityCode (CapabilityClaims × ℤ)
  read_token token = do
    raise_when (ltb 4096 (utf8_length (codes token))) capability_invalid
    parts ← or_invalid (three_parts token)
    signed_claims parts

  -- `verify`
  unfoldable pub verify : String → Clock → Answer CapabilityCode CapabilityClaims
  verify token now = do
    found ← read_token token
    current ← clock now
    in_time_of found.1 current
    returns found.0
