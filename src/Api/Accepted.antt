-- ===== src/Api/Accepted.antt =====
-- capability.py, CapabilityCodec.verify on tokens of CapabilityCodec.issue.
use Prim.Native.String.{String, ◌++◌}
use mathlib.Core.Path.{subst}
use failroom.Prelude.{
  ℕ, ◌+◌, ◌≤◌, ◌<◌, ◌≡◌, refl, sym, ap, ◌∙◌, true, false, not, [], ◌∷◌, some, ltb, arith,
  nat_beq_refl, text_beq, length,
}
use failroom.Prelude.Text.{codes}
use failroom.Prelude.Answers.{
  Answer, returns, ◌>>=◌, ◌>>◌, raise_when, bind-returns, unless-returns, bind-value, unless-value,
}
use failroom.StateStore.Models.{CapabilityClaims, Datetime, aware, naive, pos}
use failroom.Api.Capability.{
  Codec, CapabilityCode, capability_invalid, Bytes, three_parts, utf8_length, header, payload_of,
  validate_claims, clock, timestamp, in_time, issue, verify, read_token, signed_claims, claims_in,
  claims_of, decode_segment, signing_input, names_valid, is_scope, is_instant, or_invalid,
  is_header, has_keys, lookup, among, fields_in, bytes_beq,
}
use failroom.Api.Genuine.{in_time-bounds}
use failroom.Api.Issued.{is_segment, utf8_length-ascii, token_ascii, three_parts-join}

-- What base64 does with a document: it is a text of the URL-safe alphabet that decodes to it, and it
-- is not empty.
pub record Encodes (codec : Codec) (b : Bytes) : Type 0 where
  pub encode-segment : is_segment (codec.encode b) ≡ true
  pub encode_filled : text_beq (codec.encode b) "" ≡ false
  pub decode-encode : codec.decode (codec.encode b) ≡ some b

-- What is relied on of the libraries for a token: base64 encodes its two documents and every
-- signature, and json reads the two documents back as they were written.
pub record Lawful (codec : Codec) (c : CapabilityClaims) (e : ℕ) : Type 0 where
  pub encodes_header : Encodes codec (codec.dumps header)
  pub encodes_payload : Encodes codec (codec.dumps (payload_of c e))
  pub encodes_signature : (s : String) → Encodes codec (codec.sign s)
  pub loads_header : codec.loads (codec.dumps header) ≡ some header
  pub loads_payload : codec.loads (codec.dumps (payload_of c e)) ≡ some (payload_of c e)

bytes_beq_refl : (b : Bytes) → bytes_beq b b ≡ true
bytes_beq_refl [] = refl
bytes_beq_refl (x ∷ xs) = ground (arith, nat_beq_refl x, bytes_beq_refl xs)

header_is : is_header header ≡ true
unfolding is_header has_keys among lookup text_beq
header_is = refl

module _ (codec : Codec) where
  abbrev first_part : String
  first_part = codec.encode (codec.dumps header)

  abbrev second_part : CapabilityClaims → ℕ → String
  second_part c e = codec.encode (codec.dumps (payload_of c e))

  abbrev third_part : CapabilityClaims → ℕ → String
  third_part c e = codec.encode (codec.sign (signing_input codec first_part (second_part c e)))

  abbrev token_of : CapabilityClaims → ℕ → String
  token_of c e = signing_input codec first_part (second_part c e) ++ "." ++ third_part c e

  -- what the checks of `issue` have seen
  record Issuable (c : CapabilityClaims) (current e : ℕ) (token : String) : Type 0 where
    names : names_valid c.jti c.user_id c.ref c.session_epoch ≡ true
    scope : is_scope c.scope ≡ true
    alive : current < e
    short : e ≤ current + codec.max_lifetime
    made : token_of c e ≡ token
    fits : ltb 4096 (length (codes token)) ≡ false

  validated :
      (c : CapabilityClaims) (u : Unit {0})
      → validate_claims c ≡ returns u
      → (names_valid c.jti c.user_id c.ref c.session_epoch ≡ true) × (is_scope c.scope ≡ true)
  unfolding validate_claims
  validated c u h0 =
      let (names, h1) =
        unless-returns (not (names_valid c.jti c.user_id c.ref c.session_epoch)) _ _ u h0 in
      let (scope, h2) = unless-returns (not (is_scope c.scope)) _ _ u h1 in
      (ground arith, ground arith)

  issue-Issuable :
      (c : CapabilityClaims) (current e : ℕ) (token : String)
      → c.expires_at ≡ aware e
      → issue codec c (some (aware current)) ≡ returns token
      → Issuable c current e token
  unfolding issue clock timestamp
  issue-Issuable c current e token ends h0 =
      let (u, valid, h1) = bind-returns (validate_claims c) _ token h0 in
      let (names, scope) = validated c u valid in
      let (d, at, h2) = bind-returns (timestamp c.expires_at) _ token h1 in
      let same : d ≡ e = deadline c.expires_at d ends at in
      let (v, timely, h3) = bind-returns (in_time codec.max_lifetime d current) _ token h2 in
      let (alive, short) = in_time-bounds codec codec.max_lifetime d current timely in
      let (fits, h4) = unless-returns (ltb 4096 (length (codes (token_of c d)))) _ _ token h3 in
      let made : token_of c d ≡ token = returned (token_of c d) token h4 in
      subst (λ x. Issuable c current x token) same
        (record {
          names = names;
          scope = scope;
          alive = alive;
          short = short;
          made = made;
          fits = subst (λ t. ltb 4096 (length (codes t)) ≡ false) made fits;
        })
    where
      deadline : (x : Datetime) (d : ℕ) → x ≡ aware e → timestamp x ≡ returns d → d ≡ e
      deadline naive d p q = ground arith
      deadline (aware t) d p q = ground arith

      returned :
          (s t : String) → ◌≡◌ {A = Answer CapabilityCode String} (returns s) (returns t) → s ≡ t
      returned s t h = cc

  decoded : (b : Bytes) → Encodes codec b → decode_segment codec (codec.encode b) ≡ returns b
  unfolding decode_segment
  decoded b h = ground (arith, h.encode-segment, h.encode_filled, h.decode-encode)

  payload_fields :
      (c : CapabilityClaims) (e : ℕ)
      → (fields_in codec (payload_of c e) >>= λ fs. claims_in codec fs)
        ≡ claims_of codec c.jti c.user_id c.ref c.session_epoch (pos e) c.scope
  unfolding has_keys among lookup text_beq claims_in
  payload_fields c e = refl

  claimed :
      (c : CapabilityClaims) (e : ℕ)
      → names_valid c.jti c.user_id c.ref c.session_epoch ≡ true
      → is_scope c.scope ≡ true
      → e ≤ 253402300799999999
      → c.expires_at ≡ aware e
      → claims_of codec c.jti c.user_id c.ref c.session_epoch (pos e) c.scope ≡ returns (c, pos e)
  unfolding claims_of
  claimed c e names scope range ends =
      let inside : is_instant (pos e) ≡ true = ground arith in
      unless-value _ _ _ (ap not inside)
      ∙ unless-value _ _ _ (rw (names, scope) refl)
      ∙ ap (λ x. returns (record c { expires_at = x }, pos e)) (sym ends)

  signed :
      (c : CapabilityClaims) (e : ℕ)
      → Lawful codec c e
      → signed_claims codec (first_part, second_part c e, third_part c e)
        ≡ claims_of codec c.jti c.user_id c.ref c.session_epoch (pos e) c.scope
  unfolding signed_claims
  signed c e law =
      let signature = codec.sign (signing_input codec first_part (second_part c e)) in
      bind-value (decode_segment codec first_part) _ _
        (decoded (codec.dumps header) law.encodes_header)
      ∙ bind-value (decode_segment codec (second_part c e)) _ _
          (decoded (codec.dumps (payload_of c e)) law.encodes_payload)
      ∙ bind-value (decode_segment codec (third_part c e)) _ _ (
          decoded signature
            (law.encodes_signature (signing_input codec first_part (second_part c e))))
      ∙ bind-value (or_invalid (codec.loads (codec.dumps header))) _ header
          (ap (λ o. or_invalid o) law.loads_header)
      ∙ bind-value (or_invalid (codec.loads (codec.dumps (payload_of c e)))) _ (payload_of c e)
          (ap (λ o. or_invalid o) law.loads_payload)
      ∙ unless-value (not (is_header header)) _ _ (ap not header_is)
      ∙ read_fields c e signature
    where
      read_fields :
          (c : CapabilityClaims) (e : ℕ) (x : Bytes)
          → (fields_in codec (payload_of c e) >>= λ fs.
              raise_when (not (bytes_beq x x)) capability_invalid >> claims_in codec fs)
            ≡ claims_of codec c.jti c.user_id c.ref c.session_epoch (pos e) c.scope
      read_fields c e x = rw (bytes_beq_refl x) (payload_fields c e)

  read_back :
      (c : CapabilityClaims) (current e : ℕ) (token : String)
      → Lawful codec c e
      → Issuable c current e token
      → e ≤ 253402300799999999
      → c.expires_at ≡ aware e
      → read_token codec token ≡ returns (c, pos e)
  unfolding read_token
  read_back c current e token law i range ends =
      let a = law.encodes_header.encode-segment in
      let b = law.encodes_payload.encode-segment in
      let input = signing_input codec first_part (second_part c e) in
      let g = (law.encodes_signature input).encode-segment in
      let ascii = token_ascii first_part (second_part c e) (third_part c e) a b g in
      let width : utf8_length (codes (token_of c e)) ≡ length (codes (token_of c e)) =
        utf8_length-ascii (codes (token_of c e)) ascii in
      let small : ltb 4096 (utf8_length (codes token)) ≡ false =
        ap (λ t. ltb 4096 (utf8_length (codes t))) (sym i.made)
        ∙ ap (λ n. ltb 4096 n) width
        ∙ ap (λ t. ltb 4096 (length (codes t))) i.made
        ∙ i.fits in
      let parts : three_parts token ≡ some (first_part, second_part c e, third_part c e) =
        ap three_parts (sym i.made)
        ∙ three_parts-join first_part (second_part c e) (third_part c e) a b g
            law.encodes_header.encode_filled law.encodes_payload.encode_filled
            (law.encodes_signature input).encode_filled in
      unless-value (ltb 4096 (utf8_length (codes token))) _ _ small
      ∙ bind-value (or_invalid (three_parts token)) _ (first_part, second_part c e, third_part c e)
          (ap (λ o. or_invalid o) parts)
      ∙ signed c e law
      ∙ claimed c e i.names i.scope range ends

  in_time-value : (max e now : ℕ) → now < e → e ≤ now + max → in_time max e now ≡ returns tt
  in_time-value max e now h k = ground arith

  -- A token that is issued for claims verifies as exactly these claims at every later reading of
  -- the clock before their deadline, which a datetime can hold, where base64 and json read back
  -- what they wrote.
  pub verify-issue :
      (c : CapabilityClaims) (current later e : ℕ) (token : String)
      → Lawful codec c e
      → c.expires_at ≡ aware e
      → e ≤ 253402300799999999
      → issue codec c (some (aware current)) ≡ returns token
      → current ≤ later
      → later < e
      → verify codec token (some (aware later)) ≡ returns c
  unfolding verify clock timestamp
  verify-issue c current later e token law ends range h after alive =
      let i = issue-Issuable c current e token ends h in
      bind-value (read_token codec token) _ (c, pos e)
        (read_back c current e token law i range ends)
      ∙ bind-value (in_time codec.max_lifetime e later) _ tt
          (in_time-value codec.max_lifetime e later alive (omega (arith, i.short)))
