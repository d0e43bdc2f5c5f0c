-- ===== src/Tests/Tokens.antt =====
-- The theorems on capability tokens, at the states of the scenario.
use failroom.Prelude.{
  [], ◌∷◌, Option, some, none, ◌≡◌, ◌≢◌, refl, arith, String, text_beq, if◌then◌else◌,
}
use failroom.Prelude.Text.{codes}
use failroom.Prelude.Answers.{returns}
use failroom.StateStore.Models.{CapabilityClaims, CapabilityUse, aware, pos}
use failroom.StateStore.Tx.{Db}
use failroom.StateStore.Evolves.History.{Request, history}
use failroom.Api.Capability.{
  issue, validate_claims, object, Codec, Json, Bytes, bytes_beq, header, payload_of, verify,
  read_token, signed_claims, claims_in, claims_of, decode_segment, three_parts, split_dot,
  utf8_length, lookup, among, has_keys, is_header, clock, timestamp, not_negative,
}
use failroom.Api.Authority.{introspect_and_consume}
use failroom.Api.Genuine.{Genuine, verify-Genuine}
use failroom.Api.Accepted.{Lawful, verify-issue}
use failroom.Api.Single.{introspect_once}
use failroom.Tests.Data.{plain, gateway, at, ref}
use failroom.Tests.Scenario.{published, everything}

abbrev claims : CapabilityClaims
claims = record {
  jti = "0123456789abcdef0123456789abcdef";
  user_id = "alice";
  ref = ref;
  session_epoch = pos 0;
  expires_at = aware 50;
  scope = "terminal:attach";
}

-- segments of one letter stand for a header, a payload and a signature
abbrev loaded : Bytes → Option Json
loaded b =
    if bytes_beq b (codes "h")
    then some header
    else if bytes_beq b (codes "p")
    then some (payload_of claims 50)
    else none

abbrev codec : Codec
codec = record {
  max_lifetime = 100;
  sign = λ input. codes "s";
  encode = λ b. "s";
  decode = λ s. some (codes s);
  dumps = λ j. [];
  loads = loaded;
}

verified : verify codec "h.p.s" (at 10) ≡ returns claims
unfolding everything verify read_token signed_claims claims_in claims_of decode_segment three_parts
    split_dot utf8_length lookup among has_keys is_header clock timestamp not_negative
verified = refl

verify-Genuine_example : Genuine codec "h.p.s" (at 10) claims
verify-Genuine_example = verify-Genuine codec "h.p.s" (at 10) claims verified

abbrev receipt : CapabilityUse
receipt = record {
  jti_hash = "0123456789abcdef0123456789abcdef00000000000000000000000000000000";
  ref = ref;
  session_epoch = pos 0;
  expires_at = aware 50;
}

abbrev consumed : Db
consumed = (introspect_and_consume codec "h.p.s" gateway (at 9) (at 10) published).1

introspected_first :
    (introspect_and_consume codec "h.p.s" gateway (at 9) (at 10) published).0 ≡ returns receipt
unfolding everything verify read_token signed_claims claims_in claims_of decode_segment three_parts
    split_dot utf8_length lookup among has_keys is_header clock timestamp not_negative
    introspect_and_consume
introspected_first = refl

introspected :
    introspect_and_consume codec "h.p.s" gateway (at 9) (at 10) published
    ≡ (returns receipt, consumed)
introspected = λ k. (introspected_first k, consumed)

introspect_once_example :
    introspect_and_consume codec "h.p.s" gateway
      (at 19)
      (at 20)
      (history (Request.expire gateway (at 15) 5 ∷ []) consumed)
    ≢ (returns receipt, consumed)
introspect_once_example =
    introspect_once codec "h.p.s" gateway gateway (at 9) (at 10) (at 19) (at 20) published consumed
      consumed receipt receipt (Request.expire gateway (at 15) 5 ∷ []) introspected

-- a codec that writes the two documents and the signature as one letter each
abbrev one_letter : Bytes → String
one_letter b = if bytes_beq b (codes "h") then "h" else if bytes_beq b (codes "p") then "p" else "s"

abbrev written : Json → Bytes
written (object (alg ∷ typ ∷ v ∷ [])) = codes "h"
written j = codes "p"

abbrev writing : Codec
writing = record {
  max_lifetime = 100;
  sign = λ input. codes "s";
  encode = one_letter;
  decode = λ s. some (codes s);
  dumps = written;
  loads = loaded;
}

lawful : Lawful writing claims 50
unfolding text_beq
lawful = record {
  encodes_header = record { encode-segment = refl; encode_filled = refl; decode-encode = refl };
  encodes_payload = record { encode-segment = refl; encode_filled = refl; decode-encode = refl };
  encodes_signature =
      λ s. record { encode-segment = refl; encode_filled = refl; decode-encode = refl };
  loads_header = refl;
  loads_payload = refl;
}

issued : issue writing claims (at 10) ≡ returns "h.p.s"
unfolding everything issue validate_claims clock timestamp not_negative
issued = refl

verify-issue_example : verify writing "h.p.s" (at 49) ≡ returns claims
verify-issue_example =
    verify-issue writing claims 10 49 50 "h.p.s" lawful refl (omega arith) issued (omega arith)
      (omega arith)
