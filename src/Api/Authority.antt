-- ===== src/Api/Authority.antt =====
-- authorization.py, BackendCapabilityAuthority: capabilities for owned attempts, each used once.
use Prim.Native.String.{String}
use failroom.Prelude.{ℕ, ◌+◌, min, Bool, not, ◌==◌, ◌||◌, none, some, leb, nat_eq, text_eq, has}
use failroom.Prelude.Answers.{Answer, returns, raises, ◌>>=◌, ◌>>◌, raise_when}
use failroom.StateStore.Models.{
  UserIdentity, ServiceIdentity, ResourceRef, Attempt, CapabilityClaims, CapabilityUse, Code,
  Datetime, aware, naive, Clock, pos, State, state_eq, ready, running,
}
use failroom.StateStore.Models as Models
use failroom.StateStore.Tx.{Db, Result, ok, err, transaction}
use failroom.StateStore.Libs.{Libs}
use failroom.StateStore.Backend
use failroom.Api.Capability.{Codec, CapabilityCode, issue, verify, timestamp}
use failroom.Api.Capability as Capability

-- the codes of AuthorityError
pub data AuthorityCode : Type 0 where
  attempt_unavailable capability_expired capability_invalid capability_lifetime : AuthorityCode
  capability_replay invalid_request not_authorized store_busy store_failure : AuthorityCode
  authorization_failed : AuthorityCode

-- `_authority_error` of a StoreError
unfoldable pub of_store : Code → AuthorityCode
of_store Models.attempt_unavailable = attempt_unavailable
of_store Models.capability_invalid = capability_invalid
of_store Models.capability_replay = capability_replay
of_store Models.invalid_request = invalid_request
of_store Models.not_authorized = not_authorized
of_store Models.store_busy = store_busy
of_store Models.store_failure = store_failure
of_store _ = authorization_failed

-- `_authority_error` of a CapabilityError
unfoldable pub of_capability : CapabilityCode → AuthorityCode
of_capability Capability.invalid_request = invalid_request
of_capability Capability.capability_invalid = capability_invalid
of_capability Capability.capability_expired = capability_expired
of_capability Capability.capability_lifetime = capability_lifetime
of_capability Capability.capability_scope = authorization_failed
of_capability Capability.invalid_configuration = authorization_failed

-- IssuedCapability
pub record IssuedCapability : Type 0 where
  pub token : String
  pub ref : ResourceRef
  pub expires_at : ℕ

abbrev pub store_answer : {A : Type 0} → Result A → Answer AuthorityCode A
store_answer (ok a) = returns a
store_answer (err e) = raises (of_store e)

abbrev pub codec_answer : {A : Type 0} → Answer CapabilityCode A → Answer AuthorityCode A
codec_answer (returns a) = returns a
codec_answer (raises e) = raises (of_capability e)

-- `_clock`
unfoldable pub clock : Clock → Answer AuthorityCode ℕ
clock none = raises invalid_request
clock (some naive) = raises invalid_request
clock (some (aware t)) = returns t

-- the deadline of an attempt, which the store gives with an offset
abbrev pub deadline : Datetime → ℕ
deadline naive = 0
deadline (aware t) = t

-- an attempt that gets no capability
unfoldable pub unavailable : Attempt → ℕ → Bool
unavailable a current =
    not (a.state == ready || a.state == running)
    || not (has a.active_sandbox_id a.ref.sandbox_id)
    || a.expiry_intent
    || a.destroy_intent
    || leb (deadline a.expires_at) current

module _ ⦃lib : Libs⦄ (codec : Codec) where
  -- `issue`, over the tables as the inspection finds them; `jti` is what `uuid4` draws
  unfoldable pub issue_capability :
      UserIdentity → String → String → Clock → Db → Answer AuthorityCode IssuedCapability
  issue_capability identity attempt_id jti now s = do
    current ← clock now
    attempt ← store_answer (transaction (Backend.inspect identity attempt_id) s).0
    raise_when (unavailable attempt current) attempt_unavailable
    let expires_at = min (deadline attempt.expires_at) (current + codec.max_lifetime)
    token ← codec_answer (
        issue codec
          (record {
            jti = jti;
            user_id = identity.user_id;
            ref = attempt.ref;
            session_epoch = pos attempt.session_epoch;
            expires_at = aware expires_at;
            scope = "terminal:attach";
          })
          (some (aware current)))
    returns (record { token = token; ref = attempt.ref; expires_at = expires_at })

  abbrev pub consumed :
      ServiceIdentity
      → Clock
      → Db
      → Answer CapabilityCode CapabilityClaims
      → Answer AuthorityCode CapabilityUse × Db
  consumed identity now s (raises e) = (raises (of_capability e), s)
  consumed identity now s (returns claims) =
      let (r, t) = transaction (Backend.consume identity claims now) s in (store_answer r, t)

  -- `introspect_and_consume`: the codec reads the clock first, and the store again
  unfoldable pub introspect_and_consume :
      String → ServiceIdentity → Clock → Clock → Db → Answer AuthorityCode CapabilityUse × Db
  introspect_and_consume token identity checked now s =
      consumed identity now s (verify codec token checked)
