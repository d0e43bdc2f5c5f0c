-- ===== src/Api/Single.antt =====
-- authorization.py, BackendCapabilityAuthority.introspect_and_consume, on a token used before.
use Prim.Native.String.{String}
use failroom.Prelude.{◌≡◌, ◌≢◌, refl, sym, ap, ◌∙◌, List, arith}
use failroom.Prelude.Answers.{Answer, returns, raises, bind-returns}
use failroom.StateStore.Models.{ServiceIdentity, CapabilityClaims, CapabilityUse, Clock, ℤ}
use failroom.StateStore.Tx.{Db, Result, ok, err, transaction}
use failroom.StateStore.Libs.{Libs}
use failroom.StateStore.Backend.{consume}
use failroom.StateStore.Evolves.History.{Request, history}
use failroom.StateStore.Capabilities.Once.{consume_once}
use failroom.Api.Capability.{Codec, CapabilityCode, read_token, verify, clock, in_time_of}
use failroom.Api.Authority.{store_answer, consumed, introspect_and_consume}

module _ ⦃lib : Libs⦄ (codec : Codec) where
  -- the consumption behind an introspection that returns
  record Consumed (token : String) (i : ServiceIdentity) (now : Clock) (s : Db) (u : CapabilityUse)
      (t : Db) : Type 0 where
    claims : CapabilityClaims
    deadline : ℤ
    read : read_token codec token ≡ returns (claims, deadline)
    used : transaction (consume i claims now) s ≡ (ok u, t)

  verify-read_token :
      (token : String) (checked : Clock) (c : CapabilityClaims)
      → verify codec token checked ≡ returns c
      → (e : ℤ) × (read_token codec token ≡ returns (c, e))
  unfolding verify
  verify-read_token token checked c h0 =
      let ((d, e), found, h1) = bind-returns (read_token codec token) _ c h0 in
      let (current, read, h2) = bind-returns (clock checked) _ c h1 in
      let (u, timely, h3) = bind-returns (in_time_of codec e current) _ c h2 in
      let same : d ≡ c = ground arith in (e, found ∙ ap (λ x. returns (x, e)) same)

  returned : (r : Result CapabilityUse) (u : CapabilityUse) → store_answer r ≡ returns u → r ≡ ok u
  returned (ok v) u h = ground arith
  returned (err e) u h = ground arith

  consumed-Consumed :
      (token : String) (i : ServiceIdentity) (checked now : Clock) (s t : Db) (u : CapabilityUse)
      (a : Answer CapabilityCode CapabilityClaims)
      → verify codec token checked ≡ a
      → consumed codec i now s a ≡ (returns u, t)
      → Consumed token i now s u t
  consumed-Consumed token i checked now s t u (raises e) v h = ground arith
  consumed-Consumed token i checked now s t u (returns c) v h =
      let (e, read) = verify-read_token token checked c v in
      let answer = returned (transaction (consume i c now) s).0 u (ap (λ p. p.0) h) in
      let tables = ap (λ p. p.1) h in
      record { claims = c; deadline = e; read = read; used = λ k. (answer k, tables k) }

  introspect-Consumed :
      (token : String) (i : ServiceIdentity) (checked now : Clock) (s t : Db) (u : CapabilityUse)
      → introspect_and_consume codec token i checked now s ≡ (returns u, t)
      → Consumed token i now s u t
  unfolding introspect_and_consume
  introspect-Consumed token i checked now s t u h =
      consumed-Consumed token i checked now s t u (verify codec token checked) refl h

  -- Once an introspection of a token returns, no later introspection of the same token does, by
  -- whatever service, at whatever readings of the clock, and whatever requests to the stores
  -- came in between.
  pub introspect_once :
      (token : String) (i j : ServiceIdentity) (checked now rechecked later : Clock) (s s' t : Db)
      (u v : CapabilityUse) (rs : List Request)
      → introspect_and_consume codec token i checked now s ≡ (returns u, s')
      → introspect_and_consume codec token j rechecked later (history rs s') ≢ (returns v, t)
  introspect_once token i j checked now rechecked later s s' t u v rs h again =
      let first = introspect-Consumed token i checked now s s' u h in
      let second = introspect-Consumed token j rechecked later (history rs s') t v again in
      let same : first.claims ≡ second.claims = claims_eq first.read second.read in
      consume_once i j first.claims second.claims now later s s' t u v rs first.used
        (ap (λ c. c.jti) (sym same)) second.used
    where
      claims_eq :
          {r : Answer CapabilityCode (CapabilityClaims × ℤ)} {c d : CapabilityClaims} {e f : ℤ}
          → r ≡ returns (c, e)
          → r ≡ returns (d, f)
          → c ≡ d
      claims_eq p q = cc
