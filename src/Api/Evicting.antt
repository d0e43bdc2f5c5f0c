-- ===== src/Api/Evicting.antt =====
-- session.py, BrowserSessionAuthority.open: the eviction of sessions, and the size of the table.
use failroom.Prelude.{
  ℕ, zero, suc, ◌+◌, ◌≤◌, ◌<◌, ◌≡◌, refl, Bool, true, false, not, List, [], ◌∷◌, Option, none, some,
  length, String, text_beq, text_beq_refl, arith, if◌then◌else◌, ◌||◌, min,
}
use failroom.Prelude.Tables.{keep}
use failroom.Prelude.Answers.{Answer, returns, raises}
use failroom.StateStore.Models.{UserIdentity, aware, naive}
use failroom.StateStore.Libs.{Libs}
use failroom.Api.Authentication.{clock}
use failroom.Api.Sessions.{
  Session, Settings, SessionCall, opens, verifies, closes, Table, get, remove, soonest,
  drop_soonest, evict, unexpired, admit, open_at, open_session, verify, with_clock, found_session,
  is_token, close, step, run,
}
use failroom.Api.Table.{length-keep, length-assign}

abbrev has_key : String → Table → Bool
has_key d [] = false
has_key d (p ∷ t) = text_beq p.0 d || has_key d t

soonest-has_key : (p : String × Session) (t : Table) → has_key (soonest p t).0 (p ∷ t) ≡ true
unfolding soonest
soonest-has_key p [] = ground (arith, text_beq_refl p.0)
soonest-has_key p (q ∷ t) = ground (arith, soonest-has_key p t, soonest-has_key q t)

length-remove : (d : String) (t : Table) → has_key d t ≡ true → length (remove d t) < length t
unfolding remove keep
length-remove d [] h = ground arith
length-remove d (p ∷ t) h =
    ground (arith, length-remove d t, length-keep (λ p. not (text_beq p.0 d)) t)

length-drop_soonest : (p : String × Session) (t : Table) → length (drop_soonest (p ∷ t)) ≤ length t
length-drop_soonest p t =
    let h = length-remove (soonest p t).0 (p ∷ t) (soonest-has_key p t) in omega arith

evict-room : (max n : ℕ) (t : Table) → 1 ≤ max → length t ≤ n → length (evict n max t) < max
unfolding evict
evict-room max zero [] h k = omega arith
evict-room max zero (p ∷ t) h k = omega arith
evict-room max (suc n) [] h k = ground arith
evict-room max (suc n) (p ∷ t) h k =
    ground (arith, length-drop_soonest p t, evict-room max n (drop_soonest (p ∷ t)))

evict-fuel :
    (max n m : ℕ) (t : Table)
    → 1 ≤ max
    → length t ≤ n
    → length t ≤ m
    → evict n max t ≡ evict m max t
unfolding evict
evict-fuel max zero zero t h k l = refl
evict-fuel max zero (suc m) [] h k l = ground arith
evict-fuel max (suc n) zero [] h k l = ground arith
evict-fuel max (suc n) (suc m) [] h k l = ground arith
evict-fuel max zero m (p ∷ t) h k l = ground arith
evict-fuel max (suc n) zero (p ∷ t) h k l = ground arith
evict-fuel max (suc n) (suc m) (p ∷ t) h k l =
    ground (arith, length-drop_soonest p t, evict-fuel max n m (drop_soonest (p ∷ t)))

-- The loop that makes room for a session ends by itself, for a bound of at least one: as many
-- turns as there are sessions leave fewer sessions than the bound, and turns beyond them change
-- nothing.
pub evict-ends :
    (max n : ℕ) (t : Table)
    → 1 ≤ max
    → length t ≤ n
    → (length (evict n max t) < max) × (evict n max t ≡ evict (length t) max t)
evict-ends max n t h k = (evict-room max n t h k, evict-fuel max n (length t) t h k (omega arith))

length-admit :
    ⦃lib : Libs⦄ (max current : ℕ) (d : String) (s : Session) (t : Table)
    → 1 ≤ max
    → length (admit max current d s t) ≤ max
unfolding admit
length-admit max current d s t h =
    let live = unexpired current t in
    omega (
      arith,
      length-assign d s (evict (length live) max live),
      evict-room max (length live) live h (omega arith),
    )

module _ ⦃lib : Libs⦄ (o : Settings) (bound : 1 ≤ o.max_sessions) where
  abbrev Bounded : Table → Type 0
  Bounded t = length t ≤ o.max_sessions

  open_at-Bounded :
      (i : UserIdentity) (e : ℕ) (token : String) (current : ℕ) (t : Table)
      → Bounded t
      → Bounded (open_at o i e token current t).1
  unfolding open_at
  open_at-Bounded i e token current t h = ground (
    arith,
    length-admit o.max_sessions current (lib.sha256 token)
        (record { identity = i; expires_at = min (current + o.lifetime) e }) t,
  )

  remove-Bounded : (d : String) (t : Table) → Bounded t → Bounded (remove d t)
  unfolding remove
  remove-Bounded d t h = omega (arith, length-keep (λ p. not (text_beq p.0 d)) t)

  found-Bounded :
      (d : String) (current : ℕ) (f : Option Session) (t : Table)
      → Bounded t
      → Bounded (found_session d current f t).1
  found-Bounded d current none t h = h
  found-Bounded d current (some s) t h = ground (arith, remove-Bounded d t)

  step-Bounded : (c : SessionCall) (t : Table) → Bounded t → Bounded (step o c t)
  unfolding step open_session verify close
  step-Bounded (opens i naive now token) t h = h
  step-Bounded (opens i (aware e) now token) t h = read (clock now)
    where
      read : (r : Answer _ ℕ) → Bounded (with_clock r (open_at o i e token) t).1
      read (returns current) = open_at-Bounded i e token current t h
      read (raises x) = h
  step-Bounded (verifies token now) t h = shaped (is_token token)
    where
      read :
          (r : Answer _ ℕ)
          → Bounded
              (with_clock r
                (λ current u. found_session (lib.sha256 token) current (get (lib.sha256 token) u) u)
                t).1
      read (returns current) =
          found-Bounded (lib.sha256 token) current (get (lib.sha256 token) t) t h
      read (raises x) = h

      shaped :
          (b : Bool)
          → Bounded
              (if b
                then with_clock
                    (clock now)
                    (λ current u.
                      found_session (lib.sha256 token) current (get (lib.sha256 token) u) u)
                    t
                else (raises failroom.Api.Authentication.required, t)).1
      shaped true = read (clock now)
      shaped false = h
  step-Bounded (closes token) t h = ground (arith, remove-Bounded (lib.sha256 token) t)

  -- Whatever calls are made, in whatever order and at whatever readings of the clock, the table
  -- never holds more sessions than the settings allow.
  pub run-Bounded :
      (cs : List SessionCall) (t : Table)
      → length t ≤ o.max_sessions
      → length (run o cs t) ≤ o.max_sessions
  unfolding run
  run-Bounded [] t h = h
  run-Bounded (c ∷ cs) t h = run-Bounded cs (step o c t) (step-Bounded c t h)
