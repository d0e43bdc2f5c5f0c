-- ===== src/Sandbox/Writing.antt =====
-- pty.py, _SubprocessPtySession.write: the bytes that are handed to the PTY.
use failroom.Prelude.{
  ℕ, zero, suc, ◌+◌, ◌≤◌, ◌≡◌, refl, sym, ap, ◌∙◌, List, [], ◌∷◌, ◌++◌, Option, none, some, leb,
  length, arith, branches,
}
use failroom.Prelude.Tables.{take}
use failroom.Prelude.Answers.{Answer, returns, raises}
use failroom.Sandbox.Limits.{PtyCode, input_limit, session_expired}
use failroom.Sandbox.Pty.{
  Opened, Outside, Pty, Op, Bytes, Effect, cleans, terminates, closes_descriptor, sends, resizes,
  drop, close, fail, active, wrote, write_loop, write_active, write, called, ended_code, is_expired,
}
use failroom.Sandbox.Device.{WritesSome}

-- the bytes that a session has sent, oldest first
abbrev pub sent : List Effect → Bytes
sent [] = []
sent (cleans ∷ es) = sent es
sent (terminates ∷ es) = sent es
sent (closes_descriptor ∷ es) = sent es
sent (sends d ∷ es) = sent es ++ d
sent (resizes r c ∷ es) = sent es

take-drop : (n : ℕ) (d : Bytes) → take n d ++ drop n d ≡ d
unfolding take drop
take-drop zero d = refl
take-drop (suc n) [] = refl
take-drop (suc n) (b ∷ d) = ap (λ t. b ∷ t) (take-drop n d)

length-drop : (n : ℕ) (d : Bytes) → n ≤ length d → length (drop n d) + n ≡ length d
unfolding drop
length-drop zero d h = omega arith
length-drop (suc n) [] h = omega arith
length-drop (suc n) (b ∷ d) h = omega (arith, length-drop n d (omega arith))

append_assoc : (xs ys zs : Bytes) → (xs ++ ys) ++ zs ≡ xs ++ (ys ++ zs)
append_assoc [] ys zs = refl
append_assoc (x ∷ xs) ys zs = ap (λ t. x ∷ t) (append_assoc xs ys zs)

append_nil : (xs : Bytes) → xs ++ [] ≡ xs
append_nil [] = refl
append_nil (x ∷ xs) = ap (λ t. x ∷ t) (append_nil xs)

module _ (o : Opened) (out : Outside) (device : WritesSome out) where
  -- A write that returns has sent the bytes, behind what was sent before.
  abbrev Sends : Bytes → Pty → Answer PtyCode (Unit {0}) × Pty → Type 0
  Sends d s r = r.0 ≡ returns tt → sent r.1.effects ≡ sent s.effects ++ d

  refused : (e : PtyCode) (d : Bytes) (s t : Pty) → Sends d s (raises e, t)
  refused e d s t ok_ = ground arith

  sends_rest :
      (n : ℕ) (d : Bytes) (s t : Pty) (r : Answer PtyCode (Unit {0}) × Pty)
      → t.effects ≡ sends (take n d) ∷ s.effects
      → Sends (drop n d) t r
      → Sends d s r
  sends_rest n d s t r e h ok_ =
      h ok_
      ∙ ap (λ es. sent es ++ drop n d) e
      ∙ append_assoc (sent s.effects) (take n d) (drop n d)
      ∙ ap (λ x. sent s.effects ++ x) (take-drop n d)

  wrote-Sends :
      (r : Option ℕ) (d : Bytes) (k : ℕ → Op (Unit {0})) (s : Pty)
      → ((n : ℕ) → r ≡ some n → (t : Pty) → Sends (drop n d) t (k n t))
      → Sends d s (wrote o out r d k s)
  wrote-Sends none d k s h = refused (fail o out s).0 d s (fail o out s).1
  wrote-Sends (some n) d k s h =
      let t = record s { effects = sends (take n d) ∷ s.effects } in
      sends_rest n d s t (k n t) refl (h n refl t)

  write_loop-Sends :
      (fuel : ℕ) (d : Bytes) (s : Pty) → length d ≤ fuel → Sends d s (write_loop o out fuel d s)
  unfolding write_loop
  write_loop-Sends fuel [] s h = λ _. sym (append_nil (sent s.effects))
  write_loop-Sends zero (b ∷ bs) s h = λ _. ground arith
  write_loop-Sends (suc fuel) (b ∷ bs) s h =
      wrote-Sends (out.write s.calls (b ∷ bs)) (b ∷ bs) _ (called s) λ n e t.
        let (some_, within) = device.write_some s.calls n (b ∷ bs) (omega arith) e in
        write_loop-Sends fuel (drop n (b ∷ bs)) t (omega (arith, length-drop n (b ∷ bs) within))

  -- A write that returns has sent exactly its bytes, in order, behind all that was sent before,
  -- where each write of the PTY takes at least a byte and no more than it was given.
  pub write-sends :
      (d : Bytes) (s : Pty)
      → (write o out d s).0 ≡ returns tt
      → sent (write o out d s).1.effects ≡ sent s.effects ++ d
  unfolding write write_active active
  write-sends d s =
      branches (Sends d s) s.closed _ _ (λ _. refused (ended_code o s.ended) d s s)
        λ _.
          branches (Sends d s) (is_expired o out s) _ _
            (λ _. refused session_expired d s (close o (called s)))
            λ _.
              branches (Sends d s) (leb (length d) o.limits.input_bytes) _ _
                (λ _. write_loop-Sends (length d) d (called s) (omega arith))
                (λ _. refused input_limit d s (called s))

  wrote-fuel :
      (r : Option ℕ) (d : Bytes) (k l : ℕ → Op (Unit {0})) (s : Pty)
      → ((n : ℕ) → r ≡ some n → (t : Pty) → k n t ≡ l n t)
      → wrote o out r d k s ≡ wrote o out r d l s
  wrote-fuel none d k l s h = refl
  wrote-fuel (some n) d k l s h = h n refl _

  any_fuel :
      (m n : ℕ) (d : Bytes) (s : Pty)
      → length d ≤ m
      → length d ≤ n
      → write_loop o out m d s ≡ write_loop o out n d s
  unfolding write_loop
  any_fuel m n [] s h k = refl
  any_fuel zero n (b ∷ bs) s h k = ground arith
  any_fuel (suc m) zero (b ∷ bs) s h k = ground arith
  any_fuel (suc m) (suc n) (b ∷ bs) s h k =
      wrote-fuel (out.write s.calls (b ∷ bs)) (b ∷ bs) _ _ (called s) λ x e t.
        let (some_, within) = device.write_some s.calls x (b ∷ bs) (omega arith) e in
        let shorter = length-drop x (b ∷ bs) within in
        any_fuel m n (drop x (b ∷ bs)) t (omega arith) (omega arith)

  -- The loop of a write ends by itself: turns beyond the number of bytes change nothing of it,
  -- where each write of the PTY takes at least a byte and no more than it was given.
  pub write_loop-ends :
      (fuel : ℕ) (d : Bytes) (s : Pty)
      → length d ≤ fuel
      → write_loop o out fuel d s ≡ write_loop o out (length d) d s
  write_loop-ends fuel d s h = any_fuel fuel (length d) d s h (omega arith)
