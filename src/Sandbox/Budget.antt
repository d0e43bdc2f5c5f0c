-- ===== src/Sandbox/Budget.antt =====
-- pty.py, _SubprocessPtySession.read: the bytes that a session returns.
use failroom.Prelude.{
  ℕ, zero, suc, ◌+◌, ◌-◌, ◌≤◌, ◌≡◌, refl, min, ◌&&◌, ◌||◌, List, [], ◌∷◌, ◌++◌, Option, none, some,
  leb, nat_beq, length, arith, branches,
}
use failroom.Prelude.Tables.{length-take_le}
use failroom.Prelude.Answers.{Answer, raises}
use failroom.Sandbox.Limits.{PtyCode, size, output_limit, session_expired}
use failroom.Sandbox.Pty.{
  Opened, Outside, Pty, Op, Bytes, ReadReply, bytes, would_block, failed, Request, reads, writes,
  resizes_to, signals, ends, new_session, drop, close, fail, active, read_reply, from_pending,
  read_active, read, wrote, write_loop, write_active, write, resize_to, resize, signal, shown,
  handle, handle_all, called, ended_code, is_expired,
}
use failroom.Sandbox.Device.{ReadsWithin}

module _ (o : Opened) (out : Outside) where
  -- An answer that adds what it shows to the count, within the limit.
  record Counted (s : Pty) (r : Bytes × Pty) : Type 0 where
    counted : r.1.output_bytes ≡ s.output_bytes + length r.0
    limited : r.1.output_bytes ≤ o.limits.output_bytes

  abbrev Within : Pty → Type 0
  Within s = s.output_bytes ≤ o.limits.output_bytes

  close-output_bytes : (s : Pty) → (close o s).output_bytes ≡ s.output_bytes
  unfolding close
  close-output_bytes s = ground arith

  fail-output_bytes : (s : Pty) → (fail o out s).1.output_bytes ≡ s.output_bytes
  unfolding fail
  fail-output_bytes s =
      close-output_bytes (record (called s) { ended = s.ended || out.exited s.calls })

  module _ {A : Type 0} where
    abbrev Silent : Pty → Answer PtyCode A × Pty → Type 0
    Silent s r = r.1.output_bytes ≡ s.output_bytes

    active-Silent :
        (m : Op A) (s : Pty) → ((t : Pty) → Silent t (m t)) → Silent s (active o out m s)
    unfolding active
    active-Silent m s h =
        branches (Silent s) s.closed _ _ (λ _. refl)
          λ _.
            branches (Silent s) (is_expired o out s) _ _ (λ _. close-output_bytes (called s))
              (λ _. h (called s))

  wrote-Silent :
      (r : Option ℕ) (data_ : Bytes) (k : ℕ → Op (Unit {0})) (s : Pty)
      → ((n : ℕ) (t : Pty) → Silent t (k n t))
      → Silent s (wrote o out r data_ k s)
  wrote-Silent none data_ k s h = fail-output_bytes s
  wrote-Silent (some n) data_ k s h = h n _

  write_loop-Silent :
      (fuel : ℕ) (data_ : Bytes) (s : Pty)
      → (write_loop o out fuel data_ s).1.output_bytes ≡ s.output_bytes
  unfolding write_loop
  write_loop-Silent fuel [] s = refl
  write_loop-Silent zero (b ∷ bs) s = refl
  write_loop-Silent (suc fuel) (b ∷ bs) s =
      wrote-Silent (out.write s.calls (b ∷ bs)) (b ∷ bs) _ (called s)
        λ n t. write_loop-Silent fuel (drop n (b ∷ bs)) t

  write-Silent : (data_ : Bytes) (s : Pty) → (write o out data_ s).1.output_bytes ≡ s.output_bytes
  unfolding write write_active
  write-Silent data_ s = active-Silent (write_active o out data_) s λ t.
      branches (λ (r : Answer PtyCode (Unit {0}) × Pty). r.1.output_bytes ≡ t.output_bytes)
        (leb (length data_) o.limits.input_bytes) _ _
        (λ _. write_loop-Silent (length data_) data_ t) (λ _. refl)

  resize_to-Silent :
      (q : Option (ℕ × ℕ)) (s : Pty) → (resize_to o out q s).1.output_bytes ≡ s.output_bytes
  resize_to-Silent none s = refl
  resize_to-Silent (some (r, c)) s = ground (arith, fail-output_bytes (called s))

  resize-Silent : (r c : Option ℕ) (s : Pty) → (resize o out r c s).1.output_bytes ≡ s.output_bytes
  unfolding resize
  resize-Silent r c s =
      active-Silent (resize_to o out (size r c o.limits)) s (λ t. resize_to-Silent _ t)

  signal-Silent : (v : ℕ) (s : Pty) → (signal o out v s).1.output_bytes ≡ s.output_bytes
  unfolding signal
  signal-Silent v s = active-Silent _ s λ t.
      branches (λ (r : Answer PtyCode (Unit {0}) × Pty). r.1.output_bytes ≡ t.output_bytes)
        (nat_beq v 2) _ _ (λ _. write-Silent (3 ∷ []) t) (λ _. refl)

  module _ (device : ReadsWithin out) where
    abbrev Read : Pty → Answer PtyCode Bytes × Pty → Type 0
    Read s r = Counted s (shown r.0, r.1)

    silent :
        (e : PtyCode) (s t : Pty)
        → Within s
        → t.output_bytes ≡ s.output_bytes
        → Read s (raises e, t)
    silent x s t h e = record { counted = omega arith; limited = omega arith }

    reply-Read :
        (r : ReadReply) (n : ℕ) (s : Pty)
        → ((data_ : Bytes) → r ≡ bytes data_ → length data_ ≤ n)
        → n + s.output_bytes ≤ o.limits.output_bytes
        → Read s (read_reply o out r s)
    reply-Read (bytes d) n s h k = record { counted = refl; limited = omega (arith, h d refl) }
    reply-Read would_block n s h k = record { counted = omega arith; limited = omega arith }
    reply-Read failed n s h k = silent (fail o out s).0 s _ (omega arith) (fail-output_bytes s)

    pending-Read :
        (n : ℕ) (p : Bytes) (s : Pty)
        → n + s.output_bytes ≤ o.limits.output_bytes
        → Read s (from_pending o out n p s)
    pending-Read n [] s k =
        let r = reply-Read (out.read s.calls n) n (called s) (device.read_le s.calls n) k in
        record { counted = r.counted; limited = r.limited }
    pending-Read n (b ∷ bs) s k = record {
      counted = refl;
      limited = omega (arith, length-take_le n (b ∷ bs));
    }

    read_active-Read : (maximum : ℕ) (s : Pty) → Within s → Read s (read_active o out maximum s)
    unfolding read_active
    read_active-Read maximum s h =
        branches (Read s) (leb 1 maximum && leb maximum o.limits.output_bytes) _ _
          (λ _.
            branches (Read s) (leb (o.limits.output_bytes - s.output_bytes) 0) _ _
              (λ _. silent output_limit s (close o s) h (close-output_bytes s))
              (λ _.
                pending-Read (min maximum (o.limits.output_bytes - s.output_bytes)) s.pending s
                  (omega arith)))
          (λ _. silent output_limit s s h refl)

    read-Read : (maximum : ℕ) (s : Pty) → Within s → Read s (read o out maximum s)
    unfolding read active
    read-Read maximum s h =
        branches (Read s) s.closed _ _ (λ _. silent (ended_code o s.ended) s s h refl)
          λ _.
            branches (Read s) (is_expired o out s) _ _
              (λ _. silent session_expired s _ h (close-output_bytes (called s)))
              (λ _.
                let r = read_active-Read maximum (called s) h in
                record { counted = r.counted; limited = r.limited })

    quiet : (s t : Pty) → Within s → t.output_bytes ≡ s.output_bytes → Counted s ([], t)
    quiet s t h e = record { counted = omega arith; limited = omega arith }

    handle-Counted : (q : Request) (s : Pty) → Within s → Counted s (handle o out q s)
    unfolding handle
    handle-Counted (reads n) s h = read-Read n s h
    handle-Counted (writes d) s h = quiet s _ h (write-Silent d s)
    handle-Counted (resizes_to r c) s h = quiet s _ h (resize-Silent r c s)
    handle-Counted (signals v) s h = quiet s _ h (signal-Silent v s)
    handle-Counted ends s h = quiet s _ h (close-output_bytes s)

    length-append : (xs ys : Bytes) → length (xs ++ ys) ≡ length xs + length ys
    length-append [] ys = omega arith
    length-append (x ∷ xs) ys = omega (arith, length-append xs ys)

    handle_all-Counted :
        (qs : List Request) (s : Pty) → Within s → Counted s (handle_all o out qs s)
    unfolding handle_all
    handle_all-Counted [] s h = record { counted = omega arith; limited = h }
    handle_all-Counted (q ∷ qs) s h =
        let first = handle-Counted q s h in
        let rest = handle_all-Counted qs (handle o out q s).1 first.limited in
        record {
          counted = omega (
            arith,
            first.counted,
            rest.counted,
            length-append (handle o out q s).0 (handle_all o out qs (handle o out q s).1).0,
          );
          limited = rest.limited;
        }

    -- Whatever a client asks of a session, in whatever order, all that it is ever given to read
    -- is no longer than the output limit, where a read of the PTY returns no more than it was
    -- asked for.
    pub handle_all-limit :
        (qs : List Request) (pending : Bytes)
        → length (handle_all o out qs (new_session pending)).0 ≤ o.limits.output_bytes
    handle_all-limit qs pending =
        let all = handle_all-Counted qs (new_session pending) (omega arith) in
        omega (arith, all.counted, all.limited)
