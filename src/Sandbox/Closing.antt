-- ===== src/Sandbox/Closing.antt =====
-- pty.py, _SubprocessPtySession.close and _fail: the end of a session.
use failroom.Prelude.{
  ℕ, zero, suc, ◌-◌, ◌≡◌, refl, min, Bool, true, ◌&&◌, ◌||◌, List, [], ◌∷◌, Option, none, some, leb,
  nat_beq, if◌then◌else◌, length, arith, branches,
}
use failroom.Prelude.Answers.{Answer}
use failroom.Sandbox.Limits.{PtyCode, size}
use failroom.Sandbox.Pty.{
  Opened, Outside, Pty, Op, Bytes, ReadReply, bytes, would_block, failed, Request, reads, writes,
  resizes_to, signals, ends, Effect, cleans, terminates, closes_descriptor, sends, resizes, drop,
  close, fail, active, read_reply, from_pending, read_active, read, wrote, write_loop, write_active,
  write, resize_to, resize, signal, handle, handle_all, called, is_expired,
}

abbrev one : Bool → ℕ
one b = if b then 1 else 0

-- how often a session ran its cleanup, ended its client and closed its descriptor
abbrev pub cleaned : List Effect → ℕ
cleaned [] = 0
cleaned (cleans ∷ es) = suc (cleaned es)
cleaned (terminates ∷ es) = cleaned es
cleaned (closes_descriptor ∷ es) = cleaned es
cleaned (sends d ∷ es) = cleaned es
cleaned (resizes r c ∷ es) = cleaned es

abbrev pub terminated : List Effect → ℕ
terminated [] = 0
terminated (cleans ∷ es) = terminated es
terminated (terminates ∷ es) = suc (terminated es)
terminated (closes_descriptor ∷ es) = terminated es
terminated (sends d ∷ es) = terminated es
terminated (resizes r c ∷ es) = terminated es

abbrev pub descriptor_closed : List Effect → ℕ
descriptor_closed [] = 0
descriptor_closed (cleans ∷ es) = descriptor_closed es
descriptor_closed (terminates ∷ es) = descriptor_closed es
descriptor_closed (closes_descriptor ∷ es) = suc (descriptor_closed es)
descriptor_closed (sends d ∷ es) = descriptor_closed es
descriptor_closed (resizes r c ∷ es) = descriptor_closed es

-- a closed session has ended each of these once, an open one none of them
pub record Tidy (o : Opened) (s : Pty) : Type 0 where
  pub cleanup : cleaned s.effects ≡ (if s.closed && o.has_cleanup then 1 else 0)
  pub client : terminated s.effects ≡ (if s.closed then 1 else 0)
  pub descriptor : descriptor_closed s.effects ≡ (if s.closed then 1 else 0)

module _ (o : Opened) (out : Outside) where
  close-Tidy : (s : Pty) → Tidy o s → Tidy o (close o s)
  unfolding close
  close-Tidy s h = record {
    cleanup = ground (arith, h.cleanup);
    client = ground (arith, h.client);
    descriptor = ground (arith, h.descriptor);
  }

  fail-Tidy : (s : Pty) → Tidy o s → Tidy o (fail o out s).1
  unfolding fail
  fail-Tidy s h =
      close-Tidy (record (called s) { ended = s.ended || out.exited s.calls })
        (record { cleanup = h.cleanup; client = h.client; descriptor = h.descriptor })

  again : (s : Pty) → Tidy o s → Tidy o (called s)
  again s h = record { cleanup = h.cleanup; client = h.client; descriptor = h.descriptor }

  module _ {A : Type 0} where
    abbrev Leaves : Answer PtyCode A × Pty → Type 0
    Leaves r = Tidy o r.1

    active-Tidy :
        (m : Op A) (s : Pty)
        → Tidy o s
        → ((t : Pty) → Tidy o t → Leaves (m t))
        → Leaves (active o out m s)
    unfolding active
    active-Tidy m s h k =
        branches Leaves s.closed _ _ (λ _. h)
          λ _.
            branches Leaves (is_expired o out s) _ _ (λ _. close-Tidy (called s) (again s h))
              (λ _. k (called s) (again s h))

  wrote-Tidy :
      (r : Option ℕ) (d : Bytes) (k : ℕ → Op (Unit {0})) (s : Pty)
      → Tidy o s
      → ((n : ℕ) (t : Pty) → Tidy o t → Leaves (k n t))
      → Leaves (wrote o out r d k s)
  wrote-Tidy none d k s h l = fail-Tidy s h
  wrote-Tidy (some n) d k s h l =
      l n _ (record { cleanup = h.cleanup; client = h.client; descriptor = h.descriptor })

  write_loop-Tidy : (fuel : ℕ) (d : Bytes) (s : Pty) → Tidy o s → Leaves (write_loop o out fuel d s)
  unfolding write_loop
  write_loop-Tidy fuel [] s h = h
  write_loop-Tidy zero (b ∷ bs) s h = h
  write_loop-Tidy (suc fuel) (b ∷ bs) s h =
      wrote-Tidy (out.write s.calls (b ∷ bs)) (b ∷ bs) _ (called s) (again s h)
        λ n t. write_loop-Tidy fuel (drop n (b ∷ bs)) t

  write-Tidy : (d : Bytes) (s : Pty) → Tidy o s → Leaves (write o out d s)
  unfolding write write_active
  write-Tidy d s h = active-Tidy (write_active o out d) s h λ t k.
      branches (Leaves {A = Unit {0}}) (leb (length d) o.limits.input_bytes) _ _
        (λ _. write_loop-Tidy (length d) d t k) (λ _. k)

  reply-Tidy : (r : ReadReply) (s : Pty) → Tidy o s → Leaves (read_reply o out r s)
  reply-Tidy (bytes d) s h = record {
    cleanup = h.cleanup;
    client = h.client;
    descriptor = h.descriptor;
  }
  reply-Tidy would_block s h = h
  reply-Tidy failed s h = fail-Tidy s h

  pending-Tidy : (n : ℕ) (p : Bytes) (s : Pty) → Tidy o s → Leaves (from_pending o out n p s)
  pending-Tidy n [] s h = reply-Tidy (out.read s.calls n) (called s) (again s h)
  pending-Tidy n (b ∷ bs) s h = record {
    cleanup = h.cleanup;
    client = h.client;
    descriptor = h.descriptor;
  }

  read-Tidy : (n : ℕ) (s : Pty) → Tidy o s → Leaves (read o out n s)
  unfolding read read_active
  read-Tidy n s h = active-Tidy (read_active o out n) s h λ t k.
      branches (Leaves {A = Bytes}) (leb 1 n && leb n o.limits.output_bytes) _ _
        (λ _.
          branches (Leaves {A = Bytes}) (leb (o.limits.output_bytes - t.output_bytes) 0) _ _
            (λ _. close-Tidy t k)
            (λ _. pending-Tidy (min n (o.limits.output_bytes - t.output_bytes)) t.pending t k))
        (λ _. k)

  resize_to-Tidy : (q : Option (ℕ × ℕ)) (s : Pty) → Tidy o s → Leaves (resize_to o out q s)
  resize_to-Tidy none s h = h
  resize_to-Tidy (some (r, c)) s h =
      branches (Leaves {A = Unit {0}}) o.has_termios _ _
        (λ _.
          branches (Leaves {A = Unit {0}}) (out.resized s.calls) _ _
            (λ _. record { cleanup = h.cleanup; client = h.client; descriptor = h.descriptor })
            (λ _. fail-Tidy (called s) (again s h)))
        (λ _. h)

  handle-Tidy : (q : Request) (s : Pty) → Tidy o s → Tidy o (handle o out q s).1
  unfolding handle resize signal
  handle-Tidy (reads n) s h = read-Tidy n s h
  handle-Tidy (writes d) s h = write-Tidy d s h
  handle-Tidy (resizes_to r c) s h =
      active-Tidy (resize_to o out (size r c o.limits)) s h (λ t. resize_to-Tidy _ t)
  handle-Tidy (signals v) s h = active-Tidy _ s h λ t k.
      branches (Leaves {A = Unit {0}}) (nat_beq v 2) _ _ (λ _. write-Tidy (3 ∷ []) t k) (λ _. k)
  handle-Tidy ends s h = close-Tidy s h

  -- Whatever a client asks of a session, and however the outside answers, a session that has closed
  -- ran its cleanup (where it has one) once, ended its client once and closed its descriptor
  -- once, and a session that is open did none of these.
  pub handle_all-Tidy : (qs : List Request) (s : Pty) → Tidy o s → Tidy o (handle_all o out qs s).1
  unfolding handle_all
  handle_all-Tidy [] s h = h
  handle_all-Tidy (q ∷ qs) s h = handle_all-Tidy qs (handle o out q s).1 (handle-Tidy q s h)

  handle_closed : (q : Request) (s : Pty) → s.closed ≡ true → handle o out q s ≡ ([], s)
  unfolding handle read write resize signal active close
  handle_closed (reads n) s h = ground arith
  handle_closed (writes d) s h = ground arith
  handle_closed (resizes_to r c) s h = ground arith
  handle_closed (signals v) s h = ground arith
  handle_closed ends s h = ground arith

  -- A closed session stays as it is: whatever is asked of it, it shows no data, calls nothing
  -- outside and changes nothing.
  pub handle_all-closed :
      (qs : List Request) (s : Pty) → s.closed ≡ true → handle_all o out qs s ≡ ([], s)
  unfolding handle_all
  handle_all-closed [] s h = refl
  handle_all-closed (q ∷ qs) s h = rw (handle_closed q s h, handle_all-closed qs s h)
