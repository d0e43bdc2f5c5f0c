-- ===== src/Sandbox/Pty.antt =====
-- pty.py, _SubprocessPtySession: one terminal session, its budget and its end.
use failroom.Prelude.{
  ℕ, zero, suc, ◌+◌, ◌-◌, ◌*◌, min, Bool, true, false, ◌&&◌, ◌||◌, List, [], ◌∷◌, ◌++◌, Option,
  none, some, leb, nat_beq, if◌then◌else◌, length,
}
use failroom.Prelude.Tables.{take}
use failroom.Prelude.Answers.{Answer, returns, raises}
use failroom.Sandbox.Limits.{
  PtyCode, invalid_request, pty_unavailable, input_limit, output_limit, session_ended,
  session_expired, PtyLimits, size,
}

-- a bytes object
abbrev pub Bytes : Type 0
Bytes = List ℕ

-- `os.read` on a PTY that does not block
pub data ReadReply : Type 0 where
  bytes : Bytes → ReadReply
  would_block failed : ReadReply

-- What the operating system and the client process answer, call by call: monotonic time in
-- nanoseconds, reads up to a length, the length that a write took, whether setting a size and
-- telling the client went through, and whether the client has exited when it is waited for.
pub record Outside : Type 0 where
  pub time : ℕ → ℕ
  pub read : ℕ → ℕ → ReadReply
  pub write : ℕ → Bytes → Option ℕ
  pub resized : ℕ → Bool
  pub exited : ℕ → Bool

-- What a session does to the world.
pub data Effect : Type 0 where
  cleans terminates closes_descriptor : Effect
  sends : Bytes → Effect
  resizes : ℕ → ℕ → Effect

-- what the constructor is given: `_started`, whether there is a cleanup, and whether the platform
-- has `fcntl` and `termios`
pub record Opened : Type 0 where
  pub limits : PtyLimits
  pub started : ℕ
  pub has_cleanup : Bool
  pub has_termios : Bool

-- the fields that change, the effects so far, newest first, and the number of outside calls
pub record Pty : Type 0 where
  pub pending : Bytes
  pub output_bytes : ℕ
  pub closed : Bool
  pub ended : Bool
  pub effects : List Effect
  pub calls : ℕ

abbrev pub new_session : Bytes → Pty
new_session pending = record {
  pending = pending;
  output_bytes = 0;
  closed = false;
  ended = false;
  effects = [];
  calls = 0;
}

abbrev pub Op : Type 0 → Type 0
Op A = Pty → Answer PtyCode A × Pty

unfoldable pub drop : {A : Type 0} → ℕ → List A → List A
drop zero xs = xs
drop (suc n) [] = []
drop (suc n) (x ∷ xs) = drop n xs

abbrev pub called : Pty → Pty
called s = record s { calls = suc s.calls }

-- a request to a session
pub data Request : Type 0 where
  reads : ℕ → Request
  writes : Bytes → Request
  resizes_to : Option ℕ → Option ℕ → Request
  signals : ℕ → Request
  ends : Request

abbrev pub shown : Answer PtyCode Bytes → Bytes
shown (returns data_) = data_
shown (raises e) = []

module _ (o : Opened) where
  -- `close`: the cleanup first, whatever it raises, then the client, then the descriptor
  unfoldable pub close : Pty → Pty
  close s = if s.closed then s else record s {
    closed = true;
    effects =
        closes_descriptor ∷ terminates ∷ (if o.has_cleanup then cleans ∷ s.effects else s.effects);
  }

  abbrev pub ended_code : Bool → PtyCode
  ended_code ended = if ended then session_ended else pty_unavailable

  module _ (out : Outside) where
    -- `_fail`, with the error that it makes
    unfoldable pub fail : Pty → PtyCode × Pty
    fail s =
        let ended = s.ended || out.exited s.calls in
        (ended_code ended, close (record (called s) { ended = ended }))

    abbrev pub failing : {A : Type 0} → Op A
    failing s = let (e, t) = fail s in (raises e, t)

    abbrev pub is_expired : Pty → Bool
    is_expired s = leb (o.limits.session_seconds * 1000000000) (out.time s.calls - o.started)

    -- `_ensure_active`, and then the rest
    unfoldable pub active : {A : Type 0} → Op A → Op A
    active m s =
        if s.closed
        then (raises (ended_code s.ended), s)
        else if is_expired s
        then (raises session_expired, close (called s))
        else m (called s)

    abbrev pub read_reply : ReadReply → Op Bytes
    read_reply (bytes data_) s =
        (returns data_, record s { output_bytes = s.output_bytes + length data_ })
    read_reply would_block s = (returns [], s)
    read_reply failed s = failing s

    -- `if self._pending: …`
    abbrev pub from_pending : ℕ → Bytes → Op Bytes
    from_pending n [] s = read_reply (out.read s.calls n) (called s)
    from_pending n (b ∷ bs) s =
        let data_ = take n (b ∷ bs) in
        (
          returns data_,
          record s {
            pending = drop (length data_) (b ∷ bs);
            output_bytes = s.output_bytes + length data_;
          },
        )

    -- `read`, once the session is known to be active
    unfoldable pub read_active : ℕ → Op Bytes
    read_active maximum s =
        if leb 1 maximum && leb maximum o.limits.output_bytes
        then (let remaining = o.limits.output_bytes - s.output_bytes in
            if leb remaining 0
            then (raises output_limit, close s)
            else from_pending (min maximum remaining) s.pending s)
        else (raises output_limit, s)

    unfoldable pub read : ℕ → Op Bytes
    read maximum = active (read_active maximum)

    abbrev pub wrote : Option ℕ → Bytes → (ℕ → Op (Unit {0})) → Op (Unit {0})
    wrote none remaining k s = failing s
    wrote (some n) remaining k s = k n (record s { effects = sends (take n remaining) ∷ s.effects })

    -- `while remaining: …`, on fuel
    unfoldable pub write_loop : ℕ → Bytes → Op (Unit {0})
    write_loop fuel [] s = (returns tt, s)
    -- out of fuel
    write_loop zero (b ∷ bs) s = (returns tt, s)
    write_loop (suc fuel) (b ∷ bs) s =
        wrote (out.write s.calls (b ∷ bs)) (b ∷ bs) (λ n. write_loop fuel (drop n (b ∷ bs)))
          (called s)

    unfoldable pub write_active : Bytes → Op (Unit {0})
    write_active data_ s =
        if leb (length data_) o.limits.input_bytes
        then write_loop (length data_) data_ s
        else (raises input_limit, s)

    unfoldable pub write : Bytes → Op (Unit {0})
    write data_ = active (write_active data_)

    abbrev pub resize_to : Option (ℕ × ℕ) → Op (Unit {0})
    resize_to none s = (raises invalid_request, s)
    resize_to (some (r, c)) s =
        if o.has_termios
        then (if out.resized s.calls
            then (returns tt, record (called s) { effects = resizes r c ∷ s.effects })
            else failing (called s))
        else (raises pty_unavailable, s)

    unfoldable pub resize : Option ℕ → Option ℕ → Op (Unit {0})
    resize rows columns = active (resize_to (size rows columns o.limits))

    -- `_SIGNALS` has SIGINT only, which the terminal's interrupt byte stands for
    unfoldable pub signal : ℕ → Op (Unit {0})
    signal value =
        active λ s. if nat_beq value 2 then write (3 ∷ []) s else (raises invalid_request, s)

    -- a request, and what it returns to the reader
    unfoldable pub handle : Request → Pty → Bytes × Pty
    handle (reads n) s = let (r, t) = read n s in (shown r, t)
    handle (writes data_) s = ([], (write data_ s).1)
    handle (resizes_to r c) s = ([], (resize r c s).1)
    handle (signals v) s = ([], (signal v s).1)
    handle ends s = ([], close s)

    unfoldable pub handle_all : List Request → Pty → Bytes × Pty
    handle_all [] s = ([], s)
    handle_all (q ∷ qs) s =
        let (data_, t) = handle q s in let (rest, u) = handle_all qs t in (data_ ++ rest, u)
