-- ===== src/Sandbox/Device.antt =====
-- Documented behaviour of os.read and os.write, as hypotheses: a read returns no more than it was
-- asked for, and a write takes at least a byte and no more than it was given.
use failroom.Prelude.{ℕ, ◌≤◌, ◌≡◌, some, length}
use failroom.Sandbox.Pty.{Outside, Bytes, bytes}

pub record ReadsWithin (out : Outside) : Type 0 where
  pub read_le :
      (call limit : ℕ) (data_ : Bytes) → out.read call limit ≡ bytes data_ → length data_ ≤ limit

pub record WritesSome (out : Outside) : Type 0 where
  pub write_some :
      (call n : ℕ) (data_ : Bytes)
      → 1 ≤ length data_
      → out.write call data_ ≡ some n
      → (1 ≤ n) × (n ≤ length data_)
