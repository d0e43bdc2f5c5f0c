-- ===== src/Sandbox/Sizes.antt =====
-- pty.py, _size, as DockerPtyRuntime.open uses it: the size that a terminal opens with.
use failroom.Prelude.{ℕ, ◌≤◌, ◌≡◌, true, Option, none, some, arith}
use failroom.Prelude.Answers.{returns}
use failroom.Sandbox.Limits.{PtyLimits, limits_valid, size, default_size, opening_size}

pub record Fits (limits : PtyLimits) (s : ℕ × ℕ) : Type 0 where
  pub rows_positive : 1 ≤ s.0
  pub rows : s.0 ≤ limits.rows
  pub columns_positive : 1 ≤ s.1
  pub columns : s.1 ≤ limits.columns

-- the size that was asked for, or else the standard one
abbrev pub Asked : Option ℕ → Option ℕ → PtyLimits → ℕ × ℕ → Type 0
Asked none none limits s = s ≡ default_size limits
Asked (some r) (some c) limits s = s ≡ (r, c)
Asked (some r) none limits s = ⊥
Asked none (some c) limits s = ⊥

-- Under valid limits the size that a PTY opens at is within them, and it is the one that was asked
-- for, or the standard one where none was; half a size is never accepted.
pub opening_size-Fits :
    (limits : PtyLimits) (rows columns : Option ℕ) (s : ℕ × ℕ)
    → limits_valid limits ≡ true
    → opening_size rows columns limits ≡ returns s
    → Fits limits s × Asked rows columns limits s
unfolding opening_size size limits_valid
opening_size-Fits limits none none s h e = ground arith
opening_size-Fits limits none (some c) s h e = ground arith
opening_size-Fits limits (some r) none s h e = ground arith
opening_size-Fits limits (some r) (some c) s h e = ground arith
