-- ===== src/Sandbox/Limits.antt =====
-- pty.py: PtyError, PtyLimits, and the size that a terminal opens with.
use failroom.Prelude.{ℕ, min, Bool, ◌&&◌, Option, none, some, leb, if◌then◌else◌}
use failroom.Prelude.Answers.{Answer, returns, raises}

-- the codes of PtyError
pub data PtyCode : Type 0 where
  invalid_configuration invalid_request pty_unavailable input_limit output_limit : PtyCode
  session_ended session_expired : PtyCode

pub record PtyLimits : Type 0 where
  pub input_bytes : ℕ
  pub output_bytes : ℕ
  pub session_seconds : ℕ
  pub rows : ℕ
  pub columns : ℕ

abbrev pub within : ℕ → ℕ → ℕ → Bool
within lo hi n = leb lo n && leb n hi

-- `__post_init__` accepts the limits
unfoldable pub limits_valid : PtyLimits → Bool
limits_valid l =
    within 1 1048576 l.input_bytes
    && within 1 16777216 l.output_bytes
    && within 1 3600 l.session_seconds
    && within 1 500 l.rows
    && within 1 1000 l.columns

-- `_size`; `none` stands for an argument that is no int
unfoldable pub size : Option ℕ → Option ℕ → PtyLimits → Option (ℕ × ℕ)
size (some r) (some c) limits =
    if within 1 limits.rows r && within 1 limits.columns c then some (r, c) else none
size (some r) none limits = none
size none columns limits = none

-- `_DEFAULT_ROWS` and `_DEFAULT_COLUMNS`, within the limits
abbrev pub default_size : PtyLimits → ℕ × ℕ
default_size limits = (min 24 limits.rows, min 80 limits.columns)

-- the size that `open` gives the PTY
unfoldable pub opening_size : Option ℕ → Option ℕ → PtyLimits → Answer PtyCode (ℕ × ℕ)
opening_size rows columns limits =
    let asked = size rows columns limits in
    let standard = size (some (default_size limits).0) (some (default_size limits).1) limits in
    or_refused (chosen rows columns asked standard)
  where
    chosen : Option ℕ → Option ℕ → Option (ℕ × ℕ) → Option (ℕ × ℕ) → Option (ℕ × ℕ)
    chosen none none asked standard = standard
    chosen none (some c) asked standard = asked
    chosen (some r) columns asked standard = asked

    or_refused : Option (ℕ × ℕ) → Answer PtyCode (ℕ × ℕ)
    or_refused none = raises invalid_request
    or_refused (some s) = returns s
