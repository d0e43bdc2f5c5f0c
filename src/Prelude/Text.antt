-- ===== src/Prelude/Text.antt =====
-- The texts that the regular expressions of the source accept.
use Prim.Native.Nat.{ℕ, suc}
use Prim.Native.Char.{code}
use Prim.Native.String.{String}
use mathlib.Core.Option.{Option, none, some}
use mathlib.Core.Bool.{Bool, true, false, ◌&&◌, ◌||◌}
use mathlib.Core.List.{List, [], ◌∷◌}
use failroom.Prelude.Tests.{leb, nat_beq, if◌then◌else◌}

abbrev pub codes : String → List ℕ
codes String.[] = []
codes (String.◌∷◌ c s) = code c ∷ codes s

abbrev pub length {ℓ} : {A : Type ℓ} → List A → ℕ
length [] = 0
length (x ∷ xs) = suc (length xs)

abbrev pub all {ℓ} : {A : Type ℓ} → (A → Bool) → List A → Bool
all p [] = true
all p (x ∷ xs) = p x && all p xs

abbrev between : ℕ → ℕ → ℕ → Bool
between lo hi c = leb lo c && leb c hi

-- [0-9a-f]
pub is_hex : ℕ → Bool
is_hex c = between b'0' b'9' c || between b'a' b'f' c

-- [A-Za-z0-9_.:-]
pub is_identifier_char : ℕ → Bool
is_identifier_char c =
    between b'A' b'Z' c
    || between b'a' b'z' c
    || between b'0' b'9' c
    || nat_beq c b'_'
    || nat_beq c b'.'
    || nat_beq c b':'
    || nat_beq c b'-'

-- [A-Za-z0-9_.:-]{1,256}
unfoldable pub is_identifier : String → Bool
unfolding is_identifier_char
is_identifier s =
    let n = length (codes s) in leb 1 n && leb n 256 && all is_identifier_char (codes s)

-- [0-9a-f]{n}
unfoldable pub is_hex_of : ℕ → String → Bool
unfolding is_hex
is_hex_of n s = nat_beq (length (codes s)) n && all is_hex (codes s)

-- The text without a prefix of literal characters, and `none` if it has another beginning.
strip : List ℕ → List ℕ → Option (List ℕ)
strip [] cs = some cs
strip (p ∷ ps) [] = none
strip (p ∷ ps) (c ∷ cs) = let rest = strip ps cs in if nat_beq p c then rest else none

abbrev rest_is_hex : ℕ → Option (List ℕ) → Bool
rest_is_hex n none = false
rest_is_hex n (some cs) = nat_beq (length cs) n && all is_hex cs

-- sha256:[a-f0-9]{64}
unfoldable pub is_digest : String → Bool
unfolding is_hex strip
is_digest s = rest_is_hex 64 (strip (codes "sha256:") (codes s))
