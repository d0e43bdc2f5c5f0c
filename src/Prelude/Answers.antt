-- ===== src/Prelude/Answers.antt =====
-- What a call comes to: a value, or an exception with its code.
use mathlib.Core.Path.{◌≡◌, refl}
use mathlib.Core.Bool.{Bool, true, false}
use native.Mathlib.Omega.{arith}

pub data Answer (E A : Type 0) : Type 0 where
  returns : A → Answer E A
  raises : E → Answer E A

infixl 5 ◌>>=◌ ◌>>◌
abbrev pub ◌>>=◌ : {E A B : Type 0} → Answer E A → (A → Answer E B) → Answer E B
returns a >>= f = f a
raises e >>= f = raises e

abbrev pub ◌>>◌ : {E A B : Type 0} → Answer E A → Answer E B → Answer E B
m >> n = m >>= λ _. n

-- `if c: raise Error(e)`
abbrev pub raise_when : {E : Type 0} → Bool → E → Answer E (Unit {0})
raise_when true e = raises e
raise_when false e = returns tt

-- a chain that returns went through its first part
pub bind-returns :
    {E A B : Type 0} (m : Answer E A) (f : A → Answer E B) (b : B)
    → (m >>= f) ≡ returns b
    → (a : A) × (m ≡ returns a) × (f a ≡ returns b)
bind-returns (returns a) f b h = (a, refl, h)
bind-returns (raises e) f b h = ground arith

pub unless-returns :
    {E B : Type 0} (c : Bool) (e : E) (m : Answer E B) (b : B)
    → (raise_when c e >> m) ≡ returns b
    → (c ≡ false) × (m ≡ returns b)
unless-returns true e m b h = ground arith
unless-returns false e m b h = (refl, h)

pub raise_when-returns : {E : Type 0} (c : Bool) (e : E) → raise_when c e ≡ returns tt → c ≡ false
raise_when-returns true e h = ground arith
raise_when-returns false e h = refl

-- a chain goes on with what its first part returns
pub bind-value :
    {E A B : Type 0} (m : Answer E A) (f : A → Answer E B) (a : A) → m ≡ returns a → (m >>= f) ≡ f a
bind-value (returns x) f a h = ground arith
bind-value (raises e) f a h = ground arith

pub unless-value :
    {E B : Type 0} (c : Bool) (e : E) (m : Answer E B) → c ≡ false → (raise_when c e >> m) ≡ m
unless-value true e m h = ground arith
unless-value false e m h = refl
