-- ===== src/Prelude/Equality.antt =====
-- Equality tests by instance. The test of texts is shut: proofs use its law, tests unfold it.
use Prim.Native.Nat.{ℕ}
use Prim.Native.String.{String}
use mathlib.Core.Path.{◌≡◌, refl}
use mathlib.Core.Bool.{Bool, true, false}
use mathlib.Core.Option.{Option, none, some}
use text.Mathlib.Text.{◌==◌ as str_eq}
use text.Mathlib.TextEquality.{eq_iff}
use failroom.Prelude.Tests.{nat_beq, nat_beq→eq, nat_beq_refl}

pub record Eq (A : Type 0) : Type 0 where
  pub beq : A → A → Bool
  pub beq→eq : (a b : A) → beq a b ≡ true → a ≡ b
  pub beq_refl : (a : A) → beq a a ≡ true

infix 50 ◌==◌
abbrev pub ◌==◌ : {A : Type 0} ⦃e : Eq A⦄ → A → A → Bool
◌==◌ ⦃e⦄ = e.beq

unfoldable pub text_beq : String → String → Bool
text_beq s t = str_eq s t

pub text_beq→eq : (s t : String) → text_beq s t ≡ true → s ≡ t
unfolding text_beq
text_beq→eq s t h = (eq_iff s t).0 h

pub text_beq_refl : (s : String) → text_beq s s ≡ true
unfolding text_beq
text_beq_refl s = (eq_iff s s).1 refl

instance abbrev pub nat_eq : Eq ℕ
nat_eq = record { beq = nat_beq; beq→eq = nat_beq→eq; beq_refl = nat_beq_refl }

instance abbrev pub text_eq : Eq String
text_eq = record { beq = text_beq; beq→eq = text_beq→eq; beq_refl = text_beq_refl }

-- An optional value that is present and equal to the given one; a missing one equals nothing.
abbrev pub has : {A : Type 0} ⦃e : Eq A⦄ → Option A → A → Bool
has none x = false
has (some y) x = y == x
