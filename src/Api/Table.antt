-- ===== src/Api/Table.antt =====
-- The dictionary of sessions: what its reads and writes do to its length and its rows.
use failroom.Prelude.{
  suc, ◌≤◌, ◌≡◌, refl, Bool, true, false, List, [], ◌∷◌, none, some, length, String, inl, inr,
  Bool-cases, text_beq, text_beq→eq, text_beq_refl, arith, if◌then◌else◌,
}
use failroom.Prelude.Tables.{keep}
use failroom.Api.Sessions.{Session, Table, get, assign, remove}

-- every row of a table has a property
abbrev pub Every : {A : Type 0} → (A → Type 0) → List A → Type 0
Every P [] = Unit {0}
Every P (x ∷ xs) = P x × Every P xs

module _ {A : Type 0} where
  pub length-keep : (p : A → Bool) (xs : List A) → length (keep p xs) ≤ length xs
  unfolding keep
  length-keep p [] = omega arith
  length-keep p (x ∷ xs) = ground (arith, length-keep p xs)

  Every-if :
      (P : A → Type 0) (b : Bool) (x : A) (xs : List A)
      → P x
      → Every P xs
      → Every P (if b then x ∷ xs else xs)
  Every-if P true x xs h k = (h, k)
  Every-if P false x xs h k = k

  pub Every-keep : (P : A → Type 0) (p : A → Bool) (xs : List A) → Every P xs → Every P (keep p xs)
  unfolding keep
  Every-keep P p [] h = tt
  Every-keep P p (x ∷ xs) (h, k) = Every-if P (p x) x (keep p xs) h (Every-keep P p xs k)

pub length-assign : (d : String) (s : Session) (t : Table) → length (assign d s t) ≤ suc (length t)
unfolding assign
length-assign d s [] = omega arith
length-assign d s ((k, x) ∷ t) = ground (arith, length-assign d s t)

Every-cond :
    (P : String × Session → Type 0) (b : Bool) (t u : Table)
    → Every P t
    → Every P u
    → Every P (if b then t else u)
Every-cond P true t u h k = h
Every-cond P false t u h k = k

pub Every-assign :
    (P : String × Session → Type 0) (d : String) (s : Session) (t : Table)
    → P (d, s)
    → Every P t
    → Every P (assign d s t)
unfolding assign
Every-assign P d s [] h k = (h, tt)
Every-assign P d s ((e, x) ∷ t) h (k, l) =
    Every-cond P (text_beq e d) ((d, s) ∷ t) ((e, x) ∷ assign d s t) (h, l)
      (k, Every-assign P d s t h l)

-- What is read has what every row has.
pub Every-get :
    (P : String × Session → Type 0) (d : String) (t : Table) (s : Session)
    → get d t ≡ some s
    → Every P t
    → (k : String) × (k ≡ d) × P (k, s)
unfolding get
Every-get P d [] s e h = ground arith
Every-get P d ((k, x) ∷ t) s e (h, l) = elim (Bool-cases (text_beq k d)) [
  | inl same ↦
      let is : x ≡ s = ground arith in
      (k, text_beq→eq k d same, mathlib.Core.Path.subst (λ y. P (k, y)) is h)
  | inr other ↦ Every-get P d t s (ground arith) l
]

-- A write is read back.
pub get-assign : (d : String) (s : Session) (t : Table) → get d (assign d s t) ≡ some s
unfolding get assign
get-assign d s [] = ground (arith, text_beq_refl d)
get-assign d s ((k, x) ∷ t) = ground (arith, text_beq_refl d, get-assign d s t)

pub get-assign_other :
    (c d : String) (s : Session) (t : Table)
    → text_beq d c ≡ false
    → get c t ≡ none
    → get c (assign d s t) ≡ none
unfolding get assign
get-assign_other c d s [] n h = ground arith
get-assign_other c d s ((k, x) ∷ t) n h =
    ground (arith, get-assign_other c d s t n, text_beq→eq k d)

pub get-keep-none :
    (d : String) (p : String × Session → Bool) (t : Table)
    → get d t ≡ none
    → get d (keep p t) ≡ none
unfolding get keep
get-keep-none d p [] h = refl
get-keep-none d p ((k, x) ∷ t) h = ground (arith, get-keep-none d p t)

-- What is deleted is gone.
pub get-remove : (d : String) (t : Table) → get d (remove d t) ≡ none
unfolding get remove keep
get-remove d [] = refl
get-remove d ((k, x) ∷ t) = ground (arith, get-remove d t)
