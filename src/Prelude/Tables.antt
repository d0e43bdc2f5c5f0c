-- ===== src/Prelude/Tables.antt =====
-- A table as a list of rows, with the reads and writes by key that the queries make.
use mathlib.Core.Path.{◌≡◌}
use mathlib.Core.Bool.{Bool, true, false}
use mathlib.Core.Option.{Option, none, some}
use mathlib.Core.List.{List, [], ◌∷◌, ◌++◌}
use native.Mathlib.Omega.{arith}
use Prim.Native.Nat.{ℕ, zero, suc, ◌≤◌}
use mathlib.Core.Path.{subst, refl}
use mathlib.Core.Logic.{inl, inr, ◌⊎◌}
use failroom.Prelude.Tests.{if◌then◌else◌, Bool-cases}
use failroom.Prelude.Text.{length}

module _ {A : Type 0} where
  -- `SELECT … WHERE p` with `fetchone`
  unfoldable pub find : (A → Bool) → List A → Option A
  find p [] = none
  find p (x ∷ xs) = if p x then some x else find p xs

  -- the row that a unique key selects is replaced
  unfoldable pub put : (A → Bool) → A → List A → List A
  put p y [] = []
  put p y (x ∷ xs) = if p x then y ∷ xs else x ∷ put p y xs

  unfoldable pub insert_row : A → List A → List A
  insert_row y xs = xs ++ y ∷ []

  unfoldable pub keep : (A → Bool) → List A → List A
  keep p [] = []
  keep p (x ∷ xs) = let rest = keep p xs in if p x then x ∷ rest else rest

  -- `LIMIT n`
  unfoldable pub take : ℕ → List A → List A
  take zero xs = []
  take (suc n) [] = []
  take (suc n) (x ∷ xs) = x ∷ take n xs

  -- `ORDER BY`: stable insertion by an order given as a test
  unfoldable pub insert_by : (A → A → Bool) → A → List A → List A
  insert_by le y [] = y ∷ []
  insert_by le y (x ∷ xs) = if le y x then y ∷ x ∷ xs else x ∷ insert_by le y xs

  unfoldable pub order_by : (A → A → Bool) → List A → List A
  unfolding insert_by
  order_by le [] = []
  order_by le (x ∷ xs) = insert_by le x (order_by le xs)

  pub find-test : (p : A → Bool) (xs : List A) (x : A) → find p xs ≡ some x → p x ≡ true
  unfolding find
  find-test p [] x h = ground arith
  find-test p (y ∷ ys) x h = ground (arith, find-test p ys x)

  -- A write through a key that the new row keeps is read back.
  pub find-put_self :
      (p : A → Bool) (y : A) (xs : List A) (x : A)
      → find p xs ≡ some x
      → p y ≡ true
      → find p (put p y xs) ≡ some y
  unfolding find put
  find-put_self p y [] x h k = ground arith
  find-put_self p y (z ∷ zs) x h k = ground (arith, find-put_self p y zs x)

  pub length-take_le : (n : ℕ) (xs : List A) → length (take n xs) ≤ n
  unfolding take
  length-take_le zero xs = omega arith
  length-take_le (suc n) [] = omega arith
  length-take_le (suc n) (x ∷ xs) = omega (arith, length-take_le n xs)

  -- A row that is found is found behind a new one too.
  pub find-insert_row :
      (p : A → Bool) (y : A) (xs : List A) (x : A)
      → find p xs ≡ some x
      → find p (insert_row y xs) ≡ some x
  unfolding find insert_row
  find-insert_row p y [] x h = ground arith
  find-insert_row p y (z ∷ zs) x h = ground (arith, find-insert_row p y zs x)

  -- A new row is found, if no row was.
  pub find-insert_row_new :
      (p : A → Bool) (y : A) (xs : List A)
      → find p xs ≡ none
      → p y ≡ true
      → find p (insert_row y xs) ≡ some y
  unfolding find insert_row
  find-insert_row_new p y [] h k = ground arith
  find-insert_row_new p y (z ∷ zs) h k = ground (arith, find-insert_row_new p y zs)

  -- A write replaces a row by a later one `y` that the reader's test sees alike: what is found
  -- afterwards is the row found before, or a later one.
  pub find-put_later :
      (Le : A → A → Type 0)
      → ((x : A) → Le x x)
      → (p q : A → Bool) (y : A) (xs : List A) (o x : A) → find p xs ≡ some o
      → q y ≡ q o
      → Le o y
      → find q xs ≡ some x
      → (x' : A) × (find q (put p y xs) ≡ some x') × Le x x'
  unfolding find put
  find-put_later Le le p q y [] o x f e h g = cc
  find-put_later Le le p q y (z ∷ zs) o x f e h g = elim (Bool-cases (p z)) [
    | inl pz ↦ elim (Bool-cases (q z)) [
      | inl qz ↦ let same : o ≡ x = ground arith in (y, ground arith, subst (λ t. Le t y) same h)
      | inr nq ↦ (x, ground arith, le x)
    ]
    | inr np ↦ elim (Bool-cases (q z)) [
      | inl qz ↦
          let same : x ≡ z = ground arith in (z, ground arith, subst (λ t. Le x t) same (le x))
      | inr nq ↦
          let (x', f', h') = find-put_later Le le p q y zs o x (ground arith) e h (ground arith) in
          (x', ground arith, h')
    ]
  ]

  -- Where no row passes a weaker test, none passes a stronger one.
  pub find-none :
      (p q : A → Bool) (xs : List A)
      → ((x : A) → q x ≡ true → p x ≡ true)
      → find p xs ≡ none
      → find q xs ≡ none
  unfolding find
  find-none p q [] imp h = refl
  find-none p q (x ∷ xs) imp h = ground (arith, imp x, find-none p q xs imp)

  -- Where no row passes one test, a row that passes another fails the first.
  pub find-fails :
      (q p : A → Bool) (xs : List A) (x : A) → find q xs ≡ none → find p xs ≡ some x → q x ≡ false
  unfolding find
  find-fails q p [] x n h = ground arith
  find-fails q p (y ∷ ys) x n h = elim (Bool-cases (p y)) [
    | inl py ↦ let same : y ≡ x = ground arith in subst (λ t. q t ≡ false) same (ground arith)
    | inr np ↦ find-fails q p ys x (ground arith) (ground arith)
  ]

  -- What is found after a new row came is the new row, or was found before.
  pub find-insert_row_inv :
      (p : A → Bool) (y : A) (xs : List A) (x : A)
      → find p (insert_row y xs) ≡ some x
      → (x ≡ y) ⊎ (find p xs ≡ some x)
  unfolding find insert_row
  find-insert_row_inv p y [] x h = inl (ground arith)
  find-insert_row_inv p y (z ∷ zs) x h = elim (Bool-cases (p z)) [
    | inl pz ↦ inr (ground arith)
    | inr np ↦ elim (find-insert_row_inv p y zs x (ground arith)) [
      | inl e ↦ inl e
      | inr e ↦ inr (ground arith)
    ]
  ]

  -- What is found after a row was replaced by one that the reader's test sees alike is the new row,
  -- or was found before.
  pub find-put_inv :
      (p q : A → Bool) (y : A) (xs : List A) (o x : A)
      → find p xs ≡ some o
      → q y ≡ q o
      → find q (put p y xs) ≡ some x
      → (x ≡ y) ⊎ (find q xs ≡ some x)
  unfolding find put
  find-put_inv p q y [] o x f e h = cc
  find-put_inv p q y (z ∷ zs) o x f e h = elim (Bool-cases (p z)) [
    | inl pz ↦ elim (Bool-cases (q y)) [
      | inl qy ↦ inl (ground arith)
      | inr ny ↦
          let same : z ≡ o = ground arith in
          let nz : q z ≡ false = subst (λ t. q y ≡ q t → q z ≡ false) same (λ e. cc) e in
          inr (ground arith)
    ]
    | inr np ↦ elim (Bool-cases (q z)) [
      | inl qz ↦ inr (ground arith)
      | inr nz ↦ elim (find-put_inv p q y zs o x (ground arith) e (ground arith)) [
        | inl w ↦ inl w
        | inr w ↦ inr (ground arith)
      ]
    ]
  ]
