-- ===== src/Sql/Changes.antt =====
-- Tables compared row by row, before and after statements that update rows.
use curio_core.Base.{Bool, List, [], ◌∷◌, if◌then◌else◌}
use curio_core.Sql.{update}

module _ {ℓ} {A : Type ℓ} (R : A → A → Type 0) where
  -- as many rows, and each related to the one in its place
  abbrev pub EachRow : List A → List A → Type 0
  EachRow [] [] = Unit
  EachRow [] (y ∷ ys) = ⊥
  EachRow (x ∷ xs) [] = ⊥
  EachRow (x ∷ xs) (y ∷ ys) = R x y × EachRow xs ys

  pub EachRow-refl : ((x : A) → R x x) → (xs : List A) → EachRow xs xs
  EachRow-refl r [] = tt
  EachRow-refl r (x ∷ xs) = (r x, EachRow-refl r xs)

  pub EachRow-update :
      (p : A → Bool) (f : A → A)
      → ((x y : A) → R x y → R x (if p y then f y else y))
      → (xs ys : List A) → EachRow xs ys
      → EachRow xs (update p f ys)
  EachRow-update p f r [] [] h = tt
  EachRow-update p f r [] (y ∷ ys) h = elim h [ ]
  EachRow-update p f r (x ∷ xs) [] h = elim h [ ]
  EachRow-update p f r (x ∷ xs) (y ∷ ys) h = (r x y h.0, EachRow-update p f r xs ys h.1)
