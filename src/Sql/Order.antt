-- ===== src/Sql/Order.antt =====
-- `ORDER BY` sorts and neither loses nor adds a row.
use mathlib.Core.List.{Perm}
use mathlib.Core.List.Perm
use curio_core.Base.{ℕ, List, [], ◌∷◌, ◌≤◌, arith, All, ltb, Bool-cases, inl, inr}
use curio_core.Sql.{insert_by, order_by}

module _ {ℓ} {A : Type ℓ} (key : A → ℕ) where
  -- ascending keys
  abbrev pub IsSorted : List A → Type 0
  IsSorted [] = Unit
  IsSorted (x ∷ xs) = All (λ y. key x ≤ key y) xs × IsSorted xs

  All-insert_by :
      (m : ℕ) (x : A) (xs : List A)
      → m ≤ key x
      → All (λ y. m ≤ key y) xs
      → All (λ y. m ≤ key y) (insert_by key x xs)
  All-insert_by m x [] h _ = (h, tt)
  All-insert_by m x (y ∷ ys) h hs = elim (Bool-cases (ltb (key y) (key x))) [
    | inl e ↦ rw e (hs.0, All-insert_by m x ys h hs.1)
    | inr e ↦ rw e (h, hs)
  ]

  All-mono : (m n : ℕ) (xs : List A) → m ≤ n → All (λ y. n ≤ key y) xs → All (λ y. m ≤ key y) xs
  All-mono m n [] h _ = tt
  All-mono m n (x ∷ xs) h hs = (omega arith, All-mono m n xs h hs.1)

  insert_by-IsSorted : (x : A) (xs : List A) → IsSorted xs → IsSorted (insert_by key x xs)
  insert_by-IsSorted x [] h = (tt, tt)
  insert_by-IsSorted x (y ∷ ys) h = elim (Bool-cases (ltb (key y) (key x))) [
    | inl e ↦ rw e (All-insert_by (key y) x ys (ground arith) h.0, insert_by-IsSorted x ys h.1)
    | inr e ↦ rw e ((ground arith, All-mono (key x) (key y) ys (ground arith) h.0), h)
  ]

  pub order_by-IsSorted : (xs : List A) → IsSorted (order_by key xs)
  order_by-IsSorted [] = tt
  order_by-IsSorted (x ∷ xs) = insert_by-IsSorted x (order_by key xs) (order_by-IsSorted xs)

  insert_by-perm : (x : A) (xs : List A) → Perm (insert_by key x xs) (x ∷ xs)
  insert_by-perm x [] = Perm.refl (x ∷ [])
  insert_by-perm x (y ∷ ys) = elim (Bool-cases (ltb (key y) (key x))) [
    | inl e ↦ rw e (Perm.trans (Perm.cons y (insert_by-perm x ys)) (Perm.swap x y ys))
    | inr e ↦ rw e (Perm.refl (x ∷ y ∷ ys))
  ]

  pub order_by-perm : (xs : List A) → Perm (order_by key xs) xs
  order_by-perm [] = Perm.refl []
  order_by-perm (x ∷ xs) =
      Perm.trans (insert_by-perm x (order_by key xs)) (Perm.cons x (order_by-perm xs))

  pub All-order_by {κ} : (P : A → Type κ) (xs : List A) → All P xs → All P (order_by key xs)
  All-order_by P [] h = tt
  All-order_by P (x ∷ xs) h = All_insert x (order_by key xs) h.0 (All-order_by P xs h.1)
    where
      All_insert : (y : A) (ys : List A) → P y → All P ys → All P (insert_by key y ys)
      All_insert y [] h hs = (h, tt)
      All_insert y (z ∷ zs) h hs = elim (Bool-cases (ltb (key z) (key y))) [
        | inl e ↦ rw e (hs.0, All_insert y zs h hs.1)
        | inr e ↦ rw e (h, hs)
      ]
