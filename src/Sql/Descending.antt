-- ===== src/Sql/Descending.antt =====
-- `ORDER BY … DESC` sorts, and adds no row.
use curio_core.Sql.{order_by_desc, insert_desc}
use curio_core.Base.{
  All-weaken, ltb, Bool-cases, All-take, take, ◌∷◌, All, ◌≤◌, List, suc, zero, arith, inr, inl, [],
  ℕ,
}

module _ {ℓ} {A : Type ℓ} (key : A → ℕ) where
  -- descending keys
  abbrev pub IsDescending : List A → Type 0
  IsDescending [] = Unit
  IsDescending (x ∷ xs) = All (λ y. key y ≤ key x) xs × IsDescending xs

  pub All-order_by_desc {κ} :
      (P : A → Type κ) (xs : List A) → All P xs → All P (order_by_desc key xs)
  All-order_by_desc P [] h = tt
  All-order_by_desc P (x ∷ xs) h =
      All-insert_desc x (order_by_desc key xs) h.0 (All-order_by_desc P xs h.1)
    where
      All-insert_desc : (y : A) (ys : List A) → P y → All P ys → All P (insert_desc key y ys)
      All-insert_desc y [] h hs = (h, tt)
      All-insert_desc y (z ∷ zs) h hs = elim (Bool-cases (ltb (key y) (key z))) [
        | inl e ↦ rw e (hs.0, All-insert_desc y zs h hs.1)
        | inr e ↦ rw e (h, hs)
      ]

  below-insert_desc :
      (m : ℕ) (x : A) (xs : List A)
      → key x ≤ m
      → All (λ y. key y ≤ m) xs
      → All (λ y. key y ≤ m) (insert_desc key x xs)
  below-insert_desc m x [] h hs = (h, tt)
  below-insert_desc m x (y ∷ ys) h hs = elim (Bool-cases (ltb (key x) (key y))) [
    | inl e ↦ rw e (hs.0, below-insert_desc m x ys h hs.1)
    | inr e ↦ rw e (h, hs)
  ]

  insert_desc-IsDescending :
      (x : A) (xs : List A) → IsDescending xs → IsDescending (insert_desc key x xs)
  insert_desc-IsDescending x [] h = (tt, tt)
  insert_desc-IsDescending x (y ∷ ys) h = elim (Bool-cases (ltb (key x) (key y))) [
    | inl e ↦
        rw e (below-insert_desc (key y) x ys (ground arith) h.0, insert_desc-IsDescending x ys h.1)
    | inr e ↦ rw e (
      (
        ground arith,
        All-weaken (λ z. key z ≤ key y) (λ z. key z ≤ key x) ys (λ z l. ground (arith, l, e)) h.0,
      ),
      h,
    )
  ]

  pub order_by_desc-IsDescending : (xs : List A) → IsDescending (order_by_desc key xs)
  order_by_desc-IsDescending [] = tt
  order_by_desc-IsDescending (x ∷ xs) =
      insert_desc-IsDescending x (order_by_desc key xs) (order_by_desc-IsDescending xs)

  pub take-IsDescending : (n : ℕ) (xs : List A) → IsDescending xs → IsDescending (take n xs)
  take-IsDescending zero xs h = tt
  take-IsDescending (suc n) [] h = tt
  take-IsDescending (suc n) (x ∷ xs) h =
      (All-take (λ y. key y ≤ key x) n xs h.0, take-IsDescending n xs h.1)
