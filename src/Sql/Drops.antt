-- ===== src/Sql/Drops.antt =====
-- Tables before and after statements that delete rows.
use curio_core.Base.{Bool-cases, ◌∷◌, Bool, List, inr, inl, true, [], ◌≡◌}
use curio_core.Sql.{delete}

module _ {A : Type 0} (P : A → Type 0) where
  -- the rows that are left stand in their order, and each row that is gone has the property
  pub data Drops : List A → List A → Type 0 where
    none_left : Drops [] []
    kept : (x : A) {xs ys : List A} → Drops xs ys → Drops (x ∷ xs) (x ∷ ys)
    dropped : (x : A) {xs ys : List A} → P x → Drops xs ys → Drops (x ∷ xs) ys

  pub Drops-refl : (xs : List A) → Drops xs xs
  Drops-refl [] = none_left
  Drops-refl (x ∷ xs) = kept x (Drops-refl xs)

  pub Drops-trans : {xs ys zs : List A} → Drops xs ys → Drops ys zs → Drops xs zs
  Drops-trans none_left q = q
  Drops-trans (dropped x p d) q = dropped x p (Drops-trans d q)
  Drops-trans (kept x d) (kept _ q) = kept x (Drops-trans d q)
  Drops-trans (kept x d) (dropped _ p q) = dropped x p (Drops-trans d q)

  pub delete-Drops :
      (p : A → Bool) → ((x : A) → p x ≡ true → P x) → (xs : List A) → Drops xs (delete p xs)
  delete-Drops p f [] = none_left
  delete-Drops p f (x ∷ xs) = elim (Bool-cases (p x)) [
    | inl e ↦ rw e (dropped x (f x e) (delete-Drops p f xs))
    | inr e ↦ rw e (kept x (delete-Drops p f xs))
  ]
