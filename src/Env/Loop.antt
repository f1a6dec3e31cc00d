-- ===== src/Env/Loop.antt =====
-- `for _, x := range xs { … }`. A round goes on to the next element (`continue` included), or
-- returns from the function.
use curio_core.Base.{
  refl, sym, ◌∙◌, subst, ◌⊎◌, inl, inr, ◌≡◌, Option, none, some, List, [], ◌∷◌, All, arith, OnSome,
}

pub data Flow (R : Type 0) : Type 0 where
  go : Flow R
  return : R → Flow R

module _ {R : Type 0} where
  pub Flow-cases : (f : Flow R) → (f ≡ go) ⊎ ((r : R) × (f ≡ return r))
  Flow-cases go = inl refl
  Flow-cases (return r) = inr (r, refl)

module _ {S R A : Type 0} where
  -- the result is what the loop returned, or `none` when it ran to its end
  unfoldable pub for_each : (A → S → Flow R × S) → List A → S → Option R × S
  for_each body [] s = (none, s)
  for_each body (x ∷ xs) s =
      let (f, s') = body x s in elim f [ go ↦ for_each body xs s' | return r ↦ (some r, s') ]

  pub for_each_nil : (body : A → S → Flow R × S) (s : S) → for_each body [] s ≡ (none, s)
  unfolding for_each
  for_each_nil body s = refl

  module _ (body : A → S → Flow R × S) (x : A) (xs : List A) (s : S) where
    pub for_each_go : (body x s).0 ≡ go → for_each body (x ∷ xs) s ≡ for_each body xs (body x s).1
    unfolding for_each
    for_each_go e = rw (e, for_each)

    pub for_each_return :
        (r : R) → (body x s).0 ≡ return r → for_each body (x ∷ xs) s ≡ (some r, (body x s).1)
    unfolding for_each
    for_each_return r e = rw (e, for_each)

  module _ {κ} (P : S → Type κ) (body : A → S → Flow R × S) where
    -- what every round keeps, the loop keeps, however it ends
    pub for_each_inv :
        ((x : A) (s : S) → P s → P (body x s).1)
        → (xs : List A) (s : S) → P s
        → P (for_each body xs s).1
    for_each_inv keeps [] s h = unfold for_each in h
    for_each_inv keeps (x ∷ xs) s h = elim (Flow-cases (body x s).0) [
      | inl e ↦ rw (for_each_go body x xs s e) (for_each_inv keeps xs (body x s).1 (keeps x s h))
      | inr (r, e) ↦ rw (for_each_return body x xs s r e) (keeps x s h)
    ]

  -- the same where the elements have a property `T`
  module _ {κ τ} (P : S → Type κ) (T : A → Type τ) (body : A → S → Flow R × S)
      (keeps : (x : A) (s : S) → T x → P s → P (body x s).1) where
    pub for_each_inv_of : (xs : List A) (s : S) → All T xs → P s → P (for_each body xs s).1
    for_each_inv_of [] s t h = unfold for_each in h
    for_each_inv_of (x ∷ xs) s t h = elim (Flow-cases (body x s).0) [
      | inl e ↦
          rw (for_each_go body x xs s e) (for_each_inv_of xs (body x s).1 t.1 (keeps x s t.0 h))
      | inr (r, e) ↦ rw (for_each_return body x xs s r e) (keeps x s t.0 h)
    ]

  -- A loop that ran to its end has handled every element: what a round that goes on establishes
  -- of its element, and every later round keeps, holds of all of them at the end.
  module _ {κ} (P : S → Type κ) (body : A → S → Flow R × S) (Q : A → S → Type κ)
      (keeps : (x : A) (s : S) → P s → P (body x s).1)
      (done : (x : A) (s : S) → P s → (body x s).0 ≡ go → Q x (body x s).1)
      (stays : (y x : A) (s : S) → P s → Q y s → Q y (body x s).1) where
    pub for_each-All :
        (xs : List A) (s w : S) → P s → for_each body xs s ≡ (none, w) → All (λ x. Q x w) xs
    for_each-All [] s w h e = tt
    for_each-All (x ∷ xs) s w h e = elim (Flow-cases (body x s).0) [
      | inl g ↦
          let rest : for_each body xs (body x s).1 ≡ (none, w) =
            sym (for_each_go body x xs s g) ∙ e in
          let kept =
            for_each_inv (λ t. P t × Q x t) body (λ y t h. (keeps y t h.0, stays x y t h.0 h.1)) xs
              (body x s).1 (keeps x s h, done x s h g) in
          (subst (λ r. Q x r.1) rest kept.1, for_each-All xs (body x s).1 w (keeps x s h) rest)
      | inr (r, g) ↦ ground (arith, e, for_each_return body x xs s r g)
    ]

  -- what a round returns with, the loop returns with
  pub for_each_returns {κ} :
      (T : R → Type κ) (body : A → S → Flow R × S)
      → ((x : A) (s : S) (r : R) → (body x s).0 ≡ return r → T r)
      → (xs : List A) (s : S) → OnSome T (for_each body xs s).0
  for_each_returns T body f [] s = unfold for_each in tt
  for_each_returns T body f (x ∷ xs) s = elim (Flow-cases (body x s).0) [
    | inl g ↦ rw (for_each_go body x xs s g) (for_each_returns T body f xs (body x s).1)
    | inr (r, g) ↦ rw (for_each_return body x xs s r g) (f x s r g)
  ]
