-- ===== src/Payments/Rails/Laws.antt =====
-- What `upsertRails` makes of the table.
use curio_core.Sql.{update}
use curio_core.Payments.Rails.{
  db_error, Books, is_rail, refreshed, new_row, upsert_rail, upsert_rails, RailRow,
}
use curio_core.Base.{
  ◌||◌, All-append, Bool-cases, ◌⊎◌, ◌++◌, ◌≡◌, ◌==◌, ◌∷◌, All, any, subst, Bytes, Bool, Option,
  List, suc, arith, sym, inr, inl, false, true, some, none, refl, [], ℕ,
}
use curio_core.Env.{go, return, for_each_inv, for_each-All, World, Env}
use curio_core.Payments.Discover.{Chain, RailView, RailInfo}

-- one row for each rail
abbrev pub UniqueRails : List RailRow → Type 0
UniqueRails [] = Unit
UniqueRails (r ∷ rs) = All (λ x. (x.rail_id == r.rail_id) ≡ false) rs × UniqueRails rs

-- the rail has a row
abbrev pub IsKnown : RailInfo → List RailRow → Type 0
IsKnown r rows = any (is_rail r.rail_id) rows ≡ true

module _ (p : RailRow → Bool) (r : RailInfo) where
  any-update :
      (id : ℕ) (rows : List RailRow)
      → any (is_rail id) (update p (refreshed r) rows) ≡ any (is_rail id) rows
  any-update id [] = refl
  any-update id (x ∷ rows) = ground (arith, any-update id rows)

  others-update :
      (id : ℕ) (rows : List RailRow)
      → All (λ x. (x.rail_id == id) ≡ false) rows
      → All (λ x. (x.rail_id == id) ≡ false) (update p (refreshed r) rows)
  others-update id [] h = tt
  others-update id (x ∷ rows) h = (ground (arith, h.0), others-update id rows h.1)

  UniqueRails-update :
      (rows : List RailRow) → UniqueRails rows → UniqueRails (update p (refreshed r) rows)
  UniqueRails-update [] h = tt
  UniqueRails-update (x ∷ rows) h = elim (Bool-cases (p x)) [
    | inl e ↦ rw e (others-update x.rail_id rows h.0, UniqueRails-update rows h.1)
    | inr e ↦ rw e (others-update x.rail_id rows h.0, UniqueRails-update rows h.1)
  ]

any-append :
    (id : ℕ) (rows : List RailRow) (x : RailRow)
    → any (is_rail id) (rows ++ (x ∷ [])) ≡ any (is_rail id) rows || is_rail id x
any-append id [] x = ground arith
any-append id (y ∷ rows) x = ground (arith, any-append id rows x)

UniqueRails-append :
    (rows : List RailRow) (x : RailRow)
    → UniqueRails rows
    → any (is_rail x.rail_id) rows ≡ false
    → UniqueRails (rows ++ (x ∷ []))
UniqueRails-append [] x h n = (tt, tt)
UniqueRails-append (y ∷ rows) x h n = (
  All-append (λ z. (z.rail_id == y.rail_id) ≡ false) rows (x ∷ []) h.0 (ground (arith, n), tt),
  UniqueRails-append rows x h.1 (ground (arith, n)),
)

new_row_id :
    (payee usdfc : Bytes) (r : RailInfo) (o : Option RailView)
    → (new_row payee usdfc r o).rail_id ≡ r.rail_id
new_row_id payee usdfc r none = refl
new_row_id payee usdfc r (some v) = refl

module _ (chain : Chain) (payee usdfc : Bytes) (env : Env) where
  -- a round that goes on updates the rail's row or adds one, and one that does not changes nothing
  abbrev Stored : RailInfo → List RailRow → List RailRow → Type 0
  Stored r before after =
      ((any (is_rail r.rail_id) before ≡ true)
        × (after ≡ update (is_rail r.rail_id) (refreshed r) before))
      ⊎ ((any (is_rail r.rail_id) before ≡ false)
          × ((o : Option RailView) × (after ≡ before ++ (new_row payee usdfc r o ∷ []))))

  upsert_rail-rails :
      (r : RailInfo) (w : World Books)
      → (((upsert_rail chain payee usdfc env r w).1.store.rails ≡ w.store.rails)
          × ((upsert_rail chain payee usdfc env r w).0 ≡ return db_error)
          × ((n : ℕ) × (env.fault n ≡ true)))
        ⊎ (Stored r w.store.rails (upsert_rail chain payee usdfc env r w).1.store.rails
            × ((upsert_rail chain payee usdfc env r w).0 ≡ go))
  unfolding upsert_rail
  upsert_rail-rails r w = elim (Bool-cases (env.fault w.calls)) [
    | inl f ↦ rw f (inl (refl, refl, (w.calls, f)))
    | inr f ↦ elim (Bool-cases (any (is_rail r.rail_id) w.store.rails)) [
      | inl k ↦ elim (Bool-cases (env.fault (suc w.calls))) [
        | inl g ↦ rw (f, k, g) (inl (refl, refl, (suc w.calls, g)))
        | inr g ↦ rw (f, k, g) (inr (inl (refl, refl), refl))
      ]
      | inr k ↦ elim (Bool-cases (env.fault (suc (suc w.calls)))) [
        | inl g ↦ rw (f, k, g) (inl (refl, refl, (suc (suc w.calls), g)))
        | inr g ↦
            rw (f, k, g) (inr (inr (refl, (chain.get_rail (suc w.calls) r.rail_id, refl)), refl))
      ]
    ]
  ]

  Stored-UniqueRails :
      (r : RailInfo) (xs ys : List RailRow) → Stored r xs ys → UniqueRails xs → UniqueRails ys
  Stored-UniqueRails r xs ys (inl (k, e)) d =
      subst UniqueRails (sym e) (UniqueRails-update (is_rail r.rail_id) r xs d)
  Stored-UniqueRails r xs ys (inr (k, (o, e))) d =
      subst UniqueRails (sym e)
        (UniqueRails-append xs (new_row payee usdfc r o) d (rw new_row_id k))

  Stored-IsKnown : (r : RailInfo) (xs ys : List RailRow) → Stored r xs ys → IsKnown r ys
  Stored-IsKnown r xs ys (inl (k, e)) = rw (e, any-update) k
  Stored-IsKnown r xs ys (inr (k, (o, e))) =
      ground
        (arith, e, any-append r.rail_id xs (new_row payee usdfc r o), new_row_id payee usdfc r o)

  IsKnown-Stored :
      (r s : RailInfo) (xs ys : List RailRow) → Stored r xs ys → IsKnown s xs → IsKnown s ys
  IsKnown-Stored r s xs ys (inl (k, e)) h = rw (e, any-update) h
  IsKnown-Stored r s xs ys (inr (k, (o, e))) h =
      ground (arith, e, h, any-append s.rail_id xs (new_row payee usdfc r o))

  -- Whatever fails, `upsertRails` keeps one row for each rail.
  pub upsert_rails-UniqueRails :
      (rails : List RailInfo) (w : World Books)
      → UniqueRails w.store.rails
      → UniqueRails (upsert_rails chain payee usdfc env rails w).1.store.rails
  unfolding upsert_rails
  upsert_rails-UniqueRails rails w d =
      for_each_inv (λ v. UniqueRails v.store.rails) (upsert_rail chain payee usdfc env)
        (λ r v h. elim (upsert_rail-rails r v) [
          | inl (same, _, _) ↦ subst UniqueRails (sym same) h
          | inr (s, _) ↦ Stored-UniqueRails r v.store.rails _ s h
        ])
        rails w d

  -- If `upsertRails` returns no error, each of the rails has a row.
  pub upsert_rails-IsKnown :
      (rails : List RailInfo) (w after : World Books)
      → upsert_rails chain payee usdfc env rails w ≡ (none, after)
      → All (λ r. IsKnown r after.store.rails) rails
  unfolding upsert_rails
  upsert_rails-IsKnown rails w after e =
      for_each-All (λ v. Unit) (upsert_rail chain payee usdfc env) (λ r v. IsKnown r v.store.rails)
        (λ r v h. tt)
        (λ r v h g. elim (upsert_rail-rails r v) [
          | inl (_, stop, _) ↦ ground (arith, stop, g)
          | inr (s, _) ↦ Stored-IsKnown r v.store.rails _ s
        ])
        (λ s r v h k. elim (upsert_rail-rails r v) [
          | inl (same, _, _) ↦ subst (IsKnown s) (sym same) k
          | inr (t, _) ↦ IsKnown-Stored r s v.store.rails _ t k
        ])
        rails w after tt e
