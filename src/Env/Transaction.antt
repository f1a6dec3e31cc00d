-- ===== src/Env/Transaction.antt =====
-- internal/harmonysqlite/api.go, `BeginTransaction`: the body works on the tables, and its work stays
-- only when it is committed. A panic of the body is left out.
use curio_core.Base.{
  Bool-cases, ◌≢◌, ◌⊎◌, ◌≡◌, if◌then◌else◌, Bool, Option, suc, arith, inr, inl, false, true, some,
  none, refl,
}
use curio_core.Env.Defs.{ticked, World, Env}

-- what the body returns: commit, roll back, or an error
pub data Verdict : Type 0 where
  commit roll_back fail : Verdict

module _ {S : Type 0} (env : Env) where
  -- the last call, behind a body that started from the first tables; `none` is an error, and else
  -- the answer is whether the work was committed
  abbrev pub end_transaction : S → Verdict × World S → Option Bool × World S
  end_transaction before (commit, w) =
      if env.fault w.calls
      then (none, record { store = before; calls = suc w.calls })
      else (some true, ticked w)
  end_transaction before (roll_back, w) = (
    if env.fault w.calls then none else some false,
    record { store = before; calls = suc w.calls },
  )
  end_transaction before (fail, w) = (none, record { store = before; calls = suc w.calls })

  unfoldable pub begin_transaction : (World S → Verdict × World S) → World S → Option Bool × World S
  begin_transaction body w =
      if env.fault w.calls then (none, ticked w) else end_transaction w.store (body (ticked w))

  end_transaction-store :
      (before : S) (r : Verdict × World S)
      → (((end_transaction before r).0 ≡ some true)
          × (r.0 ≡ commit)
          × ((end_transaction before r).1.store ≡ r.1.store))
        ⊎ (((end_transaction before r).0 ≢ some true)
            × ((end_transaction before r).1.store ≡ before))
  end_transaction-store before (commit, w) = elim (Bool-cases (env.fault w.calls)) [
    | inl f ↦ rw f (inr ((λ e. ground (arith, e)), refl))
    | inr f ↦ rw f (inl (refl, refl, refl))
  ]
  end_transaction-store before (roll_back, w) = elim (Bool-cases (env.fault w.calls)) [
    | inl f ↦ rw f (inr ((λ e. ground (arith, e)), refl))
    | inr f ↦ rw f (inr ((λ e. ground (arith, e)), refl))
  ]
  end_transaction-store before (fail, w) = inr ((λ e. ground (arith, e)), refl)

  -- A transaction answers that it committed and leaves what its body made of the tables, or it does
  -- not answer so and leaves the tables as they were.
  pub begin_transaction-store :
      (body : World S → Verdict × World S) (w : World S)
      → (((begin_transaction body w).0 ≡ some true)
          × ((body (ticked w)).0 ≡ commit)
          × ((begin_transaction body w).1.store ≡ (body (ticked w)).1.store))
        ⊎ (((begin_transaction body w).0 ≢ some true)
            × ((begin_transaction body w).1.store ≡ w.store))
  unfolding begin_transaction
  begin_transaction-store body w = elim (Bool-cases (env.fault w.calls)) [
    | inl f ↦ rw f (inr ((λ e. ground (arith, e)), refl))
    | inr f ↦ rw f (end_transaction-store w.store (body (ticked w)))
  ]
