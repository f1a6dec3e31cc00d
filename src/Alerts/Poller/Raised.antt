-- ===== src/Alerts/Poller/Raised.antt =====
-- A tick raises an alert for each row that it reads.
use curio_core.Alerts.Table.Rows.{emit-row, row_for}
use curio_core.Alerts.Poller.{
  finish_tick, alert_failure, fold_rows, tick, task_print, on_alerts, task_args,
}
use curio_core.Alerts.Poller.Select.{is_prior_failure, max_above, failures, TaskRow, Db}
use curio_core.Alerts.Table.{
  fingerprint_of, hex_encode, or_else, Alerts, emit, print_of, Alert, EmitArgs, Param,
}
use curio_core.Base.{
  map, subst, take, count_if, All, length, ◌∙◌, ◌⊎◌, ◌∷◌, bytes_eq_refl, ◌++◌, if◌then◌else◌, ◌||◌,
  bytes_eq, ◌≡◌, Bytes, Bool, Option, List, suc, arith, inr, inl, false, true, some, none, refl, [],
  ℕ,
}
use curio_core.Env.{ticked, World, Env}

-- the table has a row of that fingerprint
abbrev pub Raised : Bytes → World Db → Type 0
Raised fp w = (a : Alert) × (row_for fp w.store.alerts ≡ some a)

some_if :
    (b : Bool) (x : Alert) (o r : Option Alert)
    → r ≡ (if b then some x else o)
    → (b ≡ true) ⊎ ((a : Alert) × (o ≡ some a))
    → (a : Alert) × (r ≡ some a)
some_if true x o r e h = (x, e)
some_if false x o r e (inl f) = ground (arith, f)
some_if false x o r e (inr (a, f)) = (a, e ∙ f)

not_empty : (s : Bytes) (c : ℕ) (t : Bytes) → bytes_eq (s ++ (c ∷ t)) [] ≡ false
not_empty [] c t = refl
not_empty (d ∷ s) c t = refl

or_else_hex :
    (bs d : Bytes) → length bs ≡ 32 → or_else (hex_encode (take 16 bs)) d ≡ hex_encode (take 16 bs)
or_else_hex [] d h = ground (arith, h)
or_else_hex (b ∷ bs) d h = refl

module _ (marshal : List Param → Option Bytes) (sha256 : Bytes → Bytes) (env : Env)
    (sound : (n : ℕ) → env.fault n ≡ false) where
  on_alerts-Raised :
      (args : EmitArgs) (w : World Db)
      → bytes_eq args.source [] || bytes_eq args.message [] ≡ false
      → Raised (print_of marshal sha256 args) (on_alerts (emit marshal sha256 env args) w).1
  on_alerts-Raised args w h =
      let v : World Alerts = record { store = w.store.alerts; calls = w.calls } in
      let (_, rows) = emit-row marshal sha256 env args v h (sound _) (sound _) in
      some_if (bytes_eq (print_of marshal sha256 args) (print_of marshal sha256 args)) _ _ _
        (rows (print_of marshal sha256 args)) (inl (bytes_eq_refl (print_of marshal sha256 args)))

  on_alerts-stays :
      (args : EmitArgs) (w : World Db) (g : Bytes)
      → bytes_eq args.source [] || bytes_eq args.message [] ≡ false
      → Raised g w
      → Raised g (on_alerts (emit marshal sha256 env args) w).1
  on_alerts-stays args w g h (a, r) =
      let v : World Alerts = record { store = w.store.alerts; calls = w.calls } in
      let (_, rows) = emit-row marshal sha256 env args v h (sound _) (sound _) in
      some_if (bytes_eq (print_of marshal sha256 args) g) _ _ _ (rows g) (inr (a, r))

  task_args-full :
      (row : TaskRow) (prior : Option ℕ)
      → bytes_eq (task_args marshal sha256 row prior).source []
          || bytes_eq (task_args marshal sha256 row prior).message []
        ≡ false
  unfolding task_args
  task_args-full row prior = rw not_empty refl

  module _ (digest : (s : Bytes) → length (sha256 s) ≡ 32) where
    task_args-print :
        (row : TaskRow) (prior : Option ℕ)
        → print_of marshal sha256 (task_args marshal sha256 row prior)
          ≡ task_print marshal sha256 row
    unfolding task_args print_of task_print fingerprint_of
    task_args-print row prior = or_else_hex _ _ (digest _)

    alert_failure-Raised :
        (row : TaskRow) (w : World Db)
        → Raised (task_print marshal sha256 row) (alert_failure marshal sha256 env row w)
    unfolding alert_failure
    alert_failure-Raised row w =
        let prior = count_if (is_prior_failure row) w.store.history in
        rw (sound w.calls) (
          subst
            (λ fp.
              Raised fp
                (on_alerts (emit marshal sha256 env (task_args marshal sha256 row (some prior)))
                  (ticked w)).1)
            (task_args-print row (some prior))
            (on_alerts-Raised (task_args marshal sha256 row (some prior)) (ticked w)
              (task_args-full row (some prior))))

    alert_failure-stays :
        (row : TaskRow) (w : World Db) (g : Bytes)
        → Raised g w
        → Raised g (alert_failure marshal sha256 env row w)
    unfolding alert_failure
    alert_failure-stays row w g h =
        let prior = count_if (is_prior_failure row) w.store.history in
        rw (sound w.calls) (
          on_alerts-stays (task_args marshal sha256 row (some prior)) (ticked w) g
            (task_args-full row (some prior)) h)

    fold-stays :
        (rows : List TaskRow) (w : World Db) (g : Bytes)
        → Raised g w
        → Raised g (fold_rows marshal sha256 (alert_failure marshal sha256 env) rows w)
    fold-stays [] w g h = h
    fold-stays (r ∷ rows) w g h =
        fold-stays rows (alert_failure marshal sha256 env r w) g (alert_failure-stays r w g h)

    fold-Raised :
        (rows : List TaskRow) (w : World Db)
        → All
            (λ r.
              Raised
                (task_print marshal sha256 r)
                (fold_rows marshal sha256 (alert_failure marshal sha256 env) rows w))
            rows
    fold-Raised [] w = tt
    fold-Raised (r ∷ rows) w = (
      fold-stays rows (alert_failure marshal sha256 env r w) (task_print marshal sha256 r)
          (alert_failure-Raised r w),
      fold-Raised rows (alert_failure marshal sha256 env r w),
    )

    finish-Raised :
        (c : ℕ) (rows : List TaskRow) (o : Option ℕ) (w : World Db)
        → All
            (λ r.
              Raised
                (task_print marshal sha256 r)
                (finish_tick marshal sha256 (alert_failure marshal sha256 env) rows c (some o) w).1)
            rows
    finish-Raised c rows none w = fold-Raised rows w
    finish-Raised c rows (some n) w = fold-Raised rows w

    -- Where no call fails, a tick leaves an alert for each of the rows that it selects: the first 100
    -- failures above the cursor. SHA-256 is taken to return 32 bytes.
    pub tick_raises :
        (c : ℕ) (w : World Db)
        → All
            (λ r. Raised (task_print marshal sha256 r) (tick marshal sha256 env c w).1)
            (failures c w.store.history)
    unfolding tick
    tick_raises c w =
        rw (sound w.calls, sound (suc w.calls))
          (finish-Raised c (failures c w.store.history)
            (max_above c (map (λ r. r.id) w.store.history)) (ticked (ticked w)))
