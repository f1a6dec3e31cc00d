-- ===== src/Alerts/Poller/Laws.antt =====
-- Which rows the poller turns into alerts.
use curio_core.Alerts.Poller.{
  start_at, greater, init_eth_cursor, max_of, init_cursor, alert_revert, alert_failure, finish_tick,
  tick, tick_eth_reverts,
}
use curio_core.Alerts.Table.{Param}
use curio_core.Alerts.Poller.Select.{
  SendRow, join_sends, Db, reverts, failures, newer, is_reverted, WaitRow, is_new_failure,
  max_above, TaskRow,
}
use curio_core.Base.{
  All-weaken, ◌≤◌, keep, ◌∷◌, map, ◌≡◌, All, Bytes, Option, List, suc, arith, false, some, none,
  refl, [], ℕ,
}
use curio_core.Env.{ticked, World, Env}

-- the cursor after a tick that found this newest row
abbrev pub moved : ℕ → Option ℕ → ℕ
moved c none = c
moved c (some n) = n

newer-moved :
    (c n : ℕ) (o : Option ℕ)
    → c ≤ moved c o
    → (c ≤ moved c (newer c n o))
      × (n ≤ moved c (newer c n o))
      × (moved c o ≤ moved c (newer c n o))
newer-moved c n none h = (ground arith, ground arith, ground arith)
newer-moved c n (some m) h = (ground arith, ground arith, ground arith)

max_above-moved :
    (c : ℕ) (ns : List ℕ)
    → (c ≤ moved c (max_above c ns)) × All (λ m. m ≤ moved c (max_above c ns)) ns
unfolding max_above
max_above-moved c [] = (omega arith, tt)
max_above-moved c (n ∷ ns) =
    let (low, all) = max_above-moved c ns in
    let (low', here, up) = newer-moved c n (max_above c ns) low in
    (low', (here, All-weaken _ _ ns (λ m h. omega arith) all))

old_rows :
    (c : ℕ) (rows : List TaskRow)
    → All (λ m. m ≤ c) (map (λ r. r.id) rows)
    → keep (is_new_failure c) rows ≡ []
old_rows c [] h = refl
old_rows c (r ∷ rows) h = ground (arith, old_rows c rows h.1, h.0)

old_waits :
    (f : WaitRow → WaitRow)
    → ((r : WaitRow) → (f r).row_id ≡ r.row_id)
    → (c : ℕ) (rows : List WaitRow) → All (λ m. m ≤ c) (map (λ r. r.row_id) rows)
    → keep (is_reverted c) (map f rows) ≡ []
old_waits f same c [] h = refl
old_waits f same c (r ∷ rows) h = ground (arith, old_waits f same c rows h.1, h.0, same r)

module _ (marshal : List Param → Option Bytes) (sha256 : Bytes → Bytes) (env : Env) where
  finish_tick-cursor :
      {R : Type 0} (f : R → World Db → World Db) (rows : List R) (c : ℕ) (o : Option ℕ)
      (w : World Db)
      → (finish_tick marshal sha256 f rows c (some o) w).0 ≡ some (moved c o)
  finish_tick-cursor f rows c none w = refl
  finish_tick-cursor f rows c (some n) w = refl

  tick-cursor :
      (c : ℕ) (w : World Db)
      → env.fault w.calls ≡ false
      → env.fault (suc w.calls) ≡ false
      → (tick marshal sha256 env c w).0
        ≡ some (moved c (max_above c (map (λ r. r.id) w.store.history)))
  unfolding tick
  tick-cursor c w f g =
      rw (f, g)
        (finish_tick-cursor (alert_failure marshal sha256 env) (failures c w.store.history) c
          (max_above c (map (λ r. r.id) w.store.history)) (ticked (ticked w)))

  eth-cursor :
      (c : ℕ) (w : World Db)
      → env.fault w.calls ≡ false
      → env.fault (suc w.calls) ≡ false
      → (tick_eth_reverts marshal sha256 env c w).0
        ≡ some (moved c (max_above c (map (λ r. r.row_id) w.store.waits)))
  unfolding tick_eth_reverts
  eth-cursor c w f g =
      rw (f, g)
        (finish_tick-cursor (alert_revert marshal sha256 env)
          (reverts c w.store.waits w.store.sends) c
          (max_above c (map (λ r. r.row_id) w.store.waits)) (ticked (ticked w)))

  -- After a tick whose two queries succeed, no row of the history that was there is selected again,
  -- whether it was among the 100 rows of that tick or not.
  pub tick_forgets :
      (c : ℕ) (w : World Db)
      → env.fault w.calls ≡ false
      → env.fault (suc w.calls) ≡ false
      → (c' : ℕ) × ((tick marshal sha256 env c w).0 ≡ some c') × (failures c' w.store.history ≡ [])
  unfolding failures
  tick_forgets c w f g =
      let ids = map (λ r. r.id) w.store.history in
      (
        moved c (max_above c ids),
        tick-cursor c w f g,
        rw (old_rows (moved c (max_above c ids)) w.store.history (max_above-moved c ids).1) refl,
      )

  -- After a tick of the revert scan whose two queries succeed, no transaction that was in the table is
  -- selected again, whatever its status becomes: one that was still pending is never alerted.
  pub eth_tick_forgets :
      (c : ℕ) (w : World Db) (f : WaitRow → WaitRow) (sends : List SendRow)
      → ((r : WaitRow) → (f r).row_id ≡ r.row_id)
      → env.fault w.calls ≡ false
      → env.fault (suc w.calls) ≡ false
      → (c' : ℕ) × ((tick_eth_reverts marshal sha256 env c w).0 ≡ some c')
        × (reverts c' (map f w.store.waits) sends ≡ [])
  unfolding reverts join_sends
  eth_tick_forgets c w f sends same g h =
      let ids = map (λ r. r.row_id) w.store.waits in
      (
        moved c (max_above c ids),
        eth-cursor c w g h,
        rw (old_waits f same (moved c (max_above c ids)) w.store.waits (max_above-moved c ids).1)
            refl,
      )

greater-up : (n : ℕ) (o : Option ℕ) → (n ≤ greater n o) × (moved n o ≤ greater n o)
greater-up n none = (omega arith, omega arith)
greater-up n (some m) = (ground arith, ground arith)

All-below : (c : ℕ) (ns : List ℕ) → All (λ m. m ≤ moved c (max_of ns)) ns
unfolding max_of
All-below c [] = tt
All-below c (n ∷ ns) =
    let (here, up) = greater-up n (max_of ns) in
    (
      here,
      All-weaken (λ k. k ≤ moved n (max_of ns)) (λ k. k ≤ greater n (max_of ns)) ns
          (λ k h. omega (arith, h, up)) (All-below n ns),
    )

start_at-moved : (c : ℕ) (o : Option ℕ) → start_at c (some o) ≡ some (moved c o)
start_at-moved c none = refl
start_at-moved c (some n) = refl

no_waits :
    (c : ℕ) (rows : List WaitRow)
    → All (λ m. m ≤ c) (map (λ r. r.row_id) rows)
    → keep (is_reverted c) rows ≡ []
no_waits c [] h = refl
no_waits c (r ∷ rows) h = ground (arith, no_waits c rows h.1, h.0)

no_reverts :
    (c : ℕ) (waits : List WaitRow) (sends : List SendRow)
    → All (λ m. m ≤ c) (map (λ r. r.row_id) waits)
    → reverts c waits sends ≡ []
unfolding reverts join_sends
no_reverts c waits sends h = rw (no_waits c waits h) refl

-- After `initCursor` and `initEthCursor`, when their queries succeed, no failure and no revert that is in
-- the tables is selected: a start raises no alert for what happened before.
pub init_cursors_forget :
    (env : Env) (c : ℕ) (w : World Db)
    → env.fault w.calls ≡ false
    → ((n : ℕ) × ((init_cursor env c w).0 ≡ some n) × (failures n w.store.history ≡ []))
      × ((n : ℕ) × ((init_eth_cursor env c w).0 ≡ some n)
          × (reverts n w.store.waits w.store.sends ≡ []))
unfolding init_cursor init_eth_cursor failures
init_cursors_forget env c w f =
    let top = moved c (max_of (map (λ r. r.id) w.store.history)) in
    let eth_top = moved c (max_of (map (λ r. r.row_id) w.store.waits)) in
    (
      (
        top,
        rw f (start_at-moved c (max_of (map (λ r. r.id) w.store.history))),
        rw (old_rows top w.store.history (All-below c (map (λ r. r.id) w.store.history))) refl,
      ),
      (
        eth_top,
        rw f (start_at-moved c (max_of (map (λ r. r.row_id) w.store.waits))),
        no_reverts eth_top w.store.waits w.store.sends
            (All-below c (map (λ r. r.row_id) w.store.waits)),
      ),
    )
