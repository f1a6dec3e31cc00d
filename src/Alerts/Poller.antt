-- ===== src/Alerts/Poller.antt =====
-- internal/alerts/poller.go: the two scans that turn failed tasks and reverted transactions into
-- alerts. The ticker and the mutexes around the cursors are left out: one goroutine polls.
pub mod Select
pub mod Laws
pub mod Raised
use curio_core.Alerts.Poller.Select.{
  or_zero, short_error, short_hash, severity_for, revert_severity, param, max_above,
  is_prior_failure, failures, reason_of, reverts, Revert, Db, TaskRow,
}
use curio_core.Env.{query, Env, World}
use curio_core.Base.{
  ◌-◌, not, count_if, drop, ◌++◌, ◌||◌, bytes_eq, codes, keep, length, leb, ◌&&◌, ltb, ◌==◌, ◌∷◌,
  map, take, if◌then◌else◌, Bytes, Bool, Option, List, ℕ, suc, zero, arith, ap, sym, inr, inl,
  false, true, some, none, refl, [], contains, decimal,
}
use curio_core.Sql.{order_by, lower}
use curio_core.Alerts.Table.{
  EmitArgs, severity_error, severity_critical, fingerprint_of, Param, or_else, Alerts,
  severity_warning, emit,
}

-- the part of a run that works on the table of alerts
abbrev pub on_alerts : {R : Type 0} → (World Alerts → R × World Alerts) → World Db → R × World Db
on_alerts f w =
    let (r, v) = f (record { store = w.store.alerts; calls = w.calls }) in
    (r, record { store = record w.store { alerts = v.store }; calls = v.calls })

module _ (marshal : List Param → Option Bytes) (sha256 : Bytes → Bytes) where
  abbrev pub task_source : TaskRow → Bytes
  task_source row = codes "task/" ++ row.name

  unfoldable pub task_print : TaskRow → Bytes
  task_print row =
      fingerprint_of marshal sha256 (task_source row)
        (param (codes "task_id") (decimal row.task_id) ∷ [])

  unfoldable pub task_args : TaskRow → Option ℕ → EmitArgs
  task_args row prior = record {
    severity = severity_for prior;
    source = task_source row;
    message = row.name ++ codes " failed (task_id=" ++ decimal row.task_id ++ codes ")";
    fingerprint = task_print row;
    context =
        param (codes "task_id") (decimal row.task_id)
        ∷ param (codes "name") row.name
        ∷ param (codes "history_id") (decimal row.id)
        ∷ param (codes "work_start") row.work_start
        ∷ param (codes "err") (short_error row.err)
        ∷ param (codes "prior_failures") (decimal (or_zero prior))
        ∷ param (codes "history_result") (decimal row.result)
        ∷ [];
  }

  unfoldable pub revert_print : Revert → Bytes
  revert_print r =
      fingerprint_of marshal sha256 (codes "eth-tx/" ++ reason_of r)
        (param (codes "tx_hash") (lower r.wait.signed_tx_hash) ∷ [])

  unfoldable pub revert_args : Revert → EmitArgs
  revert_args r = record {
    severity = revert_severity (reason_of r);
    source = codes "eth-tx/" ++ reason_of r;
    message =
        codes "on-chain tx REVERTED: "
        ++ reason_of r
        ++ codes " ("
        ++ short_hash r.wait.signed_tx_hash
        ++ codes ")";
    fingerprint = revert_print r;
    context =
        param (codes "tx_hash") r.wait.signed_tx_hash
        ∷ param (codes "send_reason") (reason_of r)
        ∷ param (codes "from_address") r.send.from_address
        ∷ param (codes "nonce") (decimal r.send.nonce)
        ∷ param (codes "block_number") (decimal (or_zero r.wait.confirmed_block_number))
        ∷ param (codes "tx_success") (decimal 0)
        ∷ [];
  }

  -- one row; an `Emit` that fails is only logged
  unfoldable pub alert_failure : Env → TaskRow → World Db → World Db
  alert_failure env row w =
      let (prior, w') = query env (λ db. count_if (is_prior_failure row) db.history) w in
      (on_alerts (emit marshal sha256 env (task_args row prior)) w').1

  unfoldable pub alert_revert : Env → Revert → World Db → World Db
  alert_revert env r w = (on_alerts (emit marshal sha256 env (revert_args r)) w).1

  abbrev pub fold_rows : {R : Type 0} → (R → World Db → World Db) → List R → World Db → World Db
  fold_rows f [] w = w
  fold_rows f (r ∷ rs) w = fold_rows f rs (f r w)

  -- the answers of the two queries; the cursor moves to the newest row, alerted or not
  abbrev pub finish_tick :
      {R : Type 0}
      → (R → World Db → World Db)
      → List R
      → ℕ
      → Option (Option ℕ)
      → World Db
      → Option ℕ × World Db
  finish_tick f rows c none w = (none, w)
  finish_tick f rows c (some none) w = (some c, fold_rows f rows w)
  finish_tick f rows c (some (some n)) w = (some n, fold_rows f rows w)

  abbrev pub scan :
      {R : Type 0}
      → Env
      → (R → World Db → World Db)
      → (Db → List ℕ)
      → ℕ
      → Option (List R)
      → World Db
      → Option ℕ × World Db
  scan env f ids c none w = (none, w)
  scan env f ids c (some rows) w =
      let (newest, w') = query env (λ db. max_above c (ids db)) w in finish_tick f rows c newest w'

  -- `tick`: the cursor after it, or `none` when a query fails, which leaves the cursor
  unfoldable pub tick : Env → ℕ → World Db → Option ℕ × World Db
  tick env c w =
      let (rows, w') = query env (λ db. failures c db.history) w in
      scan env (alert_failure env) (λ db. map (λ r. r.id) db.history) c rows w'

  -- `tickEthReverts`
  unfoldable pub tick_eth_reverts : Env → ℕ → World Db → Option ℕ × World Db
  tick_eth_reverts env c w =
      let (rows, w') = query env (λ db. reverts c db.waits db.sends) w in
      scan env (alert_revert env) (λ db. map (λ r. r.row_id) db.waits) c rows w'

abbrev pub greater : ℕ → Option ℕ → ℕ
greater n none = n
greater n (some m) = if ltb m n then n else m

-- `SELECT MAX(…)`
unfoldable pub max_of : List ℕ → Option ℕ
max_of [] = none
max_of (n ∷ ns) = some (greater n (max_of ns))

-- the cursor that was there stays when the table is empty
abbrev pub start_at : ℕ → Option (Option ℕ) → Option ℕ
start_at c none = none
start_at c (some none) = some c
start_at c (some (some n)) = some n

-- `initCursor`: the cursor, or `none` for an error
unfoldable pub init_cursor : Env → ℕ → World Db → Option ℕ × World Db
init_cursor env c w =
    let (n, w') = query env (λ db. max_of (map (λ r. r.id) db.history)) w in (start_at c n, w')

-- `initEthCursor`
unfoldable pub init_eth_cursor : Env → ℕ → World Db → Option ℕ × World Db
init_eth_cursor env c w =
    let (n, w') = query env (λ db. max_of (map (λ r. r.row_id) db.waits)) w in (start_at c n, w')
