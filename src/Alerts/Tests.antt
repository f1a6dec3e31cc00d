-- ===== src/Alerts/Tests.antt =====
-- A table with one alert, three failed runs of one task, and the theorems of the alerts at it.
use curio_core.Alerts.Table.Rows.{emit-row, alert_of, row_for, merged}
use curio_core.Alerts.Poller.Raised.{tick_raises, Raised}
use curio_core.Alerts.Poller.Select.{Db, failures, TaskRow, WaitRow}
use curio_core.Alerts.Poller.{task_print, tick}
use curio_core.Alerts.Table.Laws.{operations-WellFormed, WellFormed}
use curio_core.Alerts.Table.{
  severity_warning, new_alert, Alert, Alerts, print_of, ack, Param, ack_all, emit, EmitArgs,
}
use curio_core.Base.{
  bytes_eq, if◌then◌else◌, ◌∷◌, ◌%◌, codes, replicate, ◌≡◌, ◌+◌, length, All, Bytes, Option, List,
  suc, zero, arith, ap, false, true, some, none, refl, [], ℕ,
}
use curio_core.Env.{World, Env}

abbrev calm : Env
calm = record { fault = λ n. false; owned = λ n. true; time = λ n. 100 + n }

calm_sound : (n : ℕ) → calm.fault n ≡ false
calm_sound n = refl

abbrev no_json : List Param → Option Bytes
no_json ps = none

-- 32 bytes that depend on the text's length
abbrev digest : Bytes → Bytes
digest s = replicate 32 (length s % 256)

length-replicate : (n a : ℕ) → length (replicate n a) ≡ n
length-replicate zero a = refl
length-replicate (suc n) a = ap suc (length-replicate n a)

length-digest : (s : Bytes) → length (digest s) ≡ 32
length-digest s = length-replicate 32 (length s % 256)

abbrev low_balance : EmitArgs
low_balance = record {
  severity = [];
  source = codes "wallet";
  message = codes "low";
  fingerprint = codes "w";
  context = [];
}

abbrev alerts : World Alerts
alerts = record {
  store = record {
    rows =
        new_alert 1 (codes "w") severity_warning (codes "wallet") (codes "low") (codes "{}") 50
        ∷ [];
    next_id = 2;
  };
  calls = 0;
}

alerts-WellFormed : WellFormed alerts.store
alerts-WellFormed = ((omega arith, tt), (tt, tt))

operations-WellFormed_example :
    WellFormed (emit no_json digest calm low_balance alerts).1.store
    × WellFormed (ack calm 1 alerts).1.store
    × WellFormed (ack_all calm alerts).1.store
operations-WellFormed_example =
    operations-WellFormed no_json digest calm low_balance 1 alerts alerts-WellFormed

emit-row_example :
    let (id, w') = emit no_json digest calm low_balance alerts in
    let fp = print_of no_json digest low_balance in
    let row : Bytes → Alert =
      λ g. merged (row_for g alerts.store) (alert_of no_json digest calm low_balance 2 100) in
    (id ≡ some (row fp).id)
    × ((g : Bytes)
        → row_for g w'.store ≡ (if bytes_eq fp g then some (row g) else row_for g alerts.store))
emit-row_example = emit-row no_json digest calm low_balance alerts refl refl refl

abbrev failed_run : ℕ → TaskRow
failed_run id = record {
  id = id;
  task_id = 7;
  name = codes "Prove";
  result = 0;
  work_start = [];
  err = codes "no";
}

abbrev pending : WaitRow
pending = record {
  row_id = 4;
  signed_tx_hash = codes "0xab";
  tx_status = codes "pending";
  tx_success = none;
  confirmed_block_number = none;
}

-- the transaction is confirmed, and has reverted
abbrev reverted : WaitRow → WaitRow
reverted r = record r { tx_status = codes "confirmed"; tx_success = some false }

abbrev db : World Db
db = record {
  store = record {
    alerts = alerts.store;
    history = failed_run 1 ∷ failed_run 2 ∷ failed_run 3 ∷ [];
    waits = pending ∷ [];
    sends = [];
  };
  calls = 0;
}

tick_raises_example :
    All
      (λ r. Raised (task_print no_json digest r) (tick no_json digest calm 0 db).1)
      (failures 0 db.store.history)
tick_raises_example = tick_raises no_json digest calm calm_sound length-digest 0 db
