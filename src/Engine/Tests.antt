-- ===== src/Engine/Tests.antt =====
-- internal/engine/engine.go: runs.
use curio_core.Engine.Lifecycle.Laws.{Run-IsTracked}
use curio_core.Engine.Lifecycle.Runs.{nothing, sets, starts, stops, IsTracked, left_by_start}
use curio_core.Engine.Machines.{
  has_host, keepalive_tick, insert_machine, Machines, record_machine_row,
}
use curio_core.Engine.Machines.Laws.{record_machine_row-IsAlive, keepalive_tick-IsAlive, IsAlive}
use curio_core.Env.{World, Env}
use curio_core.Engine.Registry.{register_all, has_task, static_v0, task, names, register, TaskNames}
use curio_core.Engine.Lifecycle.{
  failed, panics, done, set_chain_sched, stop, new_engine, StartCalls, StopCalls, Engine, start,
}
use curio_core.Base.{
  ◌≤◌, keep, ℕ, suc, arith, codes, ◌∷◌, ◌≡◌, ◌+◌, Bytes, false, true, some, none, refl, [],
}

abbrev quiet : Env
quiet = record { fault = λ n. false; owned = λ n. true; time = λ n. 100 + n }

abbrev no_machines : World Machines
no_machines = record { store = record { rows = []; next_id = 1 }; calls = 0 }

abbrev host : Bytes
host = codes "box:0"

reads_row_again :
    (record_machine_row quiet host (record_machine_row quiet host no_machines).1).0 ≡ some 1
unfolding record_machine_row insert_machine
reads_row_again = refl

quiet_sound : (n : ℕ) → quiet.fault n ≡ false
quiet_sound n = refl

quiet_later : (n : ℕ) → quiet.time n ≤ quiet.time (suc n)
quiet_later n = omega arith

record_machine_row-IsAlive_example :
    (id : ℕ) × ((record_machine_row quiet host no_machines).0 ≡ some id)
    × IsAlive id 100 (keep (has_host host) (record_machine_row quiet host no_machines).1.store.rows)
record_machine_row-IsAlive_example =
    record_machine_row-IsAlive quiet host no_machines quiet_sound quiet_later

-- the row was deleted
keepalive_tick-IsAlive_example : IsAlive 7 100 (keepalive_tick quiet host 7 no_machines).store.rows
keepalive_tick-IsAlive_example =
    keepalive_tick-IsAlive quiet host 7 no_machines refl refl (omega arith)

abbrev all_good : StartCalls
all_good = record { machine = some 1; new_with_reg = true; hook = λ n. true }

abbrev no_tasks : StartCalls
no_tasks = record all_good { new_with_reg = false }

abbrev closes : StopCalls
closes = record { sched_ends = true; keepalive_ends = true; close = true }

-- the scheduler does not end in time
abbrev wedged : StopCalls
wedged = record closes { sched_ends = false }

abbrev with_sched : Engine
with_sched = (set_chain_sched true new_engine).1

start_runs : (start all_good with_sched).0 ≡ done
unfolding start set_chain_sched
start_runs = refl

-- a stop that works leaves the poll goroutine, and a wedged one the scheduler as well
stop_ends : (stop closes (start all_good with_sched).1).1.live ≡ 1 ∷ []
unfolding start stop set_chain_sched
stop_ends = refl

Run-IsTracked_example : IsTracked (3 ∷ 1 ∷ []) (stop wedged (start all_good with_sched).1).1
unfolding start stop set_chain_sched
Run-IsTracked_example = Run-IsTracked (stops wedged (starts all_good (sets true nothing)))

-- Where the task engine does not come up, the heartbeat and the poll goroutine go on behind a stop, and
-- the database stays open.
failed_start_leaves :
    ((start no_tasks new_engine).0 ≡ failed)
    × (left_by_start no_tasks new_engine ≡ 1 ∷ 0 ∷ [])
    × ((stop closes (start no_tasks new_engine).1).1.live ≡ 1 ∷ 0 ∷ [])
    × ((stop closes (start no_tasks new_engine).1).1.db_open ≡ true)
unfolding start stop
failed_start_leaves = (refl, refl, refl, refl)

-- a `Start` behind a `Stop` has no database
start_behind_stop : (start all_good (stop closes (start all_good new_engine).1).1).0 ≡ panics
unfolding start stop
start_behind_stop = refl

abbrev letters : TaskNames
letters = record {
  prove = codes "prove";
  pull_piece = codes "pull";
  save_cache = codes "cache";
  init_pp = codes "init";
  prov_period = codes "period";
  notify = codes "notify";
  del_data_set = codes "delete";
  term_fwss = codes "term";
  chain_sync = codes "sync";
}

registers_nine : register_all (static_v0 letters) (some []) ≡ some (static_v0 letters)
unfolding register has_task
registers_nine = refl

sorts_names :
    names (task (codes "b") none 1 1 ∷ task (codes "a") none 1 1 ∷ []) ≡ codes "a" ∷ codes "b" ∷ []
unfolding names
sorts_names = refl

refuses_duplicate :
    register_all (task (codes "a") none 1 1 ∷ task (codes "a") none 2 2 ∷ []) (some []) ≡ none
unfolding register has_task
refuses_duplicate = refl
