-- ===== src/Engine/Lifecycle.antt =====
-- internal/engine/engine.go: the states of an `Engine`, its `Start` and its `Stop`.
--
-- A channel that is set and a task engine are each a number, that of the goroutine or of the instance;
-- the goroutines that run are a list of such numbers. What the calls of other code answer, and whether
-- a goroutine ends within the time that `Stop` waits for it, are arguments. `NewPDPNotifyTask` starts a
-- poll goroutine under the context of the caller, and nothing of the engine ends it.
pub mod Runs
pub mod Laws
use curio_core.Base.{
  ◌==◌, not, ◌∷◌, keep, if◌then◌else◌, Bytes, List, ℕ, suc, zero, arith, ap, sym, inr, inl, false,
  true, some, none, refl, [], Bool, Option,
}

-- what `Start` meets
pub record StartCalls : Type 0 where
  pub machine : Option ℕ  -- the id that `recordMachineRow` gives
  pub new_with_reg : Bool  -- does the task engine come up?
  pub hook : ℕ → Bool  -- does the n-th hook succeed?

-- what `Stop` meets
pub record StopCalls : Type 0 where
  pub sched_ends : Bool  -- is `chainSchedDone` closed within 5 seconds?
  pub keepalive_ends : Bool  -- is `machineKeepaliveDone` closed within 2 seconds?
  pub close : Bool  -- does the database close?

pub record Engine : Type 0 where
  pub running : Bool
  pub db_open : Bool
  pub keepalive : Option ℕ  -- `machineKeepaliveStop`
  pub notify : Option ℕ  -- the poll goroutine of the notify task
  pub te : Option ℕ
  pub chain_sched : Bool
  pub chain_sched_cancel : Option ℕ
  pub hooks : ℕ
  pub live : List ℕ  -- the goroutines, and the task engines, that run
  pub next : ℕ

pub data Outcome : Type 0 where
  done : Outcome
  failed : Outcome
  panics : Outcome

-- `SetChainSched`, and `OnBeforeChainSched`
unfoldable pub set_chain_sched : Bool → Engine → Outcome × Engine
set_chain_sched sched e =
    if e.running then (panics, e) else (done, record e { chain_sched = sched })

unfoldable pub on_before_chain_sched : Engine → Outcome × Engine
on_before_chain_sched e =
    if e.running then (panics, e) else (done, record e { hooks = suc e.hooks })

-- `New`, once the database is open and the registry is built
abbrev pub new_engine : Engine
new_engine = record {
  running = false;
  db_open = true;
  keepalive = none;
  notify = none;
  te = none;
  chain_sched = false;
  chain_sched_cancel = none;
  hooks = 0;
  live = [];
  next = 0;
}

abbrev pub start_machine_keepalive : Engine → Engine
start_machine_keepalive e = record e {
  keepalive = some e.next;
  live = e.next ∷ e.live;
  next = suc e.next;
}

abbrev pub new_notify_task : Engine → Engine
new_notify_task e = record e { notify = some e.next; live = e.next ∷ e.live; next = suc e.next }

abbrev pub start_task_engine : Engine → Engine
start_task_engine e = record e { te = some e.next; live = e.next ∷ e.live; next = suc e.next }

abbrev pub run_chain_sched : Engine → Engine
run_chain_sched e = record e {
  chain_sched_cancel = some e.next;
  live = e.next ∷ e.live;
  next = suc e.next;
}

-- do the hooks succeed, from the n-th on?
abbrev pub hooks_pass : (ℕ → Bool) → ℕ → ℕ → Bool
hooks_pass hook n zero = true
hooks_pass hook n (suc k) = let rest = hooks_pass hook (suc n) k in if hook n then rest else false

abbrev pub start_chain_sched : StartCalls → Engine → Outcome × Engine
start_chain_sched c e =
    if e.chain_sched
    then (if hooks_pass c.hook 0 e.hooks
        then (done, run_chain_sched e)
        else (failed, record e { running = false }))
    else (done, e)

-- behind the machine's row
abbrev pub start_tasks : StartCalls → Engine → Outcome × Engine
start_tasks c e =
    let built = new_notify_task (start_machine_keepalive e) in
    if c.new_with_reg
    then start_chain_sched c (start_task_engine built)
    else (failed, record built { running = false })

abbrev pub start_machine : StartCalls → Option ℕ → Engine → Outcome × Engine
start_machine c none e = (failed, record e { running = false })
start_machine c (some id) e = start_tasks c e

-- `Start`; a database that was closed is a nil pointer
unfoldable pub start : StartCalls → Engine → Outcome × Engine
start c e =
    if e.running
    then (failed, e)
    else if e.db_open
    then start_machine c c.machine (record e { running = true })
    else (panics, record e { running = true })

-- what was started under a number is told to end, and ends within the wait or goes on
abbrev pub ended : Bool → Option ℕ → List ℕ → List ℕ
ended in_time none live = live
ended in_time (some n) live = if in_time then keep (λ m. not (m == n)) live else live

abbrev pub stop_chain_sched : StopCalls → Engine → Engine
stop_chain_sched c e = record e {
  live = ended c.sched_ends e.chain_sched_cancel e.live;
  chain_sched_cancel = none;
}

abbrev pub stop_keepalive : StopCalls → Engine → Engine
stop_keepalive c e = record e { live = ended c.keepalive_ends e.keepalive e.live; keepalive = none }

-- `GracefullyTerminate` returns when the task engine has ended
abbrev pub stop_task_engine : Engine → Engine
stop_task_engine e = record e { live = ended true e.te e.live; te = none }

abbrev pub close_db : StopCalls → Engine → Outcome × Engine
close_db c e =
    if e.db_open
    then (if c.close then (done, record e { db_open = false }) else (failed, e))
    else (done, e)

-- `Stop`
unfoldable pub stop : StopCalls → Engine → Outcome × Engine
stop c e =
    if e.running
    then close_db c
        (stop_task_engine (stop_keepalive c (stop_chain_sched c (record e { running = false }))))
    else (done, e)
