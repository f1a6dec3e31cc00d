-- ===== src/Engine/Lifecycle/Runs.antt =====
-- internal/engine/engine.go: the sequences of calls of an engine, and what they leave running.
use curio_core.Engine.Lifecycle.{
  hooks_pass, on_before_chain_sched, StartCalls, StopCalls, set_chain_sched, Engine, start, stop,
}
use curio_core.Base.{
  if◌then◌else◌, ◌∷◌, ◌≡◌, ◌++◌, ◌⊎◌, Option, List, ℕ, suc, false, true, some, none, [], Bool,
  Member, All, ◌&&◌, ◌||◌, not,
}

-- behind the machine's row, where the heartbeat has the first free number, the poll goroutine the second,
-- and the task engine the third
abbrev pub left_by_row : StartCalls → Engine → Option ℕ → List ℕ
left_by_row c e none = []
left_by_row c e (some id) =
    suc e.next
    ∷ (if not c.new_with_reg
        then e.next ∷ []
        else if e.chain_sched && not (hooks_pass c.hook 0 e.hooks)
        then suc (suc e.next) ∷ e.next ∷ []
        else [])

-- what a `Start` leaves running that no `Stop` ends: the poll goroutine of its notify task, and, where it
-- fails behind it, the heartbeat and the task engine as well
abbrev pub left_by_start : StartCalls → Engine → List ℕ
left_by_start c e = if e.running || not e.db_open then [] else left_by_row c e c.machine

-- what a `Stop` leaves running: the goroutines that do not end while it waits for them
abbrev pub given_up : Bool → Option ℕ → List ℕ
given_up true o = []
given_up false none = []
given_up false (some n) = n ∷ []

abbrev pub left_by_stop : StopCalls → Engine → List ℕ
left_by_stop c e =
    if e.running
    then given_up c.sched_ends e.chain_sched_cancel ++ given_up c.keepalive_ends e.keepalive
    else []

-- the calls of a program that uses the engine, in any order and with any outcome, and what they leave
-- running
pub data Run : Engine → List ℕ → Engine → Type 0 where
  nothing : {e : Engine} → Run e [] e
  sets :
      {e f : Engine} {left : List ℕ} (sched : Bool)
      → Run e left f
      → Run e left (set_chain_sched sched f).1
  hooks_on : {e f : Engine} {left : List ℕ} → Run e left f → Run e left (on_before_chain_sched f).1
  starts :
      {e f : Engine} {left : List ℕ} (c : StartCalls)
      → Run e left f
      → Run e (left_by_start c f ++ left) (start c f).1
  stops :
      {e f : Engine} {left : List ℕ} (c : StopCalls)
      → Run e left f
      → Run e (left_by_stop c f ++ left) (stop c f).1

-- the engine runs and has a handle for it
abbrev pub IsHandled : Engine → ℕ → Type 0
IsHandled e m =
    (e.running ≡ true)
    × ((e.chain_sched_cancel ≡ some m) ⊎ (e.te ≡ some m) ⊎ (e.keepalive ≡ some m))

-- everything that runs is handled or was left
abbrev pub IsTracked : List ℕ → Engine → Type 0
IsTracked left e = All (λ m. Member m left ⊎ IsHandled e m) e.live
