-- ===== src/Env/Defs.antt =====
-- The environment's answers, and one call of each kind.
use curio_core.Base.{ℕ, suc, Bool, true, false, Option, none, some, if◌then◌else◌}

pub record Env : Type 0 where
  pub fault : ℕ → Bool  -- does the n-th call, a statement or a system call, return an error?
  pub owned : ℕ → Bool  -- what `stillOwned()` says when it is the n-th call
  pub time : ℕ → ℕ  -- what the clock shows at the n-th call

pub record World (S : Type 0) : Type 0 where
  pub store : S
  pub calls : ℕ

module _ {S : Type 0} where
  abbrev pub ticked : World S → World S
  ticked w = record w { calls = suc w.calls }

  -- `stillOwned()`
  abbrev pub still_owned : Env → World S → Bool × World S
  still_owned env w = (env.owned w.calls, ticked w)

  -- `time.Now()`
  abbrev pub now : Env → World S → ℕ × World S
  now env w = (env.time w.calls, ticked w)

  -- A statement or system call that writes. One that fails has written nothing.
  abbrev pub exec : Env → (S → S) → World S → Bool × World S
  exec env f w =
      if env.fault w.calls
      then (false, ticked w)
      else (true, ticked (record w { store = f w.store }))

  -- A call that reads.
  abbrev pub query : Env → {A : Type 0} → (S → A) → World S → Option A × World S
  query env f w = if env.fault w.calls then (none, ticked w) else (some (f w.store), ticked w)
