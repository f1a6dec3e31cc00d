-- ===== src/Dashboard/DataSets.antt =====
-- internal/dashboard/dashboard.go: the state of a data set, `deriveProveStatus`, and the repair
-- `handleRetryProving`. Epochs are natural numbers.
use curio_core.Sql.{update}
use curio_core.Env.{exec, World, Env}
use curio_core.Base.{
  leb, ◌≤◌, ◌<◌, if◌then◌else◌, ltb, ◌&&◌, Bool, Option, List, ℕ, arith, false, true, some, none,
  refl, ◌≡◌,
}

pub record DataSetRow : Type 0 where
  pub id : ℕ
  pub prove_at_epoch : Option ℕ
  pub prev_challenge_request_epoch : Option ℕ
  pub consecutive_prove_failures : ℕ
  pub terminated_at_epoch : Option ℕ
  pub unrecoverable_proving_failure_epoch : Option ℕ
  pub challenge_request_task_id : Option ℕ
  pub next_prove_attempt_at : Option ℕ

pub data ProveStatus : Type 0 where
  terminated wedged unknown overdue proven awaiting_window never_proven : ProveStatus

abbrev pub is_above_zero : Option ℕ → Bool
is_above_zero none = false
is_above_zero (some n) = ltb 0 n

-- the decision by the scheduled window; `last_proven` is the epoch that the contract tells
abbrev pub window_status : ℕ → ℕ → Option ℕ → ProveStatus
window_status head last_proven none = never_proven
window_status head last_proven (some prove_at) =
    if ltb 0 head && ltb 0 prove_at
    then (if ltb prove_at head && ltb last_proven prove_at
        then overdue
        else if leb prove_at last_proven
        then proven
        else awaiting_window)
    else never_proven

abbrev pub on_chain_status : ℕ → Option ℕ → DataSetRow → ProveStatus
on_chain_status head none row = unknown
on_chain_status head (some last_proven) row = window_status head last_proven row.prove_at_epoch

-- `last_proven` is none where the contract could not be read
unfoldable pub derive_prove_status : Option ℕ → DataSetRow → ℕ → ProveStatus
derive_prove_status last_proven row head =
    if is_above_zero row.terminated_at_epoch
    then terminated
    else if ltb 0 row.consecutive_prove_failures
    then wedged
    else on_chain_status head last_proven row

abbrev pub is_null : Option ℕ → Bool
is_null none = true
is_null (some n) = false

abbrev pub is_live : DataSetRow → Bool
is_live row = is_null row.unrecoverable_proving_failure_epoch && is_null row.terminated_at_epoch

abbrev pub rearm : DataSetRow → DataSetRow
rearm row = record row { challenge_request_task_id = none; next_prove_attempt_at = none }

-- `handleRetryProving`
unfoldable pub handle_retry_proving : Env → World (List DataSetRow) → World (List DataSetRow)
handle_retry_proving env w = (exec env (update is_live rearm) w).1

window_proven :
    (head last_proven : ℕ) (o : Option ℕ)
    → window_status head last_proven o ≡ proven
    → (prove_at : ℕ) × (o ≡ some prove_at) × (0 < prove_at) × (0 < head) × (prove_at ≤ last_proven)
window_proven head last_proven none h = absurd (ground (arith, h))
window_proven head last_proven (some p) h =
    (p, refl, ground (arith, h), ground (arith, h), ground (arith, h))

-- The status is "proven" only for a data set that is not terminated and has no failure in a row, for
-- which the contract tells a last proof at or after the epoch that is scheduled.
pub proven_sound :
    (last_proven : Option ℕ) (row : DataSetRow) (head : ℕ)
    → derive_prove_status last_proven row head ≡ proven
    → (is_above_zero row.terminated_at_epoch ≡ false)
      × (row.consecutive_prove_failures ≡ 0)
      × ((proof : ℕ) × (prove_at : ℕ) × (last_proven ≡ some proof)
          × (row.prove_at_epoch ≡ some prove_at)
          × (prove_at ≤ proof))
unfolding derive_prove_status
proven_sound none row head h = absurd (ground (arith, h))
proven_sound (some proof) row head h =
    let (p, scheduled, _, _, landed) =
      window_proven head proof row.prove_at_epoch (ground (arith, h)) in
    (ground (arith, h), ground (arith, h), (proof, p, refl, scheduled, landed))
