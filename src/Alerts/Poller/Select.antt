-- ===== src/Alerts/Poller/Select.antt =====
-- What the poller reads: failed tasks, and confirmed transactions that reverted.
use curio_core.Base.{
  ◌-◌, not, drop, ◌||◌, ◌++◌, bytes_eq, keep, ◌&&◌, leb, length, codes, ltb, if◌then◌else◌, ◌∷◌,
  ◌==◌, map, take, Bytes, Bool, Option, List, ℕ, false, some, none, [], contains,
}
use curio_core.Sql.{order_by, lower}
use curio_core.Alerts.Table.{
  severity_error, severity_critical, severity_warning, Param, or_else, Alerts,
}

-- `harmony_task_history`
pub record TaskRow : Type 0 where
  pub id : ℕ
  pub task_id : ℕ
  pub name : Bytes
  pub result : ℕ
  pub work_start : Bytes
  pub err : Bytes

-- `message_waits_eth`
pub record WaitRow : Type 0 where
  pub row_id : ℕ
  pub signed_tx_hash : Bytes
  pub tx_status : Bytes
  pub tx_success : Option Bool
  pub confirmed_block_number : Option ℕ

-- `message_sends_eth`
pub record SendRow : Type 0 where
  pub signed_hash : Bytes
  pub send_reason : Bytes
  pub from_address : Bytes
  pub nonce : ℕ

pub record Db : Type 0 where
  pub alerts : Alerts
  pub history : List TaskRow
  pub waits : List WaitRow
  pub sends : List SendRow

-- the cursors of `Poller`
pub record Cursors : Type 0 where
  pub cursor : ℕ
  pub eth_cursor : ℕ

abbrev pub batch_limit : ℕ
batch_limit = 100

abbrev pub newer : ℕ → ℕ → Option ℕ → Option ℕ
newer c n none = if ltb c n then some n else none
newer c n (some m) = some (if ltb c n && ltb m n then n else m)

-- `SELECT MAX(…) … WHERE … > ?`
unfoldable pub max_above : ℕ → List ℕ → Option ℕ
max_above c [] = none
max_above c (n ∷ ns) = newer c n (max_above c ns)

abbrev pub is_new_failure : ℕ → TaskRow → Bool
is_new_failure c r = ltb c r.id && (r.result == 0)

unfoldable pub failures : ℕ → List TaskRow → List TaskRow
failures c rows = take batch_limit (order_by (λ r. r.id) (keep (is_new_failure c) rows))

abbrev pub is_prior_failure : TaskRow → TaskRow → Bool
is_prior_failure row r = (r.task_id == row.task_id) && (r.result == 0) && leb r.id row.id

-- a warning, an error from 3 failures on, critical from 5 on; a warning when they cannot be counted
abbrev pub severity_for : Option ℕ → Bytes
severity_for none = severity_warning
severity_for (some n) =
    if leb 5 n then severity_critical else if leb 3 n then severity_error else severity_warning

abbrev pub space_for_newline : ℕ → ℕ
space_for_newline c = if c == 10 then b' ' else c

-- `errMsg`: at most 200 bytes, on one line
abbrev pub short_error : Bytes → Bytes
short_error err =
    map space_for_newline (if ltb 200 (length err) then take 200 err ++ codes "..." else err)

abbrev pub param : Bytes → Bytes → Param
param k v = record { key = k; value = v }

abbrev pub or_zero : Option ℕ → ℕ
or_zero none = 0
or_zero (some n) = n

-- `"error"` after this many bytes of a hash
abbrev pub short_hash : Bytes → Bytes
short_hash h =
    if leb (length h) 12 then h else take 8 h ++ (226 ∷ 128 ∷ 166 ∷ drop (length h - 4) h)

-- a row of the join, with the defaults of `COALESCE`
pub record Revert : Type 0 where
  pub wait : WaitRow
  pub send : SendRow

abbrev pub no_send : SendRow
no_send = record { signed_hash = []; send_reason = []; from_address = []; nonce = 0 }

abbrev pub is_reverted : ℕ → WaitRow → Bool
is_reverted c r =
    ltb c r.row_id
    && bytes_eq r.tx_status (codes "confirmed")
    && (elim r.tx_success [ none ↦ false | some b ↦ not b ])

abbrev pub with_send : WaitRow → SendRow → Revert
with_send r s = record { wait = r; send = s }

-- `LEFT JOIN`
abbrev pub or_no_send : WaitRow → List SendRow → List Revert
or_no_send r [] = with_send r no_send ∷ []
or_no_send r (s ∷ ss) = map (with_send r) (s ∷ ss)

unfoldable pub join_sends : List WaitRow → List SendRow → List Revert
join_sends [] sends = []
join_sends (r ∷ rs) sends =
    or_no_send r (keep (λ s. bytes_eq (lower s.signed_hash) (lower r.signed_tx_hash)) sends)
    ++ join_sends rs sends

unfoldable pub reverts : ℕ → List WaitRow → List SendRow → List Revert
unfolding join_sends
reverts c waits sends =
    take batch_limit (order_by (λ r. r.wait.row_id) (join_sends (keep (is_reverted c) waits) sends))

abbrev pub reason_of : Revert → Bytes
reason_of r = or_else r.send.send_reason (codes "unknown")

abbrev pub revert_severity : Bytes → Bytes
revert_severity reason =
    if contains reason (codes "prov") || contains reason (codes "prove")
    then severity_critical
    else severity_error
