-- ===== src/Payments/Settle.antt =====
-- `Do`: one cycle of discovery and settlement, and `settleOne`.
pub mod Laws
pub mod Cycle
use curio_core.Base.{
  ◌&&◌, not, ◌+◌, ◌-◌, ◌==◌, ◌∷◌, ltb, any, keep, ◌*◌, ◌++◌, take, if◌then◌else◌, Bytes, Bool,
  Option, List, suc, zero, arith, ap, sym, inr, inl, false, true, some, none, refl, [], ℕ,
}
use curio_core.Env.{return, go, still_owned, for_each, Flow, exec, World, Env}
use curio_core.Payments.Discover.{
  out_of_fuel, rpc_error, found, discover, Discovery, RailView, Chain, RailInfo,
}
use curio_core.Payments.Rails.{
  is_rail, upsert_rails, set_rails, Failure, called, RailRow, Books, Sent,
}

abbrev pub max_settles : ℕ
max_settles = 16

abbrev pub epochs_in_day : ℕ
epochs_in_day = 2880

abbrev pub base_interval : Option ℕ → ℕ
base_interval none = epochs_in_day * 7
base_interval (some n) = if ltb 0 n then n else epochs_in_day * 7

-- a week, or the positive number of `CURIO_CORE_PAYMENTS_MIN_SETTLE_EPOCHS`, and never longer than
-- the lockup less one day, if that is positive
unfoldable pub settle_interval : Option ℕ → RailView → ℕ
settle_interval override v =
    let graced = v.lockup_period - epochs_in_day in
    if ltb epochs_in_day v.lockup_period && ltb graced (base_interval override)
    then graced
    else base_interval override

-- a lockup of a day or less is settled in every cycle
unfoldable pub is_eligible : Option ℕ → ℕ → RailView → Bool
is_eligible override head v =
    if ltb epochs_in_day v.lockup_period
    then ltb (v.settled_up_to + settle_interval override v) head
    else true

-- the first rails that are not terminated
unfoldable pub settle_candidates : List RailInfo → List RailInfo
settle_candidates rails = take max_settles (keep (λ r. not r.terminated) rails)

abbrev pub record_error : RailRow → RailRow
record_error row = record row { settle_failed = true }

abbrev pub record_settled : ℕ → ℕ → RailRow → RailRow
record_settled head hash row = record row {
  last_settled_epoch = some head;
  last_settle_tx_hash = some hash;
  settle_failed = false;
}

-- `INSERT OR IGNORE`
abbrev pub add_tx : ℕ → ℕ → Books → Books
add_tx hash id b =
    if any (λ t. t.tx_hash == hash) b.txs
    then b
    else record b { txs = b.txs ++ (record { tx_hash = hash; rail_id = id } ∷ []) }

abbrev pub add_sent : ℕ → ℕ → ℕ → World Books → World Books
add_sent id head hash w = record w {
  store = record w.store {
    sent = w.store.sent ++ (record { sent_rail = id; until_epoch = head; hash = hash } ∷ []);
  };
}

pub data Report : Type 0 where
  done not_done failed : Report

module _ (chain : Chain) (override : Option ℕ) (env : Env) (head : ℕ) where
  -- the errors of these statements are dropped
  abbrev pub note_error : ℕ → World Books → World Books
  note_error id w = (exec env (set_rails (is_rail id) record_error) w).1

  abbrev pub note_settled : ℕ → ℕ → World Books → World Books
  note_settled id hash w =
      (exec env (add_tx hash id)
        (exec env (set_rails (is_rail id) (record_settled head hash)) w).1).1

  abbrev pub after_send : ℕ → Option ℕ → World Books → World Books
  after_send id none w = note_error id w
  after_send id (some hash) w = note_settled id hash (add_sent id head hash w)

  abbrev pub after_view : ℕ → Option RailView → World Books → World Books
  after_view id none w = note_error id w
  after_view id (some v) w =
      if is_eligible override head v
      then (let (hash, w') = called (λ n. chain.send_settle n id head) w in after_send id hash w')
      else w

  -- one round of the loop
  unfoldable pub settle_rail : RailInfo → World Books → Flow Report × World Books
  settle_rail r w =
      let (owned, w') = still_owned env w in
      let (view, w'') = called (λ n. chain.get_rail n r.rail_id) w' in
      if owned then (go, after_view r.rail_id view w'') else (return not_done, w')

  abbrev pub finish : Option Report × World Books → Report × World Books
  finish (none, w) = (done, w)
  finish (some r, w) = (r, w)

  unfoldable pub settle_all : List RailInfo → World Books → Report × World Books
  settle_all rs w = finish (for_each settle_rail rs w)

module _ (chain : Chain) (override : Option ℕ) (payee usdfc : Bytes) (env : Env) where
  abbrev pub with_head : List RailInfo → Option ℕ → World Books → Report × World Books
  with_head rs none w = (failed, w)
  with_head rs (some head) w = settle_all chain override env head rs w

  abbrev pub with_candidates : List RailInfo → World Books → Report × World Books
  with_candidates [] w = (done, w)
  with_candidates (r ∷ rs) w =
      let (head, w') = called chain.block_number w in with_head (r ∷ rs) head w'

  abbrev pub after_upsert : List RailInfo → Option Failure × World Books → Report × World Books
  after_upsert rails (some e, w) = (failed, w)
  after_upsert rails (none, w) =
      let (owned, w') = still_owned env w in
      if owned then with_candidates (settle_candidates rails) w' else (not_done, w')

  abbrev pub with_rails : List RailInfo → World Books → Report × World Books
  with_rails [] w = (done, w)
  with_rails (r ∷ rs) w =
      let (owned, w') = still_owned env w in
      if owned
      then after_upsert (r ∷ rs) (upsert_rails chain payee usdfc env (r ∷ rs) w')
      else (not_done, w')

  -- running out of fuel does not happen
  abbrev pub after_discovery : Discovery → World Books → Report × World Books
  after_discovery (found rails calls) w = with_rails rails (record w { calls = calls })
  after_discovery (rpc_error calls) w = (failed, record w { calls = calls })
  after_discovery out_of_fuel w = (failed, w)

  unfoldable pub run_cycle : World Books → Report × World Books
  run_cycle w =
      let (owned, w') = still_owned env w in
      if owned then after_discovery (discover chain w'.calls) w' else (not_done, w')
