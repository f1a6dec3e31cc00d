-- ===== src/Payments/Rails.antt =====
-- The table `pdp_payment_rails`, and `upsertRails`.
pub mod Laws
use curio_core.Sql.{lower, update}
use curio_core.Base.{
  suc, zero, arith, ap, sym, inr, inl, refl, any, ◌∷◌, ◌++◌, ◌==◌, Bytes, Bool, Option, List, false,
  true, some, none, [], ℕ,
}
use curio_core.Env.{go, exec, return, query, ticked, for_each, Flow, World, Env}
use curio_core.Payments.Discover.{RailView, Chain, RailInfo}

pub record RailRow : Type 0 where
  pub rail_id : ℕ
  pub payer : Bytes
  pub payee : Bytes
  pub token : Bytes
  pub operator : Option Bytes
  pub validator : Option Bytes
  pub terminated : Bool
  pub end_epoch : ℕ
  pub last_settled_epoch : Option ℕ
  pub last_settle_tx_hash : Option ℕ
  pub settle_failed : Bool  -- is `last_settle_error` set?

pub record TxRow : Type 0 where
  pub tx_hash : ℕ
  pub rail_id : ℕ

-- a transaction that was handed to the sender
pub record Sent : Type 0 where
  pub sent_rail : ℕ
  pub until_epoch : ℕ
  pub hash : ℕ

pub record Books : Type 0 where
  pub rails : List RailRow
  pub txs : List TxRow
  pub sent : List Sent

abbrev pub is_rail : ℕ → RailRow → Bool
is_rail id r = r.rail_id == id

abbrev pub set_rails : (RailRow → Bool) → (RailRow → RailRow) → Books → Books
set_rails p f b = record b { rails = update p f b.rails }

abbrev pub add_rail : RailRow → Books → Books
add_rail r b = record b { rails = b.rails ++ (r ∷ []) }

-- without details the row is still added, with an empty payer
abbrev pub new_row : Bytes → Bytes → RailInfo → Option RailView → RailRow
new_row payee usdfc r none = record {
  rail_id = r.rail_id;
  payer = [];
  payee = lower payee;
  token = lower usdfc;
  operator = none;
  validator = none;
  terminated = r.terminated;
  end_epoch = r.end_epoch;
  last_settled_epoch = none;
  last_settle_tx_hash = none;
  settle_failed = false;
}
new_row payee usdfc r (some v) = record {
  rail_id = r.rail_id;
  payer = lower v.payer;
  payee = lower v.payee;
  token = lower v.token;
  operator = some (lower v.operator);
  validator = some (lower v.validator);
  terminated = r.terminated;
  end_epoch = r.end_epoch;
  last_settled_epoch = none;
  last_settle_tx_hash = none;
  settle_failed = false;
}

abbrev pub refreshed : RailInfo → RailRow → RailRow
refreshed r row = record row { terminated = r.terminated; end_epoch = r.end_epoch }

-- a call of the contract
abbrev pub called : {A : Type 0} → (ℕ → Option A) → World Books → Option A × World Books
called f w = (f w.calls, ticked w)

pub data Failure : Type 0 where
  db_error : Failure

abbrev pub go_if : Bool × World Books → Flow Failure × World Books
go_if (true, w) = (go, w)
go_if (false, w) = (return db_error, w)

module _ (chain : Chain) (payee usdfc : Bytes) (env : Env) where
  abbrev pub insert_rail : RailInfo → World Books → Flow Failure × World Books
  insert_rail r w =
      let (detail, w') = called (λ n. chain.get_rail n r.rail_id) w in
      go_if (exec env (add_rail (new_row payee usdfc r detail)) w')

  -- by what `rowExists` says; its error ends the loop
  abbrev pub store_rail : RailInfo → Option Bool → World Books → Flow Failure × World Books
  store_rail r none w = (return db_error, w)
  store_rail r (some true) w = go_if (exec env (set_rails (is_rail r.rail_id) (refreshed r)) w)
  store_rail r (some false) w = insert_rail r w

  -- one round of the loop
  unfoldable pub upsert_rail : RailInfo → World Books → Flow Failure × World Books
  upsert_rail r w =
      let (exists, w') = query env (λ b. any (is_rail r.rail_id) b.rails) w in
      store_rail r exists w'

  unfoldable pub upsert_rails : List RailInfo → World Books → Option Failure × World Books
  upsert_rails rs w = for_each upsert_rail rs w
