-- ===== src/Dashboard/Overview.antt =====
-- internal/dashboard/dashboard.go, `collectOverview`: the numbers of the overview page.
--
-- The answers of the chain client are arguments, none for an error; `cutoff` is the text that SQLite
-- gives for a day ago. A query that fails leaves its number at zero.
pub mod Laws
use Prim.Native.Nat.{max}
use curio_core.Env.{query, World, Env}
use curio_core.Dashboard.DataSets.{DataSetRow}
use curio_core.Dashboard.Readiness.{compute_readiness, ReadinessReport, Server, Overview}
use curio_core.Base.{
  bytes_lt, not, keep, if◌then◌else◌, count_if, ◌&&◌, codes, ◌+◌, ◌∷◌, ltb, bytes_eq, ◌==◌, Bytes,
  Bool, Option, List, ℕ, suc, zero, arith, ap, sym, inr, inl, false, true, some, none, refl, [],
  ◌≡◌,
}

pub record PieceRow : Type 0 where
  pub piece_raw_size : ℕ
  pub complete : ℕ

pub record HistoryRow : Type 0 where
  pub name : Bytes
  pub result : ℕ
  pub work_end : Bytes

-- the tables that the page reads: the owner of a task, and the flag `terminated` of a rail
pub record Tables : Type 0 where
  pub data_sets : List DataSetRow
  pub parked_pieces : List PieceRow
  pub rails : List ℕ
  pub history : List HistoryRow
  pub tasks : List (Option ℕ)

pub record OverviewStats : Type 0 where
  pub datasets_active : ℕ
  pub datasets_terminated : ℕ
  pub pieces_complete_count : ℕ
  pub pieces_complete_bytes : ℕ
  pub rails_active : ℕ
  pub rails_terminated : ℕ
  pub prove_success : ℕ
  pub prove_failed : ℕ
  pub tasks_running : ℕ
  pub tasks_unowned : ℕ

pub record OverviewChain : Type 0 where
  pub head_epoch : ℕ
  pub reachable : Bool
  pub synced : Bool
  pub chain_id : ℕ
  pub peers : ℕ
  pub pending_tx_count : ℕ

pub record EthClient : Type 0 where
  pub block_number : Option ℕ
  pub peer_count : Option ℕ
  pub chain_id : Option ℕ
  pub pending_transactions : Option ℕ

abbrev pub or_0 : Option ℕ → ℕ
or_0 none = 0
or_0 (some n) = n

abbrev pub sum_of : {A : Type 0} → (A → ℕ) → List A → ℕ
sum_of f [] = 0
sum_of f (x ∷ xs) = f x + sum_of f xs

abbrev pub max_opt : Option ℕ → ℕ → ℕ
max_opt none m = m
max_opt (some n) m = max n m

-- `MAX(prev_challenge_request_epoch)`, zero where it is NULL
abbrev pub max_challenge : List DataSetRow → ℕ
max_challenge [] = 0
max_challenge (d ∷ ds) = max_opt d.prev_challenge_request_epoch (max_challenge ds)

-- `COALESCE(terminated_at_epoch,0) = 0`
abbrev pub is_active : DataSetRow → Bool
is_active d = or_0 d.terminated_at_epoch == 0

abbrev pub is_terminated : DataSetRow → Bool
is_terminated d = ltb 0 (or_0 d.terminated_at_epoch)

abbrev pub is_complete : PieceRow → Bool
is_complete p = p.complete == 1

-- `name='PDPv0_Prove' AND result=… AND work_end >= …`
abbrev pub is_prove : Bytes → ℕ → HistoryRow → Bool
is_prove cutoff result h =
    bytes_eq h.name (codes "PDPv0_Prove") && h.result == result && not (bytes_lt h.work_end cutoff)

abbrev pub is_owned : Option ℕ → Bool
is_owned none = false
is_owned (some owner) = true

unfoldable pub scan : Env → (Tables → ℕ) → World Tables → ℕ × World Tables
scan env f w = let (n, w') = query env f w in (or_0 n, w')

abbrev pub eth_chain : EthClient → OverviewChain
eth_chain eth = record {
  head_epoch = or_0 eth.block_number;
  reachable = is_owned eth.block_number;
  synced = ltb 0 (or_0 eth.block_number);
  chain_id = or_0 eth.chain_id;
  peers = or_0 eth.peer_count;
  pending_tx_count = or_0 eth.pending_transactions;
}

abbrev pub chain_of : Option EthClient → OverviewChain
chain_of none = record {
  head_epoch = 0;
  reachable = false;
  synced = false;
  chain_id = 0;
  peers = 0;
  pending_tx_count = 0;
}
chain_of (some eth) = eth_chain eth

-- the head, from the data sets where the client gives none
abbrev pub with_head : Env → OverviewChain → World Tables → OverviewChain × World Tables
with_head env c w =
    if c.head_epoch == 0
    then (let (n, w') = scan env (λ t. max_challenge t.data_sets) w in
        (record c { head_epoch = n }, w'))
    else (c, w)

-- the statements in their order; count and bytes of the pieces are one of them
unfoldable pub collect_stats : Env → Bytes → World Tables → OverviewStats × World Tables
collect_stats env cutoff w =
    let (active, w1) = scan env (λ t. count_if is_active t.data_sets) w in
    let (ended, w2) = scan env (λ t. count_if is_terminated t.data_sets) w1 in
    let (count, w3) = scan env (λ t. count_if is_complete t.parked_pieces) w2 in
    let bytes =
      if env.fault w2.calls
      then 0
      else sum_of (λ p. p.piece_raw_size) (keep is_complete w2.store.parked_pieces) in
    let (rails, w4) = scan env (λ t. count_if (λ r. r == 0) t.rails) w3 in
    let (rails_ended, w5) = scan env (λ t. count_if (λ r. r == 1) t.rails) w4 in
    let (proved, w6) = scan env (λ t. count_if (is_prove cutoff 1) t.history) w5 in
    let (failed, w7) = scan env (λ t. count_if (is_prove cutoff 0) t.history) w6 in
    let (running, w8) = scan env (λ t. count_if is_owned t.tasks) w7 in
    let (unowned, w9) = scan env (λ t. count_if (λ o. not (is_owned o)) t.tasks) w8 in
    (
      record {
        datasets_active = active;
        datasets_terminated = ended;
        pieces_complete_count = count;
        pieces_complete_bytes = bytes;
        rails_active = rails;
        rails_terminated = rails_ended;
        prove_success = proved;
        prove_failed = failed;
        tasks_running = running;
        tasks_unowned = unowned;
      },
      w9,
    )

-- what the checklist reads of the page
abbrev pub overview_of : OverviewChain → OverviewStats → Overview
overview_of c stats = record {
  reachable = c.reachable;
  synced = c.synced;
  datasets_active = stats.datasets_active;
  prove_success = stats.prove_success;
  prove_failed = stats.prove_failed;
}

-- the page: chain, statistics and checklist
unfoldable pub collect_overview :
    Env
    → Bytes
    → Option EthClient
    → Server
    → World Tables
    → (OverviewChain × OverviewStats × ReadinessReport) × World Tables
collect_overview env cutoff eth s w =
    let (c, w1) = with_head env (chain_of eth) w in
    let (stats, w2) = collect_stats env cutoff w1 in
    ((c, stats, compute_readiness s (overview_of c stats)), w2)
