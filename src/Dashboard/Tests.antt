-- ===== src/Dashboard/Tests.antt =====
-- internal/dashboard: runs.
use curio_core.Dashboard.Readiness.Laws.{all_ready_iff}
use curio_core.Dashboard.Runner.Capture.{write_all-take}
use curio_core.Dashboard.Guide.Laws.{compute_guide-AreSequential, AreSequential, first_open}
use curio_core.Dashboard.Overview.{Tables}
use curio_core.Dashboard.Messages.Laws.{clear_stale-ClearsStale, ClearsStale}
use curio_core.Dashboard.Rollup.{empty_rollup, enter}
use curio_core.Env.{World, Env}
use curio_core.Dashboard.Runner.{
  handle_api_run-IsReadOnly, handle_api_run, ended, IsReadOnly, Run, write_all,
}
use curio_core.Dashboard.Guide.{compute_guide}
use curio_core.Dashboard.Rollup.Laws.{
  finishes, enters, here, Reach-IsHonest, IsHonest, finished, next, start, entered, System, Reach,
}
use curio_core.Dashboard.Messages.{Mpool, WaitRow, handle_clear_stale_messages, SendRow}
use curio_core.Dashboard.DataSets.{proven, derive_prove_status, DataSetRow}
use curio_core.Dashboard.Readiness.{Server, compute_readiness}
use curio_core.Base.{
  ◌≢◌, ◌⊎◌, ◌↔◌, pos, ◌+◌, ◌≡◌, ◌∷◌, All, codes, ◌≤◌, OnSome, Bytes, Option, List, ℕ, suc, arith,
  false, true, some, none, refl, [],
}

abbrev quiet : Env
quiet = record { fault = λ n. false; owned = λ n. true; time = λ n. 100 + n }

abbrev prints : List Bytes → Run
prints argv = record { out = codes "ok" ∷ []; err = []; end = ended; timed_out = false }

abbrev list_wallets : Option (List Bytes)
list_wallets = some (codes "wallet" ∷ codes "list" ∷ [])

handle_api_run-IsReadOnly_example :
    OnSome IsReadOnly (handle_api_run (some (codes "/bin/curio-core")) prints list_wallets).0
handle_api_run-IsReadOnly_example =
    handle_api_run-IsReadOnly (some (codes "/bin/curio-core")) prints list_wallets

write_all-take_example :
    ((write_all
        (codes "abc" ∷ codes "def" ∷ [])
        (record { buf = []; limit = 4; truncated = false })).buf
      ≡ codes "abcd")
    × ((((write_all
              (codes "abc" ∷ codes "def" ∷ [])
              (record { buf = []; limit = 4; truncated = false })).truncated
            ≡ false)
          × (6 ≤ 4))
        ⊎ (((write_all
                (codes "abc" ∷ codes "def" ∷ [])
                (record { buf = []; limit = 4; truncated = false })).truncated
              ≡ true)
            × (4 ≤ 6)))
write_all-take_example = write_all-take 4 (codes "abc" ∷ codes "def" ∷ []) (omega arith)

abbrev funded : Server
funded = record {
  payee_address = codes "0x1";
  stash_dir = codes "/stash";
  has_eth = true;
  is_hex_address = true;
  balance = some (some (pos 5));
}

abbrev in_sync : curio_core.Dashboard.Readiness.Overview
in_sync = record {
  reachable = true;
  synced = true;
  datasets_active = 0;
  prove_success = 0;
  prove_failed = 0;
}

all_ready_iff_example : ((compute_readiness funded in_sync).all_ready ≡ true) ↔ (
    (true ≡ true)
    × (true ≡ true)
    × (codes "0x1" ≢ [])
    × (true ≡ true)
    × (true ≡ true)
    × ((n : ℕ) × (some (some (pos 5)) ≡ some (some (pos (suc n)))))
    × (codes "/stash" ≢ []))
all_ready_iff_example = all_ready_iff funded in_sync

compute_guide-AreSequential_example :
    ((compute_guide funded in_sync).next_num ≡ first_open 0 (compute_guide funded in_sync).steps)
    × AreSequential (compute_guide funded in_sync).steps
compute_guide-AreSequential_example = compute_guide-AreSequential funded in_sync

abbrev computed_once : System
computed_once =
    entered 30 (finished 10 empty_rollup (entered 5 start (enter 5 start.cache)))
      (enter 30 (finished 10 empty_rollup (entered 5 start (enter 5 start.cache))).cache)

one_caller_at : (entered 5 start (enter 5 start.cache)).computing ≡ 1
unfolding enter
one_caller_at = refl

once_computed : Reach start computed_once
once_computed =
    next
      (next (next here (enters start 5)) (
        finishes (entered 5 start (enter 5 start.cache)) 10 empty_rollup
          (omega (arith, one_caller_at))))
      (enters (finished 10 empty_rollup (entered 5 start (enter 5 start.cache))) 30)

Reach-IsHonest_example :
    (computed_once.computing ≤ 1) × All (IsHonest computed_once.computations) computed_once.answers
Reach-IsHonest_example = Reach-IsHonest once_computed

abbrev sent : ℕ → Bytes → SendRow
sent nonce hash = record {
  from_address = codes "0xa";
  nonce = some nonce;
  signed_hash = some hash;
  send_error = none;
}

abbrev waited : Bytes → WaitRow
waited hash = record {
  rowid = 1;
  signed_tx_hash = some hash;
  tx_status = some (codes "pending");
  tx_success = none;
  confirmed_block_number = none;
}

abbrev mpool : World Mpool
mpool = record {
  store = record {
    sends = sent 3 (codes "0xab") ∷ sent 4 (codes "0xcd") ∷ sent 9 (codes "0xef") ∷ [];
    waits = waited (codes "0xcd") ∷ [];
  };
  calls = 0;
}

abbrev seven : Bytes → Option ℕ
seven sender = some 7

clear_stale-ClearsStale_example :
    ClearsStale seven mpool.store (handle_clear_stale_messages quiet true seven mpool).store
clear_stale-ClearsStale_example = clear_stale-ClearsStale quiet true seven mpool

clears_one :
    (handle_clear_stale_messages quiet true seven mpool).store.sends
    ≡ sent 4 (codes "0xcd") ∷ sent 9 (codes "0xef") ∷ []
unfolding handle_clear_stale_messages
clears_one = refl

-- a wait whose hash differs in the case of a letter does not keep the send
clears_tracked :
    (handle_clear_stale_messages quiet true seven (record mpool {
      store = record { sends = sent 4 (codes "0xcd") ∷ []; waits = waited (codes "0xCD") ∷ [] };
    })).store.sends
    ≡ []
unfolding handle_clear_stale_messages
clears_tracked = refl

abbrev row : DataSetRow
row = record {
  id = 1;
  prove_at_epoch = some 50;
  prev_challenge_request_epoch = none;
  consecutive_prove_failures = 0;
  terminated_at_epoch = none;
  unrecoverable_proving_failure_epoch = none;
  challenge_request_task_id = none;
  next_prove_attempt_at = none;
}

row_proven : derive_prove_status (some 60) row 100 ≡ proven
unfolding derive_prove_status
row_proven = refl

abbrev tables : World Tables
tables = record {
  store = record {
    data_sets = row ∷ [];
    parked_pieces = [];
    rails = [];
    history = [];
    tasks = some 1 ∷ none ∷ [];
  };
  calls = 0;
}
