-- ===== src/Payments/Tests.antt =====
-- A contract with one rail, and the theorems of the settlement at it.
use curio_core.Payments.Settle.{settle_rail, settle_all, is_eligible, settle_candidates, run_cycle}
use curio_core.Payments.Rails.{upsert_rail, Books, upsert_rails}
use curio_core.Payments.Settle.Cycle.{run_cycle-Sends, rails_found, Sends}
use curio_core.Payments.Discover.{
  pages, discover-has_ended, RailView, RailInfo, Chain, discover, has_ended,
}
use curio_core.Base.{◌∷◌, ◌≡◌, codes, false, true, some, none, refl, [], ℕ}
use curio_core.Env.{for_each, World, Env}

abbrev calm : Env
calm = record { fault = λ n. false; owned = λ n. true; time = λ n. n }

abbrev view : ℕ → RailView
view lockup = record {
  payer = codes "0xA";
  payee = codes "0xB";
  token = codes "0xC";
  operator = codes "0xD";
  validator = codes "0xE";
  lockup_period = lockup;
  settled_up_to = 900;
}

abbrev rail : RailInfo
rail = record { rail_id = 5; terminated = false; end_epoch = 0 }

-- head 1000; a rail of that lockup
abbrev one_rail : ℕ → Chain
one_rail lockup = record {
  rails_page = λ n offset limit. some (record { results = rail ∷ []; next_offset = 1; total = 1 });
  get_rail = λ n id. some (view lockup);
  block_number = λ n. some 1000;
  send_settle = λ n id head. some 77;
}

abbrev books : World Books
books = record { store = record { rails = []; txs = []; sent = [] }; calls = 0 }

-- a short lockup is settled, and a long one has to wait
settles_short :
    (run_cycle (one_rail 10) none [] [] calm books).1.store.sent
    ≡ record { sent_rail = 5; until_epoch = 1000; hash = 77 } ∷ []
unfolding run_cycle discover pages upsert_rails for_each upsert_rail settle_candidates settle_all
    settle_rail is_eligible
settles_short = refl

discover-has_ended_example : has_ended (discover (one_rail 10) 0) ≡ true
discover-has_ended_example = discover-has_ended (one_rail 10) 0

run_cycle-Sends_example :
    Sends
      (one_rail 10)
      none
      []
      []
      calm
      (rails_found (one_rail 10) none [] [] calm (discover (one_rail 10) 1))
      books
      (run_cycle (one_rail 10) none [] [] calm books).1
run_cycle-Sends_example = run_cycle-Sends (one_rail 10) none [] [] calm books
