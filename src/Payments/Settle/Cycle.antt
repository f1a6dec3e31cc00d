-- ===== src/Payments/Settle/Cycle.antt =====
-- internal/payments/settle.go: what a whole cycle sends.
use curio_core.Payments.Settle.Laws.{loop_sent, IsDue}
use curio_core.Payments.Settle.{
  after_discovery, with_rails, run_cycle, with_head, with_candidates, max_settles, after_upsert,
  finish, settle_all, Report, settle_candidates,
}
use curio_core.Payments.Discover.{Discovery, discover, out_of_fuel, found, rpc_error}
use curio_core.Base.{
  keep, All-self, All-Member, length-take, All-weaken, not, ◌∷◌, All-keep, ◌≤◌, any, All-take,
  append-nil, length, Bool-cases, Member, ◌++◌, ◌∙◌, ◌≡◌, All, Bytes, Option, List, suc, arith, ap,
  sym, inr, inl, false, some, none, refl, [], ℕ,
}
use curio_core.Env.{for_each_inv, ticked, exec, World, Env}
use curio_core.Payments.Discover.{Chain, RailInfo}
use curio_core.Payments.Rails.{
  upsert_rails, new_row, add_rail, refreshed, set_rails, is_rail, go_if, Failure, upsert_rail,
  Books, Sent,
}

open_rails : (rails : List RailInfo) → All (λ r. r.terminated ≡ false) (settle_candidates rails)
unfolding settle_candidates
open_rails rails =
    All-take (λ r. r.terminated ≡ false) max_settles _
      (All-keep (λ r. r.terminated ≡ false) (λ r. not r.terminated) rails
        (λ r m e. ground (arith, e)))

length-settle_candidates : (rails : List RailInfo) → length (settle_candidates rails) ≤ max_settles
unfolding settle_candidates
length-settle_candidates rails =
    omega (arith, length-take max_settles (keep (λ r. not r.terminated) rails))

module _ (chain : Chain) (override : Option ℕ) (payee usdfc : Bytes) (env : Env) where
  -- `after` has at most 16 settlements more than `before`, and each of them is due, up to a head that the
  -- chain reported, of a rail of the list that is not terminated
  abbrev pub Sends : List RailInfo → World Books → World Books → Type 0
  Sends rails before after =
      (new : List Sent) × (after.store.sent ≡ before.store.sent ++ new)
      × (length new ≤ max_settles)
      × All
          (λ s.
            (n : ℕ) × (head : ℕ) × (chain.block_number n ≡ some head)
            × ((r : RailInfo) × ((r.terminated ≡ false) × Member r (settle_candidates rails))
                × IsDue chain override env head r s))
          new

  nothing :
      (rails : List RailInfo) (v w : World Books) → v.store.sent ≡ w.store.sent → Sends rails w v
  nothing rails v w e = ([], e ∙ sym (append-nil w.store.sent), omega arith, tt)

  candidates_open :
      (rails : List RailInfo)
      → All
          (λ r. (r.terminated ≡ false) × Member r (settle_candidates rails))
          (settle_candidates rails)
  candidates_open rails =
      All-weaken _ _ (settle_candidates rails)
        (λ r m. (All-Member (λ x. x.terminated ≡ false) m (open_rails rails), m))
        (All-self (settle_candidates rails))

  finish_sent :
      (head : ℕ) (o : Option Report × World Books) → (finish chain override env head o).1 ≡ o.1
  finish_sent head (none, w) = refl
  finish_sent head (some r, w) = refl

  with_head_sent :
      (rails rs : List RailInfo) (n : ℕ) (o : Option ℕ) (w : World Books)
      → chain.block_number n ≡ o
      → All (λ r. (r.terminated ≡ false) × Member r (settle_candidates rails)) rs
      → length rs ≤ max_settles
      → Sends rails w (with_head chain override payee usdfc env rs o w).1
  unfolding settle_all
  with_head_sent rails rs n none w e t l = nothing rails w w refl
  with_head_sent rails rs n (some head) w e t l =
      let (new, s, due, short) =
        loop_sent chain override env head
          (λ r. (r.terminated ≡ false) × Member r (settle_candidates rails)) rs w t in
      rw finish_sent
        (new, s, omega (arith, short, l), All-weaken _ _ new (λ x d. (n, head, e, d)) due)

  with_candidates_sent :
      (rails rs : List RailInfo) (w : World Books)
      → All (λ r. (r.terminated ≡ false) × Member r (settle_candidates rails)) rs
      → length rs ≤ max_settles
      → Sends rails w (with_candidates chain override payee usdfc env rs w).1
  with_candidates_sent rails [] w t l = nothing rails w w refl
  with_candidates_sent rails (r ∷ rs) w t l =
      with_head_sent rails (r ∷ rs) w.calls (chain.block_number w.calls) (ticked w) refl t l

  exec_sent :
      (f : Books → Books) (w : World Books)
      → ((b : Books) → (f b).sent ≡ b.sent)
      → (go_if (exec env f w)).1.store.sent ≡ w.store.sent
  exec_sent f w h = elim (Bool-cases (env.fault w.calls)) [
    | inl e ↦ rw e refl
    | inr e ↦ rw e (h w.store)
  ]

  upsert_rail_sent :
      (r : RailInfo) (w : World Books)
      → (upsert_rail chain payee usdfc env r w).1.store.sent ≡ w.store.sent
  unfolding upsert_rail
  upsert_rail_sent r w = elim (Bool-cases (env.fault w.calls)) [
    | inl f ↦ rw f refl
    | inr f ↦ elim (Bool-cases (any (is_rail r.rail_id) w.store.rails)) [
      | inl k ↦
          rw (f, k) (exec_sent (set_rails (is_rail r.rail_id) (refreshed r)) (ticked w) (λ b. refl))
      | inr k ↦
          rw (f, k)
            (exec_sent (add_rail (new_row payee usdfc r (chain.get_rail (suc w.calls) r.rail_id)))
              (ticked (ticked w)) (λ b. refl))
    ]
  ]

  after_upsert_sent :
      (rails : List RailInfo) (before : World Books) (o : Option Failure) (w : World Books)
      → w.store.sent ≡ before.store.sent
      → Sends rails before (after_upsert chain override payee usdfc env rails (o, w)).1
  after_upsert_sent rails before (some e) w h = nothing rails w before h
  after_upsert_sent rails before none w h = elim (Bool-cases (env.owned w.calls)) [
    | inr o ↦ rw o (nothing rails (ticked w) before h)
    | inl o ↦ rw o (
        let (new, s, short, due) =
          with_candidates_sent rails (settle_candidates rails) (ticked w) (candidates_open rails)
            (length-settle_candidates rails) in
        (new, s ∙ ap (λ b. b ++ new) h, short, due))
  ]

  upsert_rails_sent :
      (rails : List RailInfo) (w : World Books)
      → (upsert_rails chain payee usdfc env rails w).1.store.sent ≡ w.store.sent
  unfolding upsert_rails
  upsert_rails_sent rails w =
      for_each_inv (λ v. v.store.sent ≡ w.store.sent) (upsert_rail chain payee usdfc env)
        (λ r v h. upsert_rail_sent r v ∙ h) rails w refl

  with_rails_sent :
      (rails : List RailInfo) (w : World Books)
      → Sends rails w (with_rails chain override payee usdfc env rails w).1
  with_rails_sent [] w = nothing [] w w refl
  with_rails_sent (r ∷ rs) w = elim (Bool-cases (env.owned w.calls)) [
    | inr o ↦ rw o (nothing (r ∷ rs) (ticked w) w refl)
    | inl o ↦ rw o (
        let (stop, v) = upsert_rails chain payee usdfc env (r ∷ rs) (ticked w) in
        after_upsert_sent (r ∷ rs) w stop v (upsert_rails_sent (r ∷ rs) (ticked w)))
  ]

  -- the rails that discovery finds in a cycle
  abbrev pub rails_found : Discovery → List RailInfo
  rails_found (found rails n) = rails
  rails_found (rpc_error n) = []
  rails_found out_of_fuel = []

  after_discovery_sent :
      (d : Discovery) (w : World Books)
      → Sends (rails_found d) w (after_discovery chain override payee usdfc env d w).1
  after_discovery_sent (found rails n) w = with_rails_sent rails (record w { calls = n })
  after_discovery_sent (rpc_error n) w = nothing [] (record w { calls = n }) w refl
  after_discovery_sent out_of_fuel w = nothing [] w w refl

  -- Whatever fails and whatever the contract answers, a cycle sends at most 16 settlements. Each is of
  -- one of the first 16 discovered rails that are not terminated, and `getRail` showed the rail as
  -- eligible at a head that the chain reported. It is settled up to that head, whatever the rail's
  -- `lockupPeriod` and `settledUpTo` are.
  pub run_cycle-Sends :
      (w : World Books)
      → Sends
          (rails_found (discover chain (suc w.calls)))
          w
          (run_cycle chain override payee usdfc env w).1
  unfolding run_cycle
  run_cycle-Sends w = elim (Bool-cases (env.owned w.calls)) [
    | inr o ↦ rw o (nothing _ (ticked w) w refl)
    | inl o ↦ rw o (after_discovery_sent (discover chain (suc w.calls)) (ticked w))
  ]
