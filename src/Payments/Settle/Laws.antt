-- ===== src/Payments/Settle/Laws.antt =====
-- What a settlement cycle sends.
use curio_core.Payments.Settle.{
  record_error, add_sent, record_settled, is_eligible, note_error, note_settled, add_tx,
  settle_rail,
}
use curio_core.Base.{
  append_assoc, append-nil, Option-cases, ◌≤◌, ◌==◌, length, ◌∷◌, ◌∙◌, any, ◌++◌, ◌⊎◌, Bool-cases,
  All, ◌≡◌, Option, List, suc, arith, ap, sym, inr, inl, true, some, refl, [], ℕ,
}
use curio_core.Env.{
  for_each_return, for_each_go, Flow-cases, for_each_nil, ticked, for_each, exec, World, Env,
}
use curio_core.Payments.Discover.{RailView, Chain, RailInfo}
use curio_core.Payments.Rails.{is_rail, set_rails, Books, Sent}

module _ (chain : Chain) (override : Option ℕ) (env : Env) (head : ℕ) where
  -- a settlement that may be sent: of this rail, up to the head of the chain, which the contract
  -- showed as eligible
  abbrev pub IsDue : RailInfo → Sent → Type 0
  IsDue r s =
      (s.sent_rail ≡ r.rail_id)
      × (s.until_epoch ≡ head)
      × ((n : ℕ) × (v : RailView) × (chain.get_rail n r.rail_id ≡ some v)
          × (is_eligible override head v ≡ true))

  exec_sent :
      (f : Books → Books) (w : World Books)
      → ((b : Books) → (f b).sent ≡ b.sent)
      → (exec env f w).1.store.sent ≡ w.store.sent
  exec_sent f w h = elim (Bool-cases (env.fault w.calls)) [
    | inl e ↦ rw e refl
    | inr e ↦ rw e (h w.store)
  ]

  note_error_sent :
      (id : ℕ) (w : World Books)
      → (note_error chain override env head id w).store.sent ≡ w.store.sent
  note_error_sent id w = exec_sent (set_rails (is_rail id) record_error) w (λ b. refl)

  add_tx_sent : (hash id : ℕ) (b : Books) → (add_tx hash id b).sent ≡ b.sent
  add_tx_sent hash id b = elim (Bool-cases (any (λ t. t.tx_hash == hash) b.txs)) [
    | inl e ↦ rw e refl
    | inr e ↦ rw e refl
  ]

  note_settled_sent :
      (id hash : ℕ) (w : World Books)
      → (note_settled chain override env head id hash w).store.sent ≡ w.store.sent
  note_settled_sent id hash w =
      exec_sent (add_tx hash id) _ (add_tx_sent hash id)
      ∙ exec_sent (set_rails (is_rail id) (record_settled head hash)) w (λ b. refl)

  -- a round sends nothing, or one settlement that is due
  round_sent :
      (r : RailInfo) (w : World Books)
      → ((settle_rail chain override env head r w).1.store.sent ≡ w.store.sent)
        ⊎ ((s : Sent) × ((settle_rail chain override env head r w).1.store.sent
              ≡ w.store.sent ++ (s ∷ []))
            × IsDue r s)
  unfolding settle_rail
  round_sent r w = elim (Bool-cases (env.owned w.calls)) [
    | inr o ↦ rw o (inl refl)
    | inl o ↦ elim (Option-cases (chain.get_rail (suc w.calls) r.rail_id)) [
      | inl g ↦ rw (o, g) (inl (note_error_sent r.rail_id (ticked (ticked w))))
      | inr (v, g) ↦ elim (Bool-cases (is_eligible override head v)) [
        | inr i ↦ rw (o, g, i) (inl refl)
        | inl i ↦ elim (Option-cases (chain.send_settle (suc (suc w.calls)) r.rail_id head)) [
          | inl h ↦ rw (o, g, i, h) (inl (note_error_sent r.rail_id (ticked (ticked (ticked w)))))
          | inr (hash, h) ↦
              let s : Sent = record { sent_rail = r.rail_id; until_epoch = head; hash = hash } in
              rw (o, g, i, h)
                (inr (
                  s,
                  note_settled_sent r.rail_id hash
                      (add_sent r.rail_id head hash (ticked (ticked (ticked w)))),
                  (refl, refl, (suc w.calls, v, g, i)),
                ))
        ]
      ]
    ]
  ]

  module _ (T : RailInfo → Type 0) where
    -- settlements that are due of rails with a property
    abbrev pub AllDue : List Sent → Type 0
    AllDue new = All (λ s. (r : RailInfo) × T r × IsDue r s) new

    pub loop_sent :
        (rs : List RailInfo) (w : World Books)
        → All T rs
        → (new : List Sent) × ((for_each (settle_rail chain override env head) rs w).1.store.sent
            ≡ w.store.sent ++ new)
          × AllDue new
          × (length new ≤ length rs)
    loop_sent [] w t = ([], rw for_each_nil (sym (append-nil w.store.sent)), tt, omega arith)
    loop_sent (r ∷ rs) w t =
        let w' = (settle_rail chain override env head r w).1 in
        let (new, e, due, short) = loop_sent rs w' t.1 in
        elim (Flow-cases (settle_rail chain override env head r w).0) [
          | inl g ↦
              rw (for_each_go (settle_rail chain override env head) r rs w g)
                (elim (round_sent r w) [
                  | inl same ↦ (new, e ∙ ap (λ b. b ++ new) same, due, omega (arith, short))
                  | inr (s, more, d) ↦ (
                    s ∷ new,
                    e ∙ ap (λ b. b ++ new) more ∙ append_assoc w.store.sent (s ∷ []) new,
                    ((r, t.0, d), due),
                    omega (arith, short),
                  )
                ])
          | inr (q, g) ↦
              rw (for_each_return (settle_rail chain override env head) r rs w q g)
                (elim (round_sent r w) [
                  | inl same ↦ ([], same ∙ sym (append-nil w.store.sent), tt, omega arith)
                  | inr (s, more, d) ↦ (s ∷ [], more, ((r, t.0, d), tt), omega arith)
                ])
        ]
