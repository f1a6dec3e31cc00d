-- ===== src/Reorg/Order.antt =====
-- What the scheduler receives from `ChainNotify`: every event once and in order, and no revert
-- without the apply that follows it.
use curio_core.Base.{
  ℕ, suc, Bool, true, false, Option, none, some, List, [], ◌∷◌, ◌++◌, ◌≡◌, ◌⊎◌, refl, ◌∙◌, ap,
  subst, arith, append_assoc, append-nil, Bool-cases, inl, inr,
}
use curio_core.Reorg.Coalescer.{Batch, push, flush}
use curio_core.Reorg.Convert.{Chain}
use curio_core.Reorg.Notify.{Sent, SourceEvent, emit, close, forward, round, convert_batch, notify}

module _ {T : Type 0} where
  abbrev pub joined : List (Batch T) → Batch T
  joined [] = []
  joined (b ∷ bs) = b ++ joined bs

  abbrev events_of : Option (Batch T) → Batch T
  events_of none = []
  events_of (some b) = b

  -- `push` neither drops nor reorders an event
  events-push :
      (pending batch : Batch T)
      → events_of (push pending batch).0 ++ (push pending batch).1 ≡ pending ++ batch
  unfolding push
  events-push [] batch = ground (arith, append-nil batch)
  events-push (hc ∷ held) batch = ground (arith, append-nil ((hc ∷ held) ++ batch))

  -- `sent` carries a first part of `all`, and the whole of it unless the context was cancelled
  abbrev pub InOrder : Sent T → Batch T → Type 0
  InOrder sent all =
      (rest : Batch T) × (joined sent.out ++ rest ≡ all) × ((sent.cancelled ≡ true) ⊎ (rest ≡ []))

module _ (chain : Chain) (head : ℕ → Option chain.TipSet) (accepts : ℕ → Bool) where
  open chain use {TipSet}

  -- every event of the source after its conversion, in order
  unfoldable pub converted_events : ℕ → List (List (SourceEvent chain head accepts)) → Batch TipSet
  converted_events n [] = []
  converted_events n (batch ∷ src) =
      let (converted, n') = convert_batch chain head accepts n batch in
      converted ++ converted_events n' src

  emit-InOrder :
      (k : ℕ) (b all : Batch TipSet) (sent : Sent TipSet)
      → InOrder sent all
      → InOrder (emit chain head accepts k b sent) (b ++ all)
  unfolding emit
  emit-InOrder k b all sent h = elim (Bool-cases (accepts k)) [
    | inl e ↦ rw e (h.0, append_assoc b (joined sent.out) h.0 ∙ ap (λ t. b ++ t) h.1, h.2)
    | inr e ↦ rw e (b ++ all, refl, inl refl)
  ]

  close-InOrder : (k : ℕ) (p : Batch TipSet) → InOrder (close chain head accepts k p) p
  unfolding close flush
  close-InOrder k [] = ([], refl, inr refl)
  close-InOrder k (hc ∷ held) =
      let sent : Sent TipSet = record { out = []; cancelled = false } in
      subst (λ all. InOrder (emit chain head accepts k (hc ∷ held) sent) all)
        (append-nil (hc ∷ held)) (emit-InOrder k (hc ∷ held) [] sent ([], refl, inr refl))

  module _ (next : ℕ → Batch TipSet → Sent TipSet) (later : Batch TipSet)
      (h : (k : ℕ) (held : Batch TipSet) → InOrder (next k held) (held ++ later)) where
    forward-InOrder :
        (k : ℕ) (pushed : Option (Batch TipSet) × Batch TipSet)
        → InOrder
            (forward chain head accepts next k pushed)
            ((events_of pushed.0 ++ pushed.1) ++ later)
    unfolding forward
    forward-InOrder k (none, held) = h k held
    forward-InOrder k (some b, held) =
        rw append_assoc (emit-InOrder k b (held ++ later) (next (suc k) held) (h (suc k) held))

    round-InOrder :
        (k : ℕ) (converted pending : Batch TipSet)
        → InOrder
            (round chain head accepts next k converted pending)
            (pending ++ (converted ++ later))
    unfolding round
    round-InOrder k [] pending = h k pending
    round-InOrder k (hc ∷ converted) pending =
        let sent = forward chain head accepts next k (push pending (hc ∷ converted)) in
        subst (λ all. InOrder sent all)
          (ap (λ t. t ++ later) (events-push pending (hc ∷ converted))
            ∙ append_assoc pending (hc ∷ converted) later)
          (forward-InOrder k (push pending (hc ∷ converted)))

  -- The batches that are sent, joined, are a first part of the held events followed by all converted
  -- events of the source: nothing is dropped inside, repeated or reordered. Unless a send met the
  -- cancelled context, they are all of them.
  pub notify-InOrder :
      (n k : ℕ) (pending : Batch TipSet) (src : List (List (SourceEvent chain head accepts)))
      → InOrder (notify chain head accepts n k pending src) (pending ++ converted_events n src)
  unfolding notify converted_events
  notify-InOrder n k pending [] = rw append-nil (close-InOrder k pending)
  notify-InOrder n k pending (batch ∷ src) =
      let (converted, n') = convert_batch chain head accepts n batch in
      round-InOrder (λ k' held. notify chain head accepts n' k' held src) (converted_events n' src)
        (λ k' held. notify-InOrder n' k' held src) k converted pending
