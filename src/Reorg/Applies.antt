-- ===== src/Reorg/Applies.antt =====
-- The scheduler gets no batch of reverts alone, except as the last one at the close of the source.
use curio_core.Base.{
  ℕ, suc, Bool, false, Option, none, some, List, [], ◌∷◌, ◌++◌, ◌≡◌, arith, Bool-cases, inl, inr,
}
use curio_core.Reorg.Coalescer.{HeadChange, Batch, all_reverts, batch_is_revert_only, push, flush}
use curio_core.Reorg.Convert.{Chain}
use curio_core.Reorg.Notify.{Sent, SourceEvent, emit, close, forward, round, convert_batch, notify}

module _ {T : Type 0} where
  -- every batch but the last has an event that is no revert
  abbrev pub AppliesFollow : List (Batch T) → Type 0
  AppliesFollow [] = Unit
  AppliesFollow (b ∷ []) = Unit
  AppliesFollow (b ∷ c ∷ bs) = (batch_is_revert_only b ≡ false) × AppliesFollow (c ∷ bs)

  AppliesFollow-cons :
      (b : Batch T) (bs : List (Batch T))
      → batch_is_revert_only b ≡ false
      → AppliesFollow bs
      → AppliesFollow (b ∷ bs)
  AppliesFollow-cons b [] h _ = tt
  AppliesFollow-cons b (c ∷ bs) h hs = (h, hs)

  -- what `push` lets through has an apply
  abbrev Applies : Option (Batch T) → Type 0
  Applies none = Unit
  Applies (some b) = batch_is_revert_only b ≡ false

  all_reverts-append :
      (held batch : Batch T) → all_reverts batch ≡ false → all_reverts (held ++ batch) ≡ false
  unfolding all_reverts
  all_reverts-append [] batch h = h
  all_reverts-append (hc ∷ held) batch h = ground (arith, all_reverts-append held batch h)

  push-Applies :
      (pending : Batch T) (hc : HeadChange T) (batch : Batch T)
      → Applies (push pending (hc ∷ batch)).0
  unfolding push batch_is_revert_only
  push-Applies [] hc batch = ground arith
  push-Applies (r ∷ held) hc batch = elim (Bool-cases (all_reverts (hc ∷ batch))) [
    | inl e ↦ rw e tt
    | inr e ↦ rw e (all_reverts-append (r ∷ held) (hc ∷ batch) e)
  ]

module _ (chain : Chain) (head : ℕ → Option chain.TipSet) (accepts : ℕ → Bool) where
  open chain use {TipSet}

  module _ (next : ℕ → Batch TipSet → Sent TipSet)
      (h : (k : ℕ) (held : Batch TipSet) → AppliesFollow (next k held).out) where
    forward-Applies :
        (k : ℕ) (pushed : Option (Batch TipSet) × Batch TipSet)
        → Applies pushed.0
        → AppliesFollow (forward chain head accepts next k pushed).out
    unfolding forward emit
    forward-Applies k (none, held) a = h k held
    forward-Applies k (some b, held) a = elim (Bool-cases (accepts k)) [
      | inl e ↦ rw e (AppliesFollow-cons b (next (suc k) held).out a (h (suc k) held))
      | inr e ↦ rw e tt
    ]

    round-Applies :
        (k : ℕ) (converted pending : Batch TipSet)
        → AppliesFollow (round chain head accepts next k converted pending).out
    unfolding round
    round-Applies k [] pending = h k pending
    round-Applies k (hc ∷ converted) pending =
        forward-Applies k (push pending (hc ∷ converted)) (push-Applies pending hc converted)

  close-Applies : (k : ℕ) (p : Batch TipSet) → AppliesFollow (close chain head accepts k p).out
  unfolding close flush emit
  close-Applies k [] = tt
  close-Applies k (hc ∷ held) = elim (Bool-cases (accepts k)) [ inl e ↦ rw e tt | inr e ↦ rw e tt ]

  -- Of the batches that are sent, every one but the last has an event that is no revert, whatever
  -- the source delivers: a batch of reverts alone can only be the last one.
  pub notify-AppliesFollow :
      (n k : ℕ) (pending : Batch TipSet) (src : List (List (SourceEvent chain head accepts)))
      → AppliesFollow (notify chain head accepts n k pending src).out
  unfolding notify
  notify-AppliesFollow n k pending [] = close-Applies k pending
  notify-AppliesFollow n k pending (batch ∷ src) =
      let (converted, n') = convert_batch chain head accepts n batch in
      round-Applies (λ k' held. notify chain head accepts n' k' held src)
        (λ k' held. notify-AppliesFollow n' k' held src) k converted pending
