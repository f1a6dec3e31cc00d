-- ===== src/Reorg/Notify.antt =====
-- The goroutine of `ChainNotify`.
use Prim.Native.String.{String}
use text.Mathlib.Text.{◌==◌ as str_eq}
use curio_core.Base.{ℕ, suc, Bool, true, false, Option, none, some, List, [], ◌∷◌, if◌then◌else◌}
use curio_core.Reorg.Coalescer.{HeadChange, Batch, push, flush}
use curio_core.Reorg.Convert.{Chain, convert_lantern_tipset}

-- what leaves the goroutine: the batches sent, and whether it ended on a cancelled context
pub record Sent (T : Type 0) : Type 0 where
  pub out : List (Batch T)
  pub cancelled : Bool

module _ (chain : Chain) (head : ℕ → Option chain.TipSet) (accepts : ℕ → Bool) where
  open chain use {LanternBlock, TipSet}

  abbrev pub SourceEvent : Type 0
  SourceEvent = HeadChange (List LanternBlock)

  -- the substitute for a `current` event with no tipset: the answer of the n-th `ChainHead`
  seeded : ℕ → String → Option (Option TipSet) × ℕ
  seeded n type =
      if str_eq type "current"
      then (elim (head n) [ none ↦ none | some ts ↦ some (some ts) ], suc n)
      else (some none, n)

  -- what one event carries after the conversion, `none` when it is dropped, and the calls made
  event_value : ℕ → SourceEvent → Option (Option TipSet) × ℕ
  unfolding seeded
  event_value n hc = elim (convert_lantern_tipset chain hc.val) [
    | none ↦ (none, n)
    | some none ↦ seeded n hc.type
    | some (some ts) ↦ (some (some ts), n)
  ]

  -- the loop over one batch
  unfoldable pub convert_batch : ℕ → List SourceEvent → Batch TipSet × ℕ
  unfolding event_value
  convert_batch n [] = ([], n)
  convert_batch n (hc ∷ batch) =
      let (val, n') = event_value n hc in
      let (rest, n'') = convert_batch n' batch in
      elim val [ none ↦ (rest, n'') | some v ↦ (record { type = hc.type; val = v } ∷ rest, n'') ]

  -- one send is taken, or the goroutine ends
  unfoldable pub emit : ℕ → Batch TipSet → Sent TipSet → Sent TipSet
  emit k batch rest =
      if accepts k
      then record { out = batch ∷ rest.out; cancelled = rest.cancelled }
      else record { out = []; cancelled = true }

  -- the source is closed: what is held is flushed
  unfoldable pub close : ℕ → Batch TipSet → Sent TipSet
  close k pending = elim (flush pending).0 [
    | none ↦ record { out = []; cancelled = false }
    | some batch ↦ emit k batch (record { out = []; cancelled = false })
  ]

  -- what `push` gave back: nothing to send, or a batch. `next` is the rest of the loop.
  unfoldable pub forward :
      (ℕ → Batch TipSet → Sent TipSet) → ℕ → Option (Batch TipSet) × Batch TipSet → Sent TipSet
  forward next k (none, held) = next k held
  forward next k (some merged, held) = emit k merged (next (suc k) held)

  -- One converted batch: an empty one is skipped, the others go through the coalescer.
  unfoldable pub round :
      (ℕ → Batch TipSet → Sent TipSet) → ℕ → Batch TipSet → Batch TipSet → Sent TipSet
  round next k [] pending = next k pending
  round next k (hc ∷ converted) pending = forward next k (push pending (hc ∷ converted))

  -- `for batch := range src`, after `n` calls of `ChainHead` and `k` sends
  unfoldable pub notify : ℕ → ℕ → Batch TipSet → List (List SourceEvent) → Sent TipSet
  unfolding round forward close emit
  notify n k pending [] = close k pending
  notify n k pending (batch ∷ src) =
      let (converted, n') = convert_batch n batch in
      round (λ k' held. notify n' k' held src) k converted pending
