-- ===== src/Reorg/Coalescer.antt =====
-- `revertCoalescer`: a revert-only batch is held and put in front of the next batch.
use Prim.Native.String.{String}
use text.Mathlib.Text.{◌==◌ as str_eq}
use curio_core.Base.{Bool, true, false, Option, none, some, List, [], ◌∷◌, ◌++◌, if◌then◌else◌}

-- `lotusapi.HeadChange`; `val` is a pointer that may be nil
pub record HeadChange (T : Type 0) : Type 0 where
  pub type : String
  pub val : Option T

abbrev pub Batch : Type 0 → Type 0
Batch T = List (HeadChange T)

module _ {T : Type 0} where
  -- the loop of `batchIsRevertOnly`
  unfoldable pub all_reverts : Batch T → Bool
  all_reverts [] = true
  all_reverts (hc ∷ batch) =
      let rest = all_reverts batch in if str_eq hc.type "revert" then rest else false

  unfoldable pub batch_is_revert_only : Batch T → Bool
  unfolding all_reverts
  batch_is_revert_only [] = false
  batch_is_revert_only (hc ∷ batch) = all_reverts (hc ∷ batch)

  -- a non-empty list of held events goes in front; `pending` is cleared
  merge : Batch T → Batch T → Option (Batch T) × Batch T
  merge [] batch = (some batch, [])
  merge (hc ∷ held) batch = (some ((hc ∷ held) ++ batch), [])

  -- `push`, on the field `pending`: the batch to emit, and the events still held
  unfoldable pub push : Batch T → Batch T → Option (Batch T) × Batch T
  unfolding merge
  push pending batch =
      if batch_is_revert_only batch then (none, pending ++ batch) else merge pending batch

  -- `flush`
  unfoldable pub flush : Batch T → Option (Batch T) × Batch T
  flush [] = (none, [])
  flush (hc ∷ held) = (some (hc ∷ held), [])
