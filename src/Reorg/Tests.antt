-- ===== src/Reorg/Tests.antt =====
-- A micro-reorg run through the bridge, and the theorems at that input.
use curio_core.Base.{ℕ, Bool, true, false, Option, none, some, List, [], ◌∷◌, ◌≡◌, refl}
use curio_core.Reorg.Coalescer.{HeadChange, Batch, batch_is_revert_only, push, flush}
use curio_core.Reorg.Convert.{Chain, convert_blocks, convert_lantern_tipset}
use curio_core.Reorg.Notify.{SourceEvent, convert_batch, notify}
use curio_core.Reorg.Order.{InOrder, converted_events, notify-InOrder}

abbrev one_block : List ℕ → Option ℕ
one_block [] = none
one_block (b ∷ bs) = some b

-- blocks are numbers, and a tipset is its first block
abbrev numbers : Chain
numbers = record {
  LanternBlock = ℕ;
  BlockHeader = ℕ;
  TipSet = ℕ;
  marshal_cbor = λ b. some (b ∷ []);
  unmarshal_cbor = one_block;
  new_tipset = one_block;
}

abbrev head : ℕ → Option ℕ
head n = some 7

abbrev accepts : ℕ → Bool
accepts k = true

abbrev event : Option (List ℕ) → HeadChange (List ℕ)
event v = record { type = "apply"; val = v }

-- no head yet, then a revert alone, then the apply that follows it
abbrev micro_reorg : List (List (SourceEvent numbers head accepts))
micro_reorg =
    (record { type = "current"; val = none } ∷ [])
    ∷ (record { type = "revert"; val = some (9 ∷ []) } ∷ [])
    ∷ (event (some (8 ∷ [])) ∷ [])
    ∷ []

abbrev received : List (Batch ℕ)
received =
    (record { type = "current"; val = some 7 } ∷ [])
    ∷ (record { type = "revert"; val = some 9 } ∷ record { type = "apply"; val = some 8 } ∷ [])
    ∷ []

micro_reorg_runs :
    notify numbers head accepts 0 0 [] micro_reorg ≡ record { out = received; cancelled = false }
unfolding notify convert_batch convert_lantern_tipset convert_blocks push batch_is_revert_only flush
micro_reorg_runs = refl

notify-InOrder_example :
    InOrder
      (notify numbers head accepts 0 0 [] micro_reorg)
      (converted_events numbers head accepts 0 micro_reorg)
notify-InOrder_example = notify-InOrder numbers head accepts 0 0 [] micro_reorg
