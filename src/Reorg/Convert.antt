-- ===== src/Reorg/Convert.antt =====
-- `convertLanternTipSet`: each block header goes through CBOR from one type to the other.
use curio_core.Base.{Option, none, some, List, [], ◌∷◌, Bytes}

-- the types and calls of the node, the scheduler's API and their CBOR codecs
pub record Chain : Type 1 where
  pub LanternBlock : Type 0
  pub BlockHeader : Type 0
  pub TipSet : Type 0
  pub marshal_cbor : LanternBlock → Option Bytes
  pub unmarshal_cbor : Bytes → Option BlockHeader
  pub new_tipset : List BlockHeader → Option TipSet

module _ (chain : Chain) where
  open chain use {LanternBlock, BlockHeader, TipSet, marshal_cbor, unmarshal_cbor, new_tipset}

  infixl 5 ◌>>=◌
  abbrev ◌>>=◌ : {A B : Type 0} → Option A → (A → Option B) → Option B
  none >>= f = none
  some a >>= f = f a

  -- the loop over the source blocks; `none` is an error
  unfoldable pub convert_blocks : List LanternBlock → Option (List BlockHeader)
  convert_blocks [] = some []
  convert_blocks (src ∷ blocks) = do
    buf ← marshal_cbor src
    dst ← unmarshal_cbor buf
    rest ← convert_blocks blocks
    some (dst ∷ rest)

  -- The outer `none` is an error; the inner one is the nil tipset. A source tipset is its blocks.
  unfoldable pub convert_lantern_tipset : Option (List LanternBlock) → Option (Option TipSet)
  convert_lantern_tipset none = some none
  convert_lantern_tipset (some []) = some none
  convert_lantern_tipset (some (b ∷ blocks)) = do
    dst_blocks ← convert_blocks (b ∷ blocks)
    ts ← new_tipset dst_blocks
    some (some ts)
