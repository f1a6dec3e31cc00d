-- ===== src/Reorg.antt =====
-- internal/nodeapi/chainsched_adapter.go: the bridge from the embedded node's head-change batches to
-- the chain scheduler, with the coalescer that joins a revert-only batch to the next batch.
--
-- The node's and the scheduler's block types, their CBOR codecs and `NewTipSet` belong to other
-- modules, so they are the parameter `Chain`. `ChainHead` is a remote call: `head n` is what the
-- n-th call in the run answers. A send on the channel races with the cancelled context: `accepts n`
-- says whether the n-th send got through.
pub mod Coalescer
pub mod Convert
pub mod Notify
pub mod Order
pub mod Applies
mod Tests
