-- ===== src/Index/Tests.antt =====
-- A layer of two leaves, and the theorems of the index at it.
use curio_core.Index.Leaves.{last_leaf, leaf_at}
use curio_core.Index.Laws.{add_pdp_layer-leaf_at, add_pdp_layer-leaf_at}
use curio_core.Index.Layers.{LayerRows, add_pdp_layer, NodeDigest}
use curio_core.Base.{◌⊎◌, ◌≡◌, codes, ◌∷◌, replicate, Bytes, List, false, true, none, [], ℕ}
use curio_core.Env.{World, Env}

abbrev calm : Env
calm = record { fault = λ n. false; owned = λ n. true; time = λ n. n }

abbrev leaf : ℕ → NodeDigest
leaf i = record { layer = 2; index = i; hash = replicate 32 i }

abbrev layer : List NodeDigest
layer = leaf 1 ∷ leaf 0 ∷ []

abbrev empty : World LayerRows
empty = record { store = []; calls = 0 }

add_pdp_layer-leaf_at_example :
    (((add_pdp_layer calm (codes "p") layer empty).0 ≡ true)
      × ((piece : Bytes) (l i : ℕ)
          → leaf_at piece l i (add_pdp_layer calm (codes "p") layer empty).1.store
            ≡ last_leaf (codes "p") layer piece l i none))
    ⊎ (((add_pdp_layer calm (codes "p") layer empty).0 ≡ false)
        × ((add_pdp_layer calm (codes "p") layer empty).1.store ≡ []))
add_pdp_layer-leaf_at_example = add_pdp_layer-leaf_at calm (codes "p") layer empty
