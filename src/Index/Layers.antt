-- ===== src/Index/Layers.antt =====
-- internal/sqliteindex/sqliteindex.go: the table `pdp_cache_layer` and its operations. A piece CID is
-- its bytes.
use curio_core.Sql.{update, delete, order_by}
use curio_core.Base.{
  ◌++◌, ◌==◌, keep, find, any, ◌&&◌, length, bytes_eq, ◌∷◌, if◌then◌else◌, Bytes, Bool, Option,
  List, false, true, some, none, [], ℕ,
}
use curio_core.Env.{
  fail, return, go, exec, for_each, begin_transaction, query, Flow, commit, World, Verdict, Env,
}

pub record LayerRow : Type 0 where
  pub piece_cid : Bytes
  pub layer_index : ℕ
  pub leaf_index : ℕ
  pub leaf : Bytes

-- `NodeDigest`; the hash is an array of 32 bytes
pub record NodeDigest : Type 0 where
  pub layer : ℕ
  pub index : ℕ
  pub hash : Bytes

abbrev pub LayerRows : Type 0
LayerRows = List LayerRow

abbrev pub is_leaf : Bytes → ℕ → ℕ → LayerRow → Bool
is_leaf piece layer index r =
    bytes_eq r.piece_cid piece && (r.layer_index == layer) && (r.leaf_index == index)

abbrev pub with_leaf : Bytes → LayerRow → LayerRow
with_leaf hash r = record r { leaf = hash }

-- `INSERT … ON CONFLICT … DO UPDATE SET leaf = excluded.leaf`
unfoldable pub put_leaf : Bytes → NodeDigest → LayerRows → LayerRows
put_leaf piece d rows =
    if any (is_leaf piece d.layer d.index) rows
    then update (is_leaf piece d.layer d.index) (with_leaf d.hash) rows
    else rows
      ++ (record { piece_cid = piece; layer_index = d.layer; leaf_index = d.index; leaf = d.hash }
          ∷ [])

-- one round of the loop; an error ends it
abbrev pub insert_leaf : Env → Bytes → NodeDigest → World LayerRows → Flow Verdict × World LayerRows
insert_leaf env piece d w =
    let (done, w') = exec env (put_leaf piece d) w in if done then (go, w') else (return fail, w')

abbrev pub verdict_of : Option Verdict × World LayerRows → Verdict × World LayerRows
verdict_of (none, w) = (commit, w)
verdict_of (some v, w) = (v, w)

unfoldable pub insert_layer :
    Env → Bytes → List NodeDigest → World LayerRows → Verdict × World LayerRows
insert_layer env piece layer w = verdict_of (for_each (insert_leaf env piece) layer w)

abbrev pub no_error : Option Bool × World LayerRows → Bool × World LayerRows
no_error (none, w) = (false, w)
no_error (some b, w) = (true, w)

-- `AddPDPLayer`; true when there is no error
unfoldable pub add_pdp_layer :
    Env → Bytes → List NodeDigest → World LayerRows → Bool × World LayerRows
add_pdp_layer env piece [] w = (false, w)
add_pdp_layer env piece (d ∷ ds) w =
    no_error (begin_transaction env (insert_layer env piece (d ∷ ds)) w)

abbrev pub layer_of : Option LayerRow → Option ℕ
layer_of none = none
layer_of (some r) = some r.layer_index

-- `GetPDPLayerIndex`: the layer of some row of the piece, here the first, if there is one
unfoldable pub get_pdp_layer_index :
    Env → Bytes → World LayerRows → Option (Option ℕ) × World LayerRows
get_pdp_layer_index env piece w =
    query env (λ rows. layer_of (find (λ r. bytes_eq r.piece_cid piece) rows)) w

abbrev pub in_layer : Bytes → ℕ → LayerRow → Bool
in_layer piece layer r = bytes_eq r.piece_cid piece && (r.layer_index == layer)

abbrev pub digest_of : ℕ → LayerRow → NodeDigest
digest_of layer r = record { layer = layer; index = r.leaf_index; hash = r.leaf }

abbrev pub cons_digest : NodeDigest → Option (List NodeDigest) → Option (List NodeDigest)
cons_digest d none = none
cons_digest d (some ds) = some (d ∷ ds)

-- a leaf that is not 32 bytes long is an error
unfoldable pub digests : ℕ → LayerRows → Option (List NodeDigest)
digests layer [] = some []
digests layer (r ∷ rows) =
    let rest = digests layer rows in
    if length r.leaf == 32 then cons_digest (digest_of layer r) rest else none

-- `sort.Slice` of what the query already ordered
abbrev pub sorted_digests : Option (List NodeDigest) → Option (List NodeDigest)
sorted_digests none = none
sorted_digests (some ds) = some (order_by (λ d. d.index) ds)

abbrev pub or_error : {A : Type 0} → Option (Option A) → Option A
or_error none = none
or_error (some o) = o

-- `GetPDPLayer`
unfoldable pub get_pdp_layer :
    Env → Bytes → ℕ → World LayerRows → Option (List NodeDigest) × World LayerRows
get_pdp_layer env piece layer w =
    let (ds, w') =
      query env
        (λ rows.
          sorted_digests
            (digests layer (order_by (λ r. r.leaf_index) (keep (in_layer piece layer) rows))))
        w in
    (or_error ds, w')

-- the answer of `GetPDPNode`: an error, no such leaf, or the leaf
pub data Node : Type 0 where
  node_error absent : Node
  node : NodeDigest → Node

abbrev pub node_of : ℕ → Option (Option LayerRow) → Node
node_of layer none = node_error
node_of layer (some none) = absent
node_of layer (some (some r)) = if length r.leaf == 32 then node (digest_of layer r) else node_error

-- `GetPDPNode`
unfoldable pub get_pdp_node : Env → Bytes → ℕ → ℕ → World LayerRows → Node × World LayerRows
get_pdp_node env piece layer index w =
    let (r, w') = query env (find (is_leaf piece layer index)) w in (node_of layer r, w')

-- `RemoveIndexes`; true when there is no error
unfoldable pub remove_indexes : Env → Bytes → World LayerRows → Bool × World LayerRows
remove_indexes env piece w = exec env (delete (λ r. bytes_eq r.piece_cid piece)) w
