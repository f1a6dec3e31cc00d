-- ===== src/Index/Laws.antt =====
-- A layer is added as a whole or not at all, and read back as it was added.
use curio_core.Sql.Order.{order_by-IsSorted, IsSorted}
use curio_core.Sql.{order_by, delete}
use curio_core.Index.Leaves.{put_leaf-leaf_at, last_leaf, leaf_at}
use curio_core.Index.Layers.{
  in_layer, put_leaf, digests, verdict_of, node, is_leaf, insert_leaf, LayerRow, get_pdp_node,
  LayerRows, remove_indexes, insert_layer, add_pdp_layer, NodeDigest, get_pdp_layer,
}
use curio_core.Base.{
  keep, ◌==◌, Option-cases, bytes_eq_iff, ◌∙◌, ◌⊎◌, ◌∷◌, Bool-cases, bytes_eq, if◌then◌else◌,
  length, ◌≡◌, OnSome, find, Bytes, List, suc, arith, ap, inr, inl, false, true, some, none, refl,
  [], ℕ,
}
use curio_core.Env.{
  for_each_go, for_each_return, ticked, for_each_nil, fail, commit, for_each, World,
  begin_transaction, Env,
}

module _ (env : Env) (q : Bytes) where
  loop-leaf_at :
      (ds : List NodeDigest) (w : World LayerRows)
      → (((for_each (insert_leaf env q) ds w).0 ≡ none)
          × ((piece : Bytes) (layer index : ℕ)
              → leaf_at piece layer index (for_each (insert_leaf env q) ds w).1.store
                ≡ last_leaf q ds piece layer index (leaf_at piece layer index w.store)))
        ⊎ ((for_each (insert_leaf env q) ds w).0 ≡ some fail)
  loop-leaf_at [] w = rw for_each_nil (inl (refl, λ piece layer index. refl))
  loop-leaf_at (d ∷ ds) w = elim (Bool-cases (env.fault w.calls)) [
    | inl f ↦ rw (for_each_return (insert_leaf env q) d ds w fail (rw f refl)) (inr refl)
    | inr f ↦
        let w' : World LayerRows = record { store = put_leaf q d w.store; calls = suc w.calls } in
        let next : for_each (insert_leaf env q) (d ∷ ds) w ≡ for_each (insert_leaf env q) ds w' =
          for_each_go (insert_leaf env q) d ds w (rw f refl) ∙ rw f refl in
        rw next (elim (loop-leaf_at ds w') [
          | inr e ↦ inr e
          | inl (e, leaf) ↦ inl (
            e,
            λ piece layer index.
                leaf piece layer index
                ∙ ap (last_leaf q ds piece layer index)
                    (put_leaf-leaf_at q d piece layer index w.store),
          )
        ])
  ]

  whole_layer :
      (ds : List NodeDigest) (w : World LayerRows)
      → (for_each (insert_leaf env q) ds w).0 ≡ none
      → insert_layer env q ds w ≡ (commit, (for_each (insert_leaf env q) ds w).1)
  unfolding insert_layer
  whole_layer ds w e = ap (λ o. verdict_of (o, (for_each (insert_leaf env q) ds w).1)) e

  failed_layer :
      (ds : List NodeDigest) (w : World LayerRows)
      → (for_each (insert_leaf env q) ds w).0 ≡ some fail
      → insert_layer env q ds w ≡ (fail, (for_each (insert_leaf env q) ds w).1)
  unfolding insert_layer
  failed_layer ds w e = ap (λ o. verdict_of (o, (for_each (insert_leaf env q) ds w).1)) e

  -- `AddPDPLayer` returns no error and each leaf of the table is the last digest of the layer for its
  -- place, or else what it was; or it returns an error and the table is as it was. This holds
  -- whatever fails.
  pub add_pdp_layer-leaf_at :
      (ds : List NodeDigest) (w : World LayerRows)
      → (((add_pdp_layer env q ds w).0 ≡ true)
          × ((piece : Bytes) (layer index : ℕ)
              → leaf_at piece layer index (add_pdp_layer env q ds w).1.store
                ≡ last_leaf q ds piece layer index (leaf_at piece layer index w.store)))
        ⊎ (((add_pdp_layer env q ds w).0 ≡ false) × ((add_pdp_layer env q ds w).1.store ≡ w.store))
  unfolding add_pdp_layer begin_transaction
  add_pdp_layer-leaf_at [] w = inr (refl, refl)
  add_pdp_layer-leaf_at (d ∷ ds) w = elim (Bool-cases (env.fault w.calls)) [
    | inl f ↦ rw f (inr (refl, refl))
    | inr f ↦ elim (loop-leaf_at (d ∷ ds) (ticked w)) [
      | inr e ↦ rw (f, failed_layer (d ∷ ds) (ticked w) e) (inr (refl, refl))
      | inl (e, leaf) ↦
          elim (Bool-cases (env.fault (for_each (insert_leaf env q) (d ∷ ds) (ticked w)).1.calls)) [
            | inl g ↦ rw (f, whole_layer (d ∷ ds) (ticked w) e, g) (inr (refl, refl))
            | inr g ↦ rw (f, whole_layer (d ∷ ds) (ticked w) e, g) (inl (refl, leaf))
          ]
    ]
  ]

-- `GetPDPLayer` returns its leaves in ascending order of their index.
pub get_pdp_layer-IsSorted :
    (env : Env) (piece : Bytes) (layer : ℕ) (w : World LayerRows)
    → OnSome (IsSorted (λ d. d.index)) (get_pdp_layer env piece layer w).0
unfolding get_pdp_layer
get_pdp_layer-IsSorted env piece layer w = elim (Bool-cases (env.fault w.calls)) [
  | inl f ↦ rw f tt
  | inr f ↦
      elim (Option-cases
        (digests layer (order_by (λ r. r.leaf_index) (keep (in_layer piece layer) w.store)))) [
          | inl e ↦ rw (f, e) tt
          | inr (ds, e) ↦ rw (f, e) (order_by-IsSorted (λ d. d.index) ds)
        ]
]

find-delete :
    (q piece : Bytes) (layer index : ℕ) (rows : LayerRows)
    → leaf_at piece layer index (delete (λ r. bytes_eq r.piece_cid q) rows)
      ≡ (if bytes_eq q piece then none else leaf_at piece layer index rows)
find-delete q piece layer index [] = ground arith
find-delete q piece layer index (r ∷ rows) = ground (
  arith,
  find-delete q piece layer index rows,
  bytes_eq_iff q piece,
  bytes_eq_iff r.piece_cid q,
  bytes_eq_iff r.piece_cid piece,
)

-- `RemoveIndexes`, when its call succeeds, removes all leaves of its piece and no other.
pub remove_indexes-leaf_at :
    (env : Env) (q : Bytes) (w : World LayerRows)
    → env.fault w.calls ≡ false
    → ((remove_indexes env q w).0 ≡ true)
      × ((piece : Bytes) (layer index : ℕ)
          → leaf_at piece layer index (remove_indexes env q w).1.store
            ≡ (if bytes_eq q piece then none else leaf_at piece layer index w.store))
unfolding remove_indexes
remove_indexes-leaf_at env q w f =
    rw f (refl, λ piece layer index. find-delete q piece layer index w.store)

find-index :
    (piece : Bytes) (layer index : ℕ) (rows : LayerRows) (r : LayerRow)
    → find (is_leaf piece layer index) rows ≡ some r
    → r.leaf_index ≡ index
find-index piece layer index [] r h = ground (arith, h)
find-index piece layer index (x ∷ rows) r h = elim (Bool-cases (is_leaf piece layer index x)) [
  | inl e ↦
      let same : x ≡ r = ground (arith, h, e) in ground (arith, e, ap (λ y. y.leaf_index) same)
  | inr e ↦ find-index piece layer index rows r (ground (arith, h, e))
]

-- the leaf of the table, if it is 32 bytes long
get_pdp_node-leaf_at :
    (env : Env) (piece leaf : Bytes) (layer index : ℕ) (w : World LayerRows)
    → env.fault w.calls ≡ false
    → leaf_at piece layer index w.store ≡ some leaf
    → length leaf ≡ 32
    → (get_pdp_node env piece layer index w).0
      ≡ node (record { layer = layer; index = index; hash = leaf })
unfolding get_pdp_node
get_pdp_node-leaf_at env piece leaf layer index w f e l =
    elim (Option-cases (find (is_leaf piece layer index) w.store)) [
      | inl n ↦ ground (arith, e, n)
      | inr (r, n) ↦
          (let place = find-index piece layer index w.store r n in
            let here : r.leaf ≡ leaf = ground (arith, e, n) in
            let long : (length r.leaf == 32) ≡ true = ground (arith, l, ap length here) in
            rw (f, n, long)
              (ap (λ k. node (record { layer = layer; index = k; hash = r.leaf })) place
                ∙ ap (λ h. node (record { layer = layer; index = index; hash = h })) here))
    ]

-- A leaf of 32 bytes that `AddPDPLayer` added without an error, the last of the layer for its place, is
-- what `GetPDPNode` returns next, if its call succeeds.
pub add_then_get :
    (env : Env) (q hash : Bytes) (ds : List NodeDigest) (layer index : ℕ) (w : World LayerRows)
    → (add_pdp_layer env q ds w).0 ≡ true
    → env.fault (add_pdp_layer env q ds w).1.calls ≡ false
    → last_leaf q ds q layer index (leaf_at q layer index w.store) ≡ some hash
    → length hash ≡ 32
    → (get_pdp_node env q layer index (add_pdp_layer env q ds w).1).0
      ≡ node (record { layer = layer; index = index; hash = hash })
add_then_get env q hash ds layer index w added f last l = elim (add_pdp_layer-leaf_at env q ds w) [
  | inr (e, _) ↦ ground (arith, added, e)
  | inl (_, leaf) ↦
      get_pdp_node-leaf_at env q hash layer index (add_pdp_layer env q ds w).1 f
        (leaf q layer index ∙ last) l
]
