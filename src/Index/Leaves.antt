-- ===== src/Index/Leaves.antt =====
-- The leaf at a place of the table, before and after an insert.
use curio_core.Sql.{update}
use curio_core.Index.Layers.{with_leaf, is_leaf, LayerRow, LayerRows, put_leaf, NodeDigest}
use curio_core.Base.{
  subst, bytes_eq_iff, Bool-cases, ◌==◌, if◌then◌else◌, ◌&&◌, ◌∷◌, bytes_eq, ◌++◌, find, any, ◌≡◌,
  Bytes, Bool, Option, List, arith, inr, inl, false, some, none, refl, [], ℕ,
}

abbrev pub leaf_of : Option LayerRow → Option Bytes
leaf_of none = none
leaf_of (some r) = some r.leaf

-- the leaf that the table has there
abbrev pub leaf_at : Bytes → ℕ → ℕ → LayerRows → Option Bytes
leaf_at piece layer index rows = leaf_of (find (is_leaf piece layer index) rows)

abbrev pub is_place : Bytes → NodeDigest → Bytes → ℕ → ℕ → Bool
is_place q d piece layer index = bytes_eq q piece && (d.layer == layer) && (d.index == index)

find-update :
    (q : Bytes) (d : NodeDigest) (piece : Bytes) (layer index : ℕ) (rows : LayerRows)
    → leaf_at piece layer index (update (is_leaf q d.layer d.index) (with_leaf d.hash) rows) ≡ (
        if is_place q d piece layer index && any (is_leaf q d.layer d.index) rows
        then some d.hash
        else leaf_at piece layer index rows)
find-update q d piece layer index [] = ground arith
find-update q d piece layer index (r ∷ rows) = ground (
  arith,
  find-update q d piece layer index rows,
  bytes_eq_iff q piece,
  bytes_eq_iff r.piece_cid q,
  bytes_eq_iff r.piece_cid piece,
)

find-append :
    (r : LayerRow) (piece : Bytes) (layer index : ℕ) (rows : LayerRows)
    → leaf_at piece layer index (rows ++ (r ∷ [])) ≡ (
        if any (is_leaf piece layer index) rows
        then leaf_at piece layer index rows
        else if is_leaf piece layer index r
        then some r.leaf
        else none)
find-append r piece layer index [] = ground arith
find-append r piece layer index (x ∷ rows) = ground (arith, find-append r piece layer index rows)

any-leaf_at :
    (piece : Bytes) (layer index : ℕ) (rows : LayerRows)
    → any (is_leaf piece layer index) rows ≡ false
    → leaf_at piece layer index rows ≡ none
any-leaf_at piece layer index [] h = refl
any-leaf_at piece layer index (r ∷ rows) h = ground (arith, h, any-leaf_at piece layer index rows)

new_leaf :
    (q : Bytes) (d : NodeDigest) (piece : Bytes) (layer index : ℕ) (rows : LayerRows)
    → any (is_leaf q d.layer d.index) rows ≡ false
    → leaf_at piece layer index (
        rows
        ++ (record { piece_cid = q; layer_index = d.layer; leaf_index = d.index; leaf = d.hash }
            ∷ []))
      ≡ (if is_place q d piece layer index then some d.hash else leaf_at piece layer index rows)
new_leaf q d piece layer index rows e =
    let r : LayerRow = record {
      piece_cid = q;
      layer_index = d.layer;
      leaf_index = d.index;
      leaf = d.hash;
    } in
    let found = find-append r piece layer index rows in
    elim (Bool-cases (is_place q d piece layer index)) [
      | inl k ↦
          let same_piece : q ≡ piece = ground (arith, k, bytes_eq_iff q piece) in
          let same_layer : d.layer ≡ layer = ground (arith, k) in
          let same_index : d.index ≡ index = ground (arith, k) in
          let free : any (is_leaf piece layer index) rows ≡ false =
            subst (λ x. any (is_leaf x layer index) rows ≡ false) same_piece
              (subst (λ x. any (is_leaf q x index) rows ≡ false) same_layer
                (subst (λ x. any (is_leaf q d.layer x) rows ≡ false) same_index e)) in
          ground (arith, found, free, k)
      | inr k ↦ elim (Bool-cases (any (is_leaf piece layer index) rows)) [
        | inl a ↦ ground (arith, found, a, k)
        | inr a ↦ ground (arith, found, a, k, any-leaf_at piece layer index rows a)
      ]
    ]

pub put_leaf-leaf_at :
    (q : Bytes) (d : NodeDigest) (piece : Bytes) (layer index : ℕ) (rows : LayerRows)
    → leaf_at piece layer index (put_leaf q d rows)
      ≡ (if is_place q d piece layer index then some d.hash else leaf_at piece layer index rows)
unfolding put_leaf
put_leaf-leaf_at q d piece layer index rows =
    elim (Bool-cases (any (is_leaf q d.layer d.index) rows)) [
      | inl e ↦ rw e (ground (arith, e, find-update q d piece layer index rows))
      | inr e ↦ rw e (new_leaf q d piece layer index rows e)
    ]

-- the last digest of the list for that place, or else the leaf that was there
abbrev pub last_leaf : Bytes → List NodeDigest → Bytes → ℕ → ℕ → Option Bytes → Option Bytes
last_leaf q [] piece layer index old = old
last_leaf q (d ∷ ds) piece layer index old =
    last_leaf q ds piece layer index (if is_place q d piece layer index then some d.hash else old)
