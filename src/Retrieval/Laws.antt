-- ===== src/Retrieval/Laws.antt =====
-- internal/retrieval/retrieval.go: what is served.
use curio_core.Env.{ticked}
use curio_core.Stash.Custore.{ok, stash_path_from_custore_url}
use curio_core.Stash.Path.{FilePath}
use curio_core.Sql.Order.{All-order_by}
use curio_core.Stash.Reader.Laws.{read_piece-file, FromTables}
use curio_core.Stash.Reader.{Found}
use curio_core.Stash.Files.{lookup, File}
use curio_core.Retrieval.{
  Response, get_cid, lowest, opened, refused, serve, read_piece, ReadResult, is_of, served,
  get_found, order_by, World, Park, lookup_piece, Env, Url, Piece, handle_get_piece,
}
use curio_core.Base.{
  ◌∙◌, bytes_eq, Bool-cases, trim_space, bytes_eq_iff, All-keep, take, keep, subst, ◌∷◌, ◌≡◌,
  Member, All, Bytes, Option, List, ℕ, arith, ap, sym, inr, inl, false, true, some, none, refl, [],
}

lowest-All :
    (P : Piece → Type 0) (ps : List Piece) (p : Piece) → All P ps → lowest ps ≡ some p → P p
lowest-All P [] p h e = absurd (ground (arith, e))
lowest-All P (q ∷ ps) p h e = let same : q ≡ p = ground (arith, e) in subst P same h.0

module _ (parse : Bytes → Option Url) (decode : Bytes → Option ℕ) (show : ℕ → Bytes)
    (cwd : Option Bytes) (stash_dir : Bytes) where
  abbrev Of : Bytes → Park → Piece → Type 0
  Of cid park p = Member p park.pieces × (p.piece_cid ≡ cid) × (p.complete ≡ true)

  lookup_piece-Of :
      (cid : Bytes) (park : Park) (p : Piece) → lookup_piece cid park ≡ some p → Of cid park p
  unfolding lookup_piece
  lookup_piece-Of cid park p e =
      lowest-All (Of cid park) (order_by (λ q. q.id) (keep (is_of cid) park.pieces)) p
        (All-order_by (λ q. q.id) (Of cid park) (keep (is_of cid) park.pieces)
          (All-keep (Of cid park) (is_of cid) park.pieces (λ q m t.
            (m, (bytes_eq_iff q.piece_cid cid).0 (ground (arith, t)), ground (arith, t)))))
        e

  -- the bytes are those of a stash file that a ref of the piece names, up to the size of the piece
  abbrev pub IsServed : ℕ → Bytes → Park → Type 0
  IsServed pc bytes park =
      (p : Piece) × Member p park.pieces
      × (p.piece_cid ≡ show pc)
      × (p.complete ≡ true)
      × ((file : File) × (bytes ≡ take p.piece_raw_size file.content)
          × ((f : Found) × FromTables p.id park f
              × ((path : FilePath) × (stash_path_from_custore_url parse cwd f.data_url stash_dir
                    ≡ ok path)
                  × (lookup path park.files ≡ some file))))

  get_found-IsServed :
      (env : Env) (pc : ℕ) (o : Option Piece) (w : World Park) (tag bytes : Bytes)
      → lookup_piece (show pc) w.store ≡ o
      → (get_found parse decode show cwd stash_dir env pc o w).0 ≡ served tag bytes
      → (tag ≡ show pc) × IsServed pc bytes w.store
  get_found-IsServed env pc none w tag bytes k e = absurd (ground (arith, e))
  get_found-IsServed env pc (some p) w tag bytes k e =
      served_by (read_piece parse decode cwd stash_dir env p.id p.piece_raw_size (some pc) w) refl e
    where
      served_by :
          (r : ReadResult × World Park)
          → read_piece parse decode cwd stash_dir env p.id p.piece_raw_size (some pc) w ≡ r
          → (serve parse decode show cwd stash_dir p.piece_raw_size (show pc) r).0
            ≡ served tag bytes
          → (tag ≡ show pc) × IsServed pc bytes w.store
      served_by (refused x, v) q h = absurd (ground (arith, h))
      served_by (opened file, v) q h =
          let of_cid = lookup_piece-Of (show pc) w.store p k in
          let (f, from, fits, behind) =
            read_piece-file parse decode cwd stash_dir env p.id p.piece_raw_size (some pc) w file
              (ap (λ r. r.0) q) in
          (
            ground (arith, h),
            (p, of_cid.0, of_cid.1, of_cid.2, (file, ground (arith, h), (f, from, behind))),
          )

  get_cid_ok :
      (env : Env) (pc : ℕ) (w : World Park)
      → env.fault w.calls ≡ false
      → get_cid parse decode show cwd stash_dir env (some pc) w
        ≡ get_found parse decode show cwd stash_dir env pc
            (lookup_piece (show pc) w.store)
            (ticked w)
  get_cid_ok env pc w f = rw f refl

  -- Whatever fails, what is served for a path are the bytes, up to the size of the piece, of a file of
  -- the stash which the URL of a ref names, the ref being that of a complete piece whose CID is the one
  -- of the path; that CID is the entity tag.
  pub handle_get_piece-IsServed :
      (env : Env) (param : Bytes) (w : World Park) (tag bytes : Bytes)
      → (handle_get_piece parse decode show cwd stash_dir env param w).0 ≡ served tag bytes
      → (pc : ℕ) × (decode (trim_space param) ≡ some pc)
        × (tag ≡ show pc)
        × IsServed pc bytes w.store
  unfolding handle_get_piece
  handle_get_piece-IsServed env param w tag bytes e =
      elim (Bool-cases (bytes_eq (trim_space param) [])) [
        | inl k ↦ absurd (ground (arith, k, e))
        | inr k ↦ decoded (decode (trim_space param)) refl (sym (rw k refl) ∙ e)
      ]
    where
      decoded :
          (o : Option ℕ)
          → decode (trim_space param) ≡ o
          → (get_cid parse decode show cwd stash_dir env o w).0 ≡ served tag bytes
          → (pc : ℕ) × (decode (trim_space param) ≡ some pc)
            × (tag ≡ show pc)
            × IsServed pc bytes w.store
      decoded none q h = absurd (ground (arith, h))
      decoded (some pc) q h = elim (Bool-cases (env.fault w.calls)) [
        | inl f ↦ absurd (ground (arith, f, h))
        | inr f ↦
            let (tagged, from) =
              get_found-IsServed env pc (lookup_piece (show pc) w.store) (ticked w) tag bytes refl
                (sym (ap (λ (r : Response × World Park). r.0) (get_cid_ok env pc w f)) ∙ h) in
            (pc, q, tagged, from)
      ]
