-- ===== src/Stash/Reader/Laws.antt =====
-- What `ReadPiece` opens.
use curio_core.Sql.{order_by}
use curio_core.Stash.Files.{lookup}
use curio_core.Env.{ticked}
use curio_core.Stash.Custore.{err, ok, stash_path_from_custore_url}
use curio_core.Stash.Path.{FilePath}
use curio_core.Base.{
  refl, [], tail, ap, ◌∙◌, head, Option-cases, sym, subst, inr, All-keep, inl, Bool-cases, keep,
  ◌∷◌, arith, ◌||◌, some, true, none, false, ◌≡◌, ◌==◌, All, find, Member, List, Option, Bytes, ℕ,
}
use curio_core.Sql.Order.{All-order_by}
use curio_core.Stash.Reader.{
  cid_error, read_found, open_row, with_url, open_path, File, World, first_url, Resolved, find_row,
  row_error, read_piece, Env, Url, Ref, Found, Park, Piece, ReadError, opened,
}

-- a row and where it comes from
abbrev pub FromTables : ℕ → Park → Found → Type 0
FromTables id park f =
    Member f.piece park.pieces
    × (f.piece.id ≡ id)
    × ((r : Ref) × Member r park.refs × (r.piece_id ≡ id) × (r.data_url ≡ f.data_url))

find-Member :
    (id : ℕ) (p : Piece) (ps : List Piece)
    → find (λ q. q.id == id) ps ≡ some p
    → Member p ps × (p.id ≡ id)
find-Member id p [] h = ground (arith, h)
find-Member id p (q ∷ ps) h = elim (Bool-cases (q.id == id)) [
  | inl e ↦
      let same : q ≡ p = ground (arith, h, e) in
      (subst (λ x. Member x (q ∷ ps)) same head, ground (arith, e, ap (λ x. x.id) same))
  | inr e ↦ let rest = find-Member id p ps (ground (arith, h, e)) in (tail rest.0, rest.1)
]

first_url-ref :
    (p : Piece) (f : Found) (rs : List Ref) (P : Ref → Type 0)
    → All P rs
    → first_url p rs ≡ some f
    → (f.piece ≡ p) × ((r : Ref) × P r × (r.data_url ≡ f.data_url))
first_url-ref p f [] P a h = ground (arith, h)
first_url-ref p f (r ∷ rs) P a h = (ground (arith, h), (r, a.0, ground (arith, h)))

with_url-FromTables :
    (id : ℕ) (park : Park) (f : Found) (o : Option Piece)
    → find (λ q. q.id == id) park.pieces ≡ o
    → with_url o park.refs ≡ some f
    → FromTables id park f
with_url-FromTables id park f none e h = ground (arith, h)
with_url-FromTables id park f (some p) e h =
    let (m, same_id) = find-Member id p park.pieces e in
    let of_piece : Ref → Type 0 = λ r. Member r park.refs × (r.piece_id ≡ id) in
    let refs = keep (λ r. r.piece_id == p.id) park.refs in
    let sorted = order_by (λ r. r.ref_id) refs in
    let all : All of_piece sorted =
      All-order_by (λ r. r.ref_id) of_piece refs
        (All-keep of_piece (λ r. r.piece_id == p.id) park.refs
          (λ r mr t. (mr, ground (arith, t, same_id)))) in
    let (same, (r, (mr, ri), u)) = first_url-ref p f sorted of_piece all h in
    (subst (λ q. Member q park.pieces) (sym same) m, ap (λ q. q.id) same ∙ same_id, (r, mr, ri, u))

module _ (parse : Bytes → Option Url) (decode : Bytes → Option ℕ) (cwd : Option Bytes)
    (stash_dir : Bytes) where
  -- the row is that of a complete piece of the requested size and CID
  abbrev pub Matches : ℕ → Option ℕ → Piece → Type 0
  Matches size pc p =
      (p.complete ≡ true)
      × ((size == 0) || (size == p.piece_raw_size) ≡ true)
      × (cid_error parse decode cwd stash_dir pc p.piece_cid ≡ none)

  row_error-Matches :
      (f : Found) (size : ℕ) (pc : Option ℕ)
      → row_error parse decode cwd stash_dir f size pc ≡ none
      → Matches size pc f.piece
  unfolding row_error
  row_error-Matches f size pc h = (ground arith, ground arith, ground (arith, h))

  open_path-file :
      (env : Env) (r : Resolved) (w : World Park) (file : File)
      → (open_path parse decode cwd stash_dir env r w).0 ≡ opened file
      → (path : FilePath) × (r ≡ ok path) × (lookup path w.store.files ≡ some file)
  open_path-file env (err e) w file h = ground (arith, h)
  open_path-file env (ok path) w file h = elim (Bool-cases (env.fault w.calls)) [
    | inl f ↦ ground (arith, h, f)
    | inr f ↦ elim (Option-cases (lookup path w.store.files)) [
      | inl l ↦ ground (arith, h, f, l)
      | inr (g, l) ↦
          (let same : g ≡ file = ground (arith, h, f, l) in (path, refl, l ∙ ap some same))
    ]
  ]

  open_row-file :
      (env : Env) (f : Found) (size : ℕ) (pc : Option ℕ) (o : Option ReadError) (w : World Park)
      (file : File)
      → row_error parse decode cwd stash_dir f size pc ≡ o
      → (open_row parse decode cwd stash_dir env f o w).0 ≡ opened file
      → Matches size pc f.piece
        × ((path : FilePath) × (stash_path_from_custore_url parse cwd f.data_url stash_dir
              ≡ ok path)
            × (lookup path w.store.files ≡ some file))
  open_row-file env f size pc (some e) w file e' h = ground (arith, h)
  open_row-file env f size pc none w file e h =
      (row_error-Matches f size pc e, open_path-file env _ w file h)

  found-file :
      (env : Env) (id size : ℕ) (pc : Option ℕ) (o : Option Found) (w : World Park) (file : File)
      → find_row id w.store ≡ o
      → (read_found parse decode cwd stash_dir env o size pc w).0 ≡ opened file
      → (f : Found) × FromTables id w.store f
        × Matches size pc f.piece
        × ((path : FilePath) × (stash_path_from_custore_url parse cwd f.data_url stash_dir
              ≡ ok path)
            × (lookup path w.store.files ≡ some file))
  unfolding find_row
  found-file env id size pc none w file e h = ground (arith, h)
  found-file env id size pc (some f) w file e h =
      let (m, p) = open_row-file env f size pc _ w file refl h in
      (f, with_url-FromTables id w.store f _ refl e, m, p)

  read_piece_ok :
      (env : Env) (id size : ℕ) (pc : Option ℕ) (w : World Park)
      → env.fault w.calls ≡ false
      → read_piece parse decode cwd stash_dir env id size pc w
        ≡ read_found parse decode cwd stash_dir env (find_row id w.store) size pc (ticked w)
  unfolding read_piece
  read_piece_ok env id size pc w f = rw f

  -- When `ReadPiece` opens a file, the file is the one behind the URL of a ref of that piece, the URL
  -- resolves into the stash directory, and the piece is complete and of the requested size, 0 asking
  -- for none, and of the requested CID, if one is given.
  pub read_piece-file :
      (env : Env) (id size : ℕ) (pc : Option ℕ) (w : World Park) (file : File)
      → (read_piece parse decode cwd stash_dir env id size pc w).0 ≡ opened file
      → (f : Found) × FromTables id w.store f
        × Matches size pc f.piece
        × ((path : FilePath) × (stash_path_from_custore_url parse cwd f.data_url stash_dir
              ≡ ok path)
            × (lookup path w.store.files ≡ some file))
  unfolding read_piece
  read_piece-file env id size pc w file h = elim (Bool-cases (env.fault w.calls)) [
    | inl f ↦ ground (arith, h, f)
    | inr f ↦
        found-file env id size pc _ (ticked w) file refl
          (sym (ap (λ r. r.0) (read_piece_ok env id size pc w f)) ∙ h)
  ]
