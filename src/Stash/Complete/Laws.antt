-- ===== src/Stash/Complete/Laws.antt =====
-- What one run of the completion task does to the pieces, whatever fails.
use curio_core.Base.{
  ℕ, Bool, true, false, Option, List, [], ◌∷◌, map, keep, Bytes, Member, head, tail, All, All-take,
  All-append, All-map, All-keep, Bool-cases, Option-cases, inl, inr, ◌⊎◌, ◌≡◌, refl,
}
use curio_core.Env.{Env, World}
use curio_core.Sql.Order.{All-order_by}
use curio_core.Stash.Custore.{Url, Resolved, ok, err, stash_path_from_custore_url}
use curio_core.Stash.Files.{Files, stat, status_of, lookup}
use curio_core.Stash.Park.{Piece, Ref, Park, Candidate, is_custore_ref}
use curio_core.Stash.Complete.{
  batch_size, candidate_of, is_open, join_refs, candidates, Run, flip_and_count, mark, ticked_run,
  is_present, check_and_mark, visit,
}

-- a row that the statement selects, and where it comes from
abbrev pub FromRows : Park → Candidate → Type 0
FromRows park c =
    (p : Piece) × Member p park.pieces
    × (is_open p ≡ true)
    × (p.id ≡ c.piece_id)
    × ((r : Ref) × Member r park.refs × (is_custore_ref p.id r ≡ true) × (r.data_url ≡ c.data_url))

module _ (pieces : List Piece) (refs : List Ref) (files : Files) where
  abbrev From : Candidate → Type 0
  From = FromRows (record { pieces = pieces; refs = refs; files = files })

  rows_of_piece :
      (p : Piece)
      → Member p pieces
      → is_open p ≡ true
      → All From (map (candidate_of p.id) (keep (is_custore_ref p.id) refs))
  rows_of_piece p m o = All-map From (candidate_of p.id) (keep (is_custore_ref p.id) refs) (
      All-keep (λ r. From (candidate_of p.id r)) (is_custore_ref p.id) refs
        (λ r mr e. (p, m, o, refl, (r, mr, e, refl))))

  join_refs-FromRows :
      (ps : List Piece)
      → ((p : Piece) → Member p ps → Member p pieces)
      → All From (join_refs ps refs)
  unfolding join_refs
  join_refs-FromRows [] up = tt
  join_refs-FromRows (p ∷ ps) up =
      let rest = join_refs-FromRows ps (λ q m. up q (tail m)) in
      elim (Bool-cases (is_open p)) [
        | inl e ↦ rw e (All-append From _ _ (rows_of_piece p (up p head) e) rest)
        | inr e ↦ rw e rest
      ]

pub candidates-FromRows : (park : Park) → All (FromRows park) (candidates park)
unfolding candidates
candidates-FromRows park = All-take (FromRows park) batch_size _ (
    All-order_by (λ c. c.piece_id) (FromRows park) _
      (join_refs-FromRows park.pieces park.refs park.files park.pieces (λ p m. m)))

module _ (parse : Bytes → Option Url) (cwd : Option Bytes) (stash_dir : Bytes) where
  abbrev pub path_of : Bytes → Resolved
  path_of url = stash_path_from_custore_url parse cwd url stash_dir

  abbrev pub ready_path : Files → Resolved → Bool
  ready_path files (err e) = false
  ready_path files (ok path) = is_present (status_of (lookup path files))

  -- the URL leads to a file of the stash
  abbrev pub is_ready : Files → Bytes → Bool
  is_ready files url = ready_path files (path_of url)

module _ (parse : Bytes → Option Url) (cwd : Option Bytes) (stash_dir : Bytes) (env : Env) where
  mark-park :
      (id : ℕ) (w : World Run)
      → ((mark env id w).1.store ≡ w.store) ⊎ ((mark env id w).1.store ≡ flip_and_count id w.store)
  mark-park id w = elim (Bool-cases (env.fault w.calls)) [
    | inl e ↦ rw e (inl refl)
    | inr e ↦ rw e (inr refl)
  ]

  check_and_mark-park :
      (id : ℕ) (r : Resolved) (w : World Run)
      → ((check_and_mark parse cwd stash_dir env id r w).1.store ≡ w.store)
        ⊎ (((check_and_mark parse cwd stash_dir env id r w).1.store ≡ flip_and_count id w.store)
            × (ready_path parse cwd stash_dir w.store.park.files r ≡ true))
  unfolding stat
  check_and_mark-park id (err e) w = inl refl
  check_and_mark-park id (ok path) w = elim (Bool-cases (env.fault w.calls)) [
    | inl f ↦ rw f (inl refl)
    | inr f ↦ elim (Option-cases (lookup path w.store.park.files)) [
      | inl l ↦ rw (f, l) (inl refl)
      | inr (file, l) ↦
          rw (f, l) (elim (mark-park id (ticked_run w)) [ inl e ↦ inl e | inr e ↦ inr (e, refl) ])
    ]
  ]

  -- a round leaves everything as it is, or marks the piece of a URL that leads to a file
  pub visit-park :
      (c : Candidate) (w : World Run)
      → ((visit parse cwd stash_dir env c w).1.store ≡ w.store)
        ⊎ (((visit parse cwd stash_dir env c w).1.store ≡ flip_and_count c.piece_id w.store)
            × (is_ready parse cwd stash_dir w.store.park.files c.data_url ≡ true))
  unfolding visit
  visit-park c w = elim (Bool-cases (env.owned w.calls)) [
    | inl e ↦
        rw e
          (check_and_mark-park c.piece_id (path_of parse cwd stash_dir c.data_url) (ticked_run w))
    | inr e ↦ rw e (inl refl)
  ]
