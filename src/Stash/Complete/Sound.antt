-- ===== src/Stash/Complete/Sound.antt =====
-- The completion task marks only what it may mark.
use curio_core.Base.{
  ℕ, suc, true, false, Option, none, some, List, if◌then◌else◌, All, Bool-cases, inl, inr, ◌⊎◌, ◌≡◌,
  refl, subst, ap, arith, Bytes,
}
use curio_core.Env.{Env, World, for_each, for_each_inv_of}
use curio_core.Sql.Changes.{EachRow, EachRow-refl, EachRow-update}
use curio_core.Stash.Custore.{Url}
use curio_core.Stash.Park.{Piece, Park, Candidate}
use curio_core.Stash.Complete.{
  candidates, Run, is_flippable, flipped, flip_and_count, visit, run_batch, run_task, finish,
  Report,
}
use curio_core.Stash.Complete.Laws.{FromRows, is_ready, visit-park, candidates-FromRows}

module _ (E : ℕ → Type 0) where
  -- a piece as it was, or an incomplete piece that became complete, on the grounds `E` of its id
  abbrev pub KeptOrMarked : Piece → Piece → Type 0
  KeptOrMarked p q = (q ≡ p) ⊎ ((q ≡ flipped p) × (p.complete ≡ false) × E p.id)

  flip_one :
      (id : ℕ) (p q : Piece)
      → E id
      → KeptOrMarked p q
      → KeptOrMarked p (if is_flippable id q then flipped q else q)
  flip_one id p q e (inl k) = elim (Bool-cases (is_flippable id q)) [
    | inl f ↦ rw f (inr (ap flipped k, ground (arith, f, k), subst E (ground (arith, f, k)) e))
    | inr f ↦ rw f (inl k)
  ]
  flip_one id p q e (inr (k, i, g)) = inr (ground (arith, k), i, g)

module _ (parse : Bytes → Option Url) (cwd : Option Bytes) (stash_dir : Bytes) where
  -- the grounds for marking a piece: it was selected, and the URL leads to a file of the stash
  abbrev pub Backed : Park → ℕ → Type 0
  Backed park id =
      (c : Candidate) × (c.piece_id ≡ id)
      × FromRows park c
      × (is_ready parse cwd stash_dir park.files c.data_url ≡ true)

  -- the pieces are as they were but for the marks, and the refs and the files are as they were
  abbrev pub Kept : Park → Park → Type 0
  Kept park q =
      EachRow (KeptOrMarked (Backed park)) park.pieces q.pieces
      × (q.refs ≡ park.refs)
      × (q.files ≡ park.files)

module _ (parse : Bytes → Option Url) (cwd : Option Bytes) (stash_dir : Bytes) (env : Env) where
  visit-Kept :
      (park : Park) (c : Candidate) (w : World Run)
      → FromRows park c
      → Kept parse cwd stash_dir park w.store.park
      → Kept parse cwd stash_dir park (visit parse cwd stash_dir env c w).1.store.park
  visit-Kept park c w t k = elim (visit-park parse cwd stash_dir env c w) [
    | inl e ↦ rw e k
    | inr (e, ready) ↦ rw e (
        unfold flip_and_count in
        (
          EachRow-update (KeptOrMarked (Backed parse cwd stash_dir park)) (is_flippable c.piece_id)
              flipped
              (λ p q. flip_one (Backed parse cwd stash_dir park) c.piece_id p q (
                c,
                refl,
                t,
                subst (λ f. is_ready parse cwd stash_dir f c.data_url ≡ true) k.2 ready,
              ))
              park.pieces w.store.park.pieces k.0,
          k.1,
          k.2,
        ))
  ]

  Kept-refl : (park : Park) → Kept parse cwd stash_dir park park
  Kept-refl park = (
    EachRow-refl (KeptOrMarked (Backed parse cwd stash_dir park)) (λ p. inl refl) park.pieces,
    refl,
    refl,
  )

  finish_park :
      (r : Option Report × World Run) → (finish parse cwd stash_dir env r).1.store ≡ r.1.store.park
  finish_park (none, w) = refl
  finish_park (some e, w) = refl

  run_batch-Kept :
      (park : Park) (calls : ℕ) (batch : List Candidate)
      → All (FromRows park) batch
      → Kept parse cwd stash_dir park (run_batch parse cwd stash_dir env park calls batch).1.store
  unfolding run_batch
  run_batch-Kept park calls batch t =
      let w : World Run = record { store = record { park = park; completed = 0 }; calls = calls } in
      rw (finish_park (for_each (visit parse cwd stash_dir env) batch w)) (
        for_each_inv_of (λ v. Kept parse cwd stash_dir park v.store.park) (FromRows park)
          (visit parse cwd stash_dir env) (visit-Kept park) batch w t (Kept-refl park))

  -- Whatever fails, a run of the task changes nothing but the `complete` flag of pieces, and sets it
  -- only from false to true, only for an incomplete long-term piece with a custore ref, and only if
  -- the URL of that ref leads to a file in the stash.
  pub run_task-Kept :
      (w : World Park)
      → Kept parse cwd stash_dir w.store (run_task parse cwd stash_dir env w).1.store
  unfolding run_task
  run_task-Kept w = elim (Bool-cases (env.fault w.calls)) [
    | inl f ↦ rw f (Kept-refl w.store)
    | inr f ↦
        rw f
          (run_batch-Kept w.store (suc w.calls) (candidates w.store) (candidates-FromRows w.store))
  ]
