-- ===== src/Stash/Complete/Batch.antt =====
-- Which candidates one run of the completion task gets to.
use curio_core.Base.{
  ℕ, suc, true, false, Option, none, some, List, [], ◌∷◌, All, OnSome, Bool-cases, Option-cases,
  inl, inr, ◌⊎◌, ◌≡◌, refl, ◌∙◌, subst, ap, arith, Bytes,
}
use curio_core.Env.{Env, World, go, for_each, for_each_inv_of, for_each-All, for_each_returns}
use curio_core.Sql.{update}
use curio_core.Stash.Custore.{Url, Resolved, ok, err}
use curio_core.Stash.Files.{Files, stat, lookup}
use curio_core.Stash.Park.{Piece, Park, Candidate}
use curio_core.Stash.Complete.{
  Report, done, candidates, Run, is_flippable, flipped, flip_and_count, check_and_mark, visit,
  run_batch, run_task, finish, ticked_run,
}
use curio_core.Stash.Complete.Laws.{is_ready, ready_path, path_of, visit-park}

-- no row of that id is left incomplete
abbrev pub AllMarked : ℕ → List Piece → Type 0
AllMarked id ps = All (λ p. is_flippable id p ≡ false) ps

AllMarked-update :
    (y x : ℕ) (ps : List Piece) → AllMarked y ps → AllMarked y (update (is_flippable x) flipped ps)
AllMarked-update y x [] h = tt
AllMarked-update y x (p ∷ ps) h = (ground (arith, h.0), AllMarked-update y x ps h.1)

update-AllMarked : (x : ℕ) (ps : List Piece) → AllMarked x (update (is_flippable x) flipped ps)
update-AllMarked x [] = tt
update-AllMarked x (p ∷ ps) = (ground arith, update-AllMarked x ps)

module _ (parse : Bytes → Option Url) (cwd : Option Bytes) (stash_dir : Bytes) (env : Env) where
  -- A batch whose URLs lead to no file of the stash changes nothing, whatever fails.
  stuck_loop :
      (park : Park) (batch : List Candidate) (w : World Run)
      → All (λ c. is_ready parse cwd stash_dir park.files c.data_url ≡ false) batch
      → w.store.park ≡ park
      → (for_each (visit parse cwd stash_dir env) batch w).1.store.park ≡ park
  stuck_loop park batch w t h =
      for_each_inv_of (λ v. v.store.park ≡ park)
        (λ c. is_ready parse cwd stash_dir park.files c.data_url ≡ false)
        (visit parse cwd stash_dir env)
        (λ c v b e. elim (visit-park parse cwd stash_dir env c v) [
          | inl s ↦ ap (λ r. r.park) s ∙ e
          | inr (s, ready) ↦ cc
        ])
        batch w t h

  module _ (owned : (n : ℕ) → env.owned n ≡ true) (sound : (n : ℕ) → env.fault n ≡ false) where
    abbrev Settled : Files → Candidate → World Run → Type 0
    Settled files c w =
        (is_ready parse cwd stash_dir files c.data_url ≡ false)
        ⊎ AllMarked c.piece_id w.store.park.pieces

    check-Settled :
        (id : ℕ) (r : Resolved) (w : World Run)
        → ((check_and_mark parse cwd stash_dir env id r w).0 ≡ go)
          × ((ready_path parse cwd stash_dir w.store.park.files r ≡ false)
              ⊎ AllMarked id (check_and_mark parse cwd stash_dir env id r w).1.store.park.pieces)
    unfolding stat flip_and_count
    check-Settled id (err e) w = (refl, inl refl)
    check-Settled id (ok path) w = elim (Option-cases (lookup path w.store.park.files)) [
      | inl l ↦ rw (sound w.calls, l) (refl, inl refl)
      | inr (file, l) ↦
          rw (sound w.calls, l, sound (suc w.calls))
            (refl, inr (update-AllMarked id w.store.park.pieces))
    ]

    visit-Settled :
        (c : Candidate) (w : World Run)
        → ((visit parse cwd stash_dir env c w).0 ≡ go)
          × Settled w.store.park.files c (visit parse cwd stash_dir env c w).1
    unfolding visit
    visit-Settled c w =
        rw (owned w.calls)
          (check-Settled c.piece_id (path_of parse cwd stash_dir c.data_url) (ticked_run w))

    Settled-visit :
        (files : Files) (y c : Candidate) (w : World Run)
        → Settled files y w
        → Settled files y (visit parse cwd stash_dir env c w).1
    unfolding flip_and_count
    Settled-visit files y c w (inl b) = inl b
    Settled-visit files y c w (inr m) = elim (visit-park parse cwd stash_dir env c w) [
      | inl e ↦ rw e (inr m)
      | inr (e, _) ↦ rw e (inr (AllMarked-update y.piece_id c.piece_id w.store.park.pieces m))
    ]

    visit_files :
        (c : Candidate) (w : World Run)
        → (visit parse cwd stash_dir env c w).1.store.park.files ≡ w.store.park.files
    unfolding flip_and_count
    visit_files c w = elim (visit-park parse cwd stash_dir env c w) [
      | inl e ↦ rw e refl
      | inr (e, _) ↦ rw e refl
    ]

    never_returns :
        (batch : List Candidate) (w : World Run)
        → (for_each (visit parse cwd stash_dir env) batch w).0 ≡ none
    never_returns batch w =
        elim (Option-cases (for_each (visit parse cwd stash_dir env) batch w).0) [
          | inl e ↦ e
          | inr (r, e) ↦
              let absurd : ⊥ = subst (OnSome (λ r. ⊥)) e (
                for_each_returns (λ r. ⊥) (visit parse cwd stash_dir env)
                  (λ c v r g. ground (arith, (visit-Settled c v).0, g)) batch w) in
              elim absurd [ ]
        ]

    batch_settles :
        (park : Park) (calls : ℕ) (batch : List Candidate)
        → ((run_batch parse cwd stash_dir env park calls batch).0 ≡ done)
          × All
              (λ c.
                (is_ready parse cwd stash_dir park.files c.data_url ≡ false)
                ⊎ AllMarked c.piece_id
                    (run_batch parse cwd stash_dir env park calls batch).1.store.pieces)
              batch
    unfolding run_batch
    batch_settles park calls batch =
        let w : World Run = record {
          store = record { park = park; completed = 0 };
          calls = calls;
        } in
        let w' : World Run = (for_each (visit parse cwd stash_dir env) batch w).1 in
        let ended : for_each (visit parse cwd stash_dir env) batch w ≡ (none, w') =
          ap (λ o. (o, w')) (never_returns batch w) in
        let settled =
          for_each-All (λ v. v.store.park.files ≡ park.files) (visit parse cwd stash_dir env)
            (Settled park.files) (λ c v h. visit_files c v ∙ h)
            (λ c v h g.
              subst (λ f. Settled f c (visit parse cwd stash_dir env c v).1) h
                (visit-Settled c v).1)
            (λ y c v h s. Settled-visit park.files y c v s) batch w w' refl ended in
        rw ended (refl, settled)

  finish_park :
      (r : Option Report × World Run) → (finish parse cwd stash_dir env r).1.store ≡ r.1.store.park
  finish_park (none, w) = refl
  finish_park (some e, w) = refl

  -- If none of the candidates that one run selects has a URL that leads to a file of the stash, the
  -- run changes nothing, whatever fails. The next run then selects the same candidates.
  pub run_task_stuck :
      (w : World Park)
      → All
          (λ c. is_ready parse cwd stash_dir w.store.files c.data_url ≡ false)
          (candidates w.store)
      → (run_task parse cwd stash_dir env w).1.store ≡ w.store
  unfolding run_task run_batch
  run_task_stuck w t = elim (Bool-cases (env.fault w.calls)) [
    | inl f ↦ rw f refl
    | inr f ↦ rw (f, finish_park) (stuck_loop w.store (candidates w.store) _ t refl)
  ]

  -- Where no call fails and the task stays owned, a run ends with the answer that it is done, and then
  -- each candidate that it selected is marked as complete, unless its URL leads to no file of the
  -- stash.
  pub run_task_settles :
      (w : World Park)
      → ((n : ℕ) → env.owned n ≡ true)
      → ((n : ℕ) → env.fault n ≡ false)
      → ((run_task parse cwd stash_dir env w).0 ≡ done)
        × All
            (λ c.
              (is_ready parse cwd stash_dir w.store.files c.data_url ≡ false)
              ⊎ AllMarked c.piece_id (run_task parse cwd stash_dir env w).1.store.pieces)
            (candidates w.store)
  unfolding run_task
  run_task_settles w owned sound =
      rw (sound w.calls) (batch_settles owned sound w.store (suc w.calls) (candidates w.store))
