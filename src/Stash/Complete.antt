-- ===== src/Stash/Complete.antt =====
-- internal/parkcomplete: the task that marks an uploaded piece as complete once its stash file is seen.
pub mod Laws
pub mod Sound
pub mod Batch
use curio_core.Base.{
  ℕ, suc, Bool, true, false, not, ◌&&◌, ltb, Option, none, some, List, [], ◌∷◌, ◌++◌, map, keep,
  take, Bytes, ◌==◌, if◌then◌else◌,
}
use curio_core.Env.{Env, World, still_owned, exec, query, Flow, go, return, for_each}
use curio_core.Sql.{update, order_by}
use curio_core.Stash.Custore.{Url, Resolved, ok, err, stash_path_from_custore_url}
use curio_core.Stash.Files.{Status, present, stat}
use curio_core.Stash.Park.{Piece, Ref, Park, Candidate, is_custore_ref}

-- what the scheduler is told: done, not done, or not done with an error
pub data Report : Type 0 where
  done not_done failed : Report

abbrev pub batch_size : ℕ
batch_size = 32

abbrev pub candidate_of : ℕ → Ref → Candidate
candidate_of piece r = record { piece_id = piece; data_url = r.data_url }

-- `complete = 0 AND long_term = 1`
abbrev pub is_open : Piece → Bool
is_open p = not p.complete && p.long_term

unfoldable pub join_refs : List Piece → List Ref → List Candidate
join_refs [] refs = []
join_refs (p ∷ ps) refs =
    let rest = join_refs ps refs in
    if is_open p then map (candidate_of p.id) (keep (is_custore_ref p.id) refs) ++ rest else rest

-- `SELECT … ORDER BY pp.id ASC LIMIT ?`
unfoldable pub candidates : Park → List Candidate
unfolding join_refs
candidates park = take batch_size (order_by (λ c. c.piece_id) (join_refs park.pieces park.refs))

-- `Do` while it runs: the tables, and the local counter
pub record Run : Type 0 where
  pub park : Park
  pub completed : ℕ

abbrev pub is_flippable : ℕ → Piece → Bool
is_flippable id p = (p.id == id) && not p.complete

abbrev pub flipped : Piece → Piece
flipped p = record p { complete = true }

-- `UPDATE parked_pieces SET complete = 1 WHERE id = ? AND complete = 0`
abbrev pub flip : ℕ → Park → Park
flip id park = record park { pieces = update (is_flippable id) flipped park.pieces }

-- the statement, and `completed++` behind it
unfoldable pub flip_and_count : ℕ → Run → Run
flip_and_count id run = record { park = flip id run.park; completed = suc run.completed }

abbrev pub mark : Env → ℕ → World Run → Flow Report × World Run
mark env id w =
    let (written, w') = exec env (flip_and_count id) w in
    if written then (go, w') else (return failed, w')

abbrev pub ticked_run : World Run → World Run
ticked_run w = record w { calls = suc w.calls }

abbrev pub is_present : Status → Bool
is_present present = true
is_present _ = false

module _ (parse : Bytes → Option Url) (cwd : Option Bytes) (stash_dir : Bytes) (env : Env) where
  abbrev pub check_and_mark : ℕ → Resolved → World Run → Flow Report × World Run
  check_and_mark id (err e) w = (go, w)
  check_and_mark id (ok path) w =
      if is_present (stat env w.calls path w.store.park.files)
      then mark env id (ticked_run w)
      else (go, ticked_run w)

  -- one round of the loop
  unfoldable pub visit : Candidate → World Run → Flow Report × World Run
  visit c w =
      let (owned, w') = still_owned env w in
      if owned
      then check_and_mark c.piece_id (stash_path_from_custore_url parse cwd c.data_url stash_dir) w'
      else (return not_done, w')

  -- `Do`; the last component says whether `onComplete` is called
  abbrev pub finish : Option Report × World Run → Report × World Park × Bool
  finish (none, w) =
      (done, record { store = w.store.park; calls = w.calls }, ltb 0 w.store.completed)
  finish (some r, w) = (r, record { store = w.store.park; calls = w.calls }, false)

  unfoldable pub run_batch : Park → ℕ → List Candidate → Report × World Park × Bool
  run_batch park calls batch = finish (
      for_each visit batch
        (record { store = record { park = park; completed = 0 }; calls = calls }))

  abbrev pub run_selected : Option (List Candidate) → World Park → Report × World Park × Bool
  run_selected none w = (failed, w, false)
  run_selected (some batch) w = run_batch w.store w.calls batch

  unfoldable pub run_task : World Park → Report × World Park × Bool
  unfolding candidates
  run_task w = let (selected, w') = query env candidates w in run_selected selected w'
