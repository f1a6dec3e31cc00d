-- ===== src/Stash/Tests.antt =====
-- One small store, and the theorems of the stash at it.
--
-- Two pieces were uploaded to `/s`. The file of the first is there, the file of the second is gone, and
-- one old file belongs to no piece.
use curio_core.Stash.Sweep.Collect.{is_referenced, entries, check_info, check_entry, gc_pass}
use curio_core.Stash.Sweep.Integrity.{check_row, integrity_pass}
use curio_core.Stash.Disk.Laws.{stash_round_trip}
use curio_core.Stash.Disk.{close, serve_and_remove, stash_create, stash_file, Store}
use curio_core.Stash.Sweep.Integrity.Laws.{integrity_pass-FlagsOnly, FlagsOnly}
use curio_core.Stash.Complete.Laws.{is_ready}
use curio_core.Stash.Custore.Laws.{resolved-Inside, Inside}
use curio_core.Stash.Complete.Batch.{run_task_settles, AllMarked, run_task_stuck}
use curio_core.Sql.{like_prefix}
use curio_core.Stash.Sweep.Run.{sweep_keeps_referenced, sweep, referenced_paths}
use curio_core.Stash.Park.{Park, Ref, Piece}
use curio_core.Stash.Custore.{custore, stash_path_from_custore_url, Url}
use curio_core.Stash.Complete.{done, run_task, candidates}
use curio_core.Stash.Files.{stat, without, remove, lookup, File, Files}
use curio_core.Stash.Path.{text, join, abs, FilePath}
use curio_core.Stash.Complete.Sound.{run_task-Kept, Kept}
use curio_core.Stash.Path.{rel, rel_elements, rel_text, clean, path_eq}
use curio_core.Sql.{like_prefix}
use curio_core.Base.{
  length, ◌⊎◌, head, has_prefix, All, ◌∷◌, if◌then◌else◌, codes, ◌+◌, ◌≡◌, Bytes, Bool, Option,
  false, true, some, none, refl, [], ℕ, drop,
}
use curio_core.Env.{for_each, World, Env}
use curio_core.Stash.Sweep.{stamp_broken, toggle, rows, no_counts, Config}

abbrev calm : Env
calm = record { fault = λ n. false; owned = λ n. true; time = λ n. 100 + n }

calm_sound : (n : ℕ) → calm.fault n ≡ false
calm_sound n = refl

calm_owned : (n : ℕ) → calm.owned n ≡ true
calm_owned n = refl

-- `custore://<path>`
abbrev parse_custore : Bytes → Option Url
parse_custore s =
    if has_prefix s (codes "custore://")
    then some (record { scheme = custore; path = drop 10 s })
    else none

abbrev root : Option Bytes
root = some (codes "/")

abbrev dir : Bytes
dir = codes "/s"

abbrev in_stash : Bytes → FilePath
in_stash name = record { rooted = true; elements = codes "s" ∷ name ∷ [] }

abbrev piece : ℕ → Bool → Piece
piece id complete = record {
  id = id;
  piece_cid = codes "c";
  piece_raw_size = 3;
  complete = complete;
  long_term = true;
  integrity_missing_at = none;
}

abbrev first_ref : Ref
first_ref = record { ref_id = 1; piece_id = 1; data_url = codes "custore:///s/a.tmp" }

abbrev second_ref : Ref
second_ref = record { ref_id = 2; piece_id = 2; data_url = codes "custore:///s/b.tmp" }

abbrev file : Bytes → File
file name = record { path = in_stash name; is_dir = false; content = codes "abc"; mod_time = 5 }

abbrev files : Files
files = file (codes "a.tmp") ∷ file (codes "old.tmp") ∷ []

abbrev uploaded : World Park
uploaded = record {
  store = record {
    pieces = piece 1 false ∷ piece 2 false ∷ [];
    refs = first_ref ∷ second_ref ∷ [];
    files = files;
  };
  calls = 0;
}

-- only the piece without a file is left
abbrev lost : World Park
lost = record {
  store = record { pieces = piece 2 false ∷ []; refs = second_ref ∷ []; files = files };
  calls = 0;
}

abbrev completed : World Park
completed = record {
  store = record {
    pieces = piece 1 true ∷ piece 2 true ∷ [];
    refs = first_ref ∷ second_ref ∷ [];
    files = files;
  };
  calls = 0;
}

abbrev config : Bool → Config
config armed = record { stash_dir = dir; poll_interval = 1; gc_enabled = armed; gc_retention = 10 }

resolved-Inside_example :
    (base : FilePath) × (abs root dir ≡ some base) × Inside base (in_stash (codes "a.tmp"))
unfolding stash_path_from_custore_url abs rel clean rel_elements rel_text
resolved-Inside_example =
    resolved-Inside parse_custore root (codes "custore:///s/a.tmp") dir (in_stash (codes "a.tmp"))
      refl refl

run_task-Kept_example :
    Kept parse_custore root dir uploaded.store
      (run_task parse_custore root dir calm uploaded).1.store
run_task-Kept_example = run_task-Kept parse_custore root dir calm uploaded

run_task_settles_example :
    ((run_task parse_custore root dir calm uploaded).0 ≡ done)
    × All
        (λ c.
          (is_ready parse_custore root dir files c.data_url ≡ false)
          ⊎ AllMarked c.piece_id (run_task parse_custore root dir calm uploaded).1.store.pieces)
        (candidates uploaded.store)
run_task_settles_example =
    run_task_settles parse_custore root dir calm uploaded calm_owned calm_sound

run_task_stuck_example : (run_task parse_custore root dir calm lost).1.store ≡ lost.store
unfolding candidates stash_path_from_custore_url like_prefix abs rel clean rel_elements rel_text
    lookup path_eq
run_task_stuck_example = run_task_stuck parse_custore root dir calm lost (refl, tt)

sweep_keeps_referenced_example :
    lookup
      (in_stash (codes "a.tmp"))
      (sweep parse_custore root calm (config true) completed).1.store.park.files
    ≡ lookup (in_stash (codes "a.tmp")) files
unfolding stash_path_from_custore_url like_prefix abs rel clean rel_elements rel_text
sweep_keeps_referenced_example =
    sweep_keeps_referenced parse_custore root calm (config true) completed first_ref
      (in_stash (codes "a.tmp")) refl head refl

-- With a relative stash directory, the file of a ref is removed.
relative_loses_referenced :
    lookup
      (in_stash (codes "a.tmp"))
      (sweep parse_custore root calm
        (record (config true) { stash_dir = codes "s" })
        completed).1.store.park.files
    ≡ none
unfolding sweep gc_pass check_entry check_info remove lookup without path_eq entries
    referenced_paths integrity_pass join is_referenced stash_path_from_custore_url like_prefix abs
    rel clean rel_elements rel_text for_each rows check_row toggle stat stamp_broken text
relative_loses_referenced = refl

integrity_pass-FlagsOnly_example :
    FlagsOnly parse_custore root dir calm completed.store
      (integrity_pass parse_custore root dir calm (record {
        store = record { park = completed.store; res = no_counts; alerts = [] };
        calls = 0;
      })).1.store.park
integrity_pass-FlagsOnly_example =
    integrity_pass-FlagsOnly parse_custore root dir calm (record {
      store = record { park = completed.store; res = no_counts; alerts = [] };
      calls = 0;
    })

abbrev decode_cid : Bytes → Option ℕ
decode_cid s = some (length s)

abbrev store : Store
store = record { dir = dir }

abbrev stash : World Files
stash = record { store = files; calls = 0 }

stash_round_trip_example :
    let (created, w₁) = stash_create calm store (codes "n") (codes "xyz") true stash in
    let (served, w₂) = serve_and_remove calm store (codes "n") w₁ in
    let (closed, w₃) = close calm store (codes "n") w₂ in
    (created ≡ some (codes "n"))
    × (served ≡ some (codes "xyz"))
    × (closed ≡ true)
    × ((q : FilePath)
        → lookup q w₃.store
          ≡ (if path_eq (stash_file store (codes "n")) q then none else lookup q files))
stash_round_trip_example = stash_round_trip calm store (codes "n") (codes "xyz") stash calm_sound
