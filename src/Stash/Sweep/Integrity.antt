-- ===== src/Stash/Sweep/Integrity.antt =====
-- `integrityPass`: the file behind each complete piece is looked for, and `integrity_missing_at` says
-- since when it is missing.
pub mod Laws
use curio_core.Base.{ℕ, suc, Bool, true, false, Option, none, some, List, Bytes, if◌then◌else◌}
use curio_core.Env.{Env, World, ticked, still_owned, query, Flow, go, return, for_each}
use curio_core.Stash.Custore.{Url, Resolved, ok, err, stash_path_from_custore_url}
use curio_core.Stash.Files.{stat}
use curio_core.Stash.Sweep.{
  Row, rows, Pass, Stop, not_owned, errored, on_store, counted_checked, is_absent, toggle,
}

module _ (parse : Bytes → Option Url) (cwd : Option Bytes) (stash_dir : Bytes) (env : Env) where
  -- a URL that does not resolve is only warned of
  abbrev pub check_file : Row → Resolved → World Pass → Flow Stop × World Pass
  check_file r (err e) w = (go, w)
  check_file r (ok path) w =
      toggle env r.piece_id (is_absent (stat env w.calls path w.store.park.files)) r.missing_at
        (ticked w)

  -- one round of the loop
  unfoldable pub check_row : Row → World Pass → Flow Stop × World Pass
  check_row r w =
      let (owned, w') = still_owned env w in
      if owned
      then check_file r (stash_path_from_custore_url parse cwd r.data_url stash_dir)
          (on_store counted_checked w')
      else (return not_owned, w')

  abbrev pub check_rows : Option (List Row) → World Pass → Option Stop × World Pass
  check_rows none w = (some errored, w)
  check_rows (some rs) w = for_each check_row rs w

  abbrev pub selected : Pass → List Row
  selected s = rows s.park.pieces s.park.refs

  unfoldable pub integrity_pass : World Pass → Option Stop × World Pass
  integrity_pass w = let (rs, w') = query env selected w in check_rows rs w'
