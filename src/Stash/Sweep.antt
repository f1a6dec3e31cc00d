-- ===== src/Stash/Sweep.antt =====
-- internal/stashsweep: the periodic check that complete pieces still have their file, and the removal
-- of files that no ref names.
--
-- The database, the directory and the clock are the environment's calls. `os.ReadDir` is read as the
-- files of the table that stand in the directory, in the order of the table.
pub mod Integrity
pub mod Collect
pub mod Run
use curio_core.Base.{
  ℕ, suc, ◌+◌, Bool, true, false, not, ◌||◌, ltb, Option, none, some, List, [], ◌∷◌, keep, map, any,
  Bytes, codes, bytes_eq, bytes_lt, has_suffix, length, ◌==◌, if◌then◌else◌, ◌*◌, ◌++◌, ◌&&◌,
}
use curio_core.Env.{Env, World, still_owned, now, exec, query, Flow, go, return, for_each}
use curio_core.Sql.{update}
use curio_core.Stash.Path.{FilePath, clean, join, path_eq, bool_eq}
use curio_core.Stash.Custore.{Url, Resolved, ok, err, stash_path_from_custore_url}
use curio_core.Stash.Files.{
  File, Files, Status, present, absent, unreadable, stat, lookup, Removal, removed, remove,
}
use curio_core.Stash.Park.{Piece, Ref, Park, is_custore_url, is_custore_ref}

-- `Config`. Durations are nanoseconds; a negative one, which `withDefaults` treats like 0, is left out.
pub record Config : Type 0 where
  pub stash_dir : Bytes
  pub poll_interval : ℕ
  pub gc_enabled : Bool
  pub gc_retention : ℕ

abbrev pub hour : ℕ
hour = 3600000000000

abbrev pub or_default : ℕ → ℕ → ℕ
or_default n d = if n == 0 then d else n

unfoldable pub with_defaults : Config → Config
with_defaults c = record c {
  poll_interval = or_default c.poll_interval hour;
  gc_retention = or_default c.gc_retention (24 * hour);
}

-- `Result`
pub record Counts : Type 0 where
  pub complete_checked : ℕ
  pub integrity_broken : ℕ
  pub integrity_healed : ℕ
  pub orphan_candidates : ℕ
  pub orphan_reclaimed : ℕ
  pub bytes_reclaimed : ℕ

abbrev pub no_counts : Counts
no_counts = record {
  complete_checked = 0;
  integrity_broken = 0;
  integrity_healed = 0;
  orphan_candidates = 0;
  orphan_reclaimed = 0;
  bytes_reclaimed = 0;
}

-- a sweep while it runs: the tables, its counts, and the pieces that `AlertFn` was called for
pub record Pass : Type 0 where
  pub park : Park
  pub res : Counts
  pub alerts : List ℕ

-- how a pass ends before its end: ownership is lost, which is no error, or a call fails
pub data Stop : Type 0 where
  not_owned errored : Stop

-- a row of the integrity query
pub record Row : Type 0 where
  pub piece_id : ℕ
  pub data_url : Bytes
  pub missing_at : Option ℕ

-- `MIN(data_url)` over a group
abbrev pub min_url : Bytes → List Ref → Bytes
min_url u [] = u
min_url u (r ∷ rs) = min_url (if bytes_lt r.data_url u then r.data_url else u) rs

-- the group of one piece; the join gives no row when it has no custore ref
abbrev pub row_of : Piece → List Ref → List Row
row_of p [] = []
row_of p (r ∷ rs) =
    record {
      piece_id = p.id;
      data_url = min_url r.data_url rs;
      missing_at = p.integrity_missing_at;
    }
    ∷ []

-- `SELECT … GROUP BY pp.id, pp.integrity_missing_at`, where `id` is the primary key
unfoldable pub rows : List Piece → List Ref → List Row
rows [] refs = []
rows (p ∷ ps) refs =
    let rest = rows ps refs in
    if p.complete then row_of p (keep (is_custore_ref p.id) refs) ++ rest else rest

abbrev pub is_some : Option ℕ → Bool
is_some none = false
is_some (some t) = true

abbrev pub is_absent : Status → Bool
is_absent absent = true
is_absent _ = false

-- `UPDATE … SET integrity_missing_at = ? WHERE id = ? AND integrity_missing_at IS NULL`
abbrev pub is_unflagged : ℕ → Piece → Bool
is_unflagged id p = (p.id == id) && not (is_some p.integrity_missing_at)

abbrev pub flag : ℕ → Piece → Piece
flag time p = record p { integrity_missing_at = some time }

-- `UPDATE … SET integrity_missing_at = NULL WHERE id = ? AND integrity_missing_at IS NOT NULL`
abbrev pub is_flagged : ℕ → Piece → Bool
is_flagged id p = (p.id == id) && is_some p.integrity_missing_at

abbrev pub unflag : Piece → Piece
unflag p = record p { integrity_missing_at = none }

abbrev pub set_pieces : (Piece → Bool) → (Piece → Piece) → Park → Park
set_pieces p f park = record park { pieces = update p f park.pieces }

abbrev pub broken : Counts → Counts
broken c = record c { integrity_broken = suc c.integrity_broken }

abbrev pub healed : Counts → Counts
healed c = record c { integrity_healed = suc c.integrity_healed }

-- the statement that stamps, with the count and the alert behind it
unfoldable pub stamp_broken : ℕ → ℕ → Pass → Pass
stamp_broken id time s = record {
  park = set_pieces (is_unflagged id) (flag time) s.park;
  res = broken s.res;
  alerts = id ∷ s.alerts;
}

-- the statement that clears, with the count behind it
unfoldable pub clear_healed : ℕ → Pass → Pass
clear_healed id s = record {
  park = set_pieces (is_flagged id) unflag s.park;
  res = healed s.res;
  alerts = s.alerts;
}

abbrev pub counted_broken : Pass → Pass
counted_broken s = record s { res = broken s.res }

abbrev pub counted_checked : Pass → Pass
counted_checked s = record s {
  res = record s.res { complete_checked = suc s.res.complete_checked };
}

abbrev pub on_store : (Pass → Pass) → World Pass → World Pass
on_store f w = record w { store = f w.store }

abbrev pub written : Bool × World Pass → Flow Stop × World Pass
written (true, w) = (go, w)
written (false, w) = (return errored, w)

module _ (env : Env) where
  -- the three cases of the switch, and none of them
  unfoldable pub toggle : ℕ → Bool → Option ℕ → World Pass → Flow Stop × World Pass
  toggle id true none w = let (time, w') = now env w in written (exec env (stamp_broken id time) w')
  toggle id true (some t) w = (go, on_store counted_broken w)
  toggle id false none w = (go, w)
  toggle id false (some t) w = written (exec env (clear_healed id) w)
