-- ===== src/Stash/Sweep/Collect.antt =====
-- `gcPass`, which removes the stash files that no ref names.
--
-- The set of the referenced paths is asked for the path as it is joined, `ReadDir`, `Info` and `Remove`
-- act on the file that it names: for a relative stash directory these differ.
pub mod Laws
use curio_core.Base.{
  zero, arith, ap, sym, inr, inl, refl, ℕ, suc, ◌+◌, Bool, true, false, not, ◌||◌, ltb, Option,
  none, some, List, [], ◌∷◌, any, keep, Bytes, codes, bytes_eq, has_suffix, length, if◌then◌else◌,
}
use curio_core.Env.{Env, World, ticked, still_owned, now, query, Flow, go, return, for_each}
use curio_core.Stash.Path.{FilePath, clean, join, path_eq, bool_eq}
use curio_core.Stash.Custore.{Url, Resolved, ok, err, stash_path_from_custore_url}
use curio_core.Stash.Files.{
  File, Files, located, lookup, Removal, removed, not_exist, failed, remove,
}
use curio_core.Stash.Park.{Ref, Park, is_custore_url}
use curio_core.Stash.Sweep.{Config, Counts, no_counts, Pass, Stop, not_owned, errored, on_store}
use curio_core.Stash.Sweep.Integrity.{integrity_pass}

-- an entry of the directory
pub record Entry : Type 0 where
  pub name : Bytes
  pub is_dir : Bool

-- the last element of a path, when the others are those of the directory
abbrev pub name_in : List Bytes → List Bytes → Option Bytes
name_in dir [] = none
name_in [] (n ∷ []) = some n
name_in [] (n ∷ m ∷ es) = none
name_in (d ∷ ds) (e ∷ es) = let rest = name_in ds es in if bytes_eq d e then rest else none

abbrev pub entry_in : FilePath → File → Option Bytes
entry_in dir f =
    if bool_eq dir.rooted f.path.rooted then name_in dir.elements f.path.elements else none

abbrev pub add_entry : Option Bytes → Bool → List Entry → List Entry
add_entry none is_dir es = es
add_entry (some n) is_dir es = record { name = n; is_dir = is_dir } ∷ es

-- os.ReadDir
unfoldable pub entries : FilePath → Files → List Entry
entries dir [] = []
entries dir (f ∷ fs) = add_entry (entry_in dir f) f.is_dir (entries dir fs)

-- the directory is there when it is a file of the table or anything stands in it
abbrev pub dir_status : FilePath → Files → Option (List Entry)
dir_status dir fs = elim (lookup dir fs) [
  | none ↦ elim (entries dir fs) [ [] ↦ none | e ∷ es ↦ some (e ∷ es) ]
  | some f ↦ some (entries dir fs)
]

abbrev pub candidate : Counts → Counts
candidate c = record c { orphan_candidates = suc c.orphan_candidates }

abbrev pub reclaimed : ℕ → Counts → Counts
reclaimed size c = record c {
  orphan_reclaimed = suc c.orphan_reclaimed;
  bytes_reclaimed = c.bytes_reclaimed + size;
}

abbrev pub count : (Counts → Counts) → World Pass → World Pass
count f w = on_store (λ s. record s { res = f s.res }) w

abbrev pub files_of : World Pass → World Files
files_of w = record { store = w.store.park.files; calls = w.calls }

abbrev pub with_files : World Pass → World Files → World Pass
with_files w v = record {
  store = record w.store { park = record w.store.park { files = v.store } };
  calls = v.calls;
}

-- the count behind `os.Remove`, for which a missing file is an error as well
abbrev pub after_removal : ℕ → Removal → World Pass → World Pass
after_removal size removed w = count (reclaimed size) w
after_removal size not_exist w = w
after_removal size failed w = w

unfoldable pub is_referenced : List FilePath → FilePath → Bool
is_referenced referenced full = any (path_eq full) referenced

abbrev pub is_skipped : Config → List FilePath → Entry → Bool
is_skipped cfg referenced e =
    e.is_dir
    || not (has_suffix e.name (codes ".tmp"))
    || is_referenced referenced (join cfg.stash_dir e.name)

module _ (env : Env) (cfg : Config) (time : ℕ) where
  abbrev pub reclaim : FilePath → File → World Pass → World Pass
  reclaim full f w =
      let (r, v) = remove env full (files_of w) in
      after_removal (length f.content) r (with_files w v)

  -- `info.ModTime().After(cutoff)` keeps a file
  abbrev pub check_age : FilePath → Option File → World Pass → World Pass
  check_age full none w = w
  check_age full (some f) w =
      if ltb time (f.mod_time + cfg.gc_retention)
      then w
      else if not cfg.gc_enabled
      then count candidate w
      else reclaim full f (count candidate w)

  -- `e.Info()`
  unfoldable pub check_info : FilePath → World Pass → World Pass
  check_info full w =
      check_age full (if env.fault w.calls then none else lookup full w.store.park.files) (ticked w)

module _ (cwd : Option Bytes) (env : Env) (cfg : Config) (referenced : List FilePath)
    (time : ℕ) where
  -- one round of the loop
  unfoldable pub check_entry : Entry → World Pass → Flow Stop × World Pass
  check_entry e w =
      let (owned, w') = still_owned env w in
      if owned
      then (
        go,
        if is_skipped cfg referenced e
            then w'
            else check_info env cfg time (located cwd (join cfg.stash_dir e.name)) w',
      )
      else (return not_owned, w')

module _ (cwd : Option Bytes) (env : Env) (cfg : Config) (referenced : List FilePath) where
  -- the entries of the directory, or `none` when it does not exist; ownership that is lost inside the
  -- loop is no error
  abbrev pub collect_listed : Option (Option (List Entry)) → World Pass → Option Stop × World Pass
  collect_listed none w = (some errored, w)
  collect_listed (some none) w = (none, w)
  collect_listed (some (some es)) w =
      let (time, w') = now env w in for_each (check_entry cwd env cfg referenced time) es w'

  abbrev pub listed : Pass → Option (List Entry)
  listed s = dir_status (located cwd (clean cfg.stash_dir)) s.park.files

  unfoldable pub gc_pass : World Pass → Option Stop × World Pass
  gc_pass w = let (es, w') = query env listed w in collect_listed es w'
