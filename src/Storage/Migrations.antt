-- ===== src/Storage/Migrations.antt =====
-- internal/harmonysqlite/migrations.go: `listMigrationFiles`, `ApplyMigrations`.
--
-- What a script does to the schema is SQLite's matter and an argument: it says whether the script
-- ends without an error, and what the schema is then. A failed script may have done a part. The
-- number of rows behind which `rows.Next` ends with an error is an argument too, none for no error:
-- `rows.Err` is not asked, so the names before it count as all. A failed `Scan` fails the query.
pub mod Laws
use curio_core.Env.{ticked, query, exec, World, Env}
use curio_core.Base.{
  take, codes, ◌++◌, bytes_lt, has_suffix, if◌then◌else◌, bytes_eq, any, not, ◌∷◌, Bytes, Bool,
  Option, List, ℕ, suc, zero, arith, ap, sym, inr, inl, false, true, some, none, refl, [], ◌≡◌,
}

pub record DirEntry : Type 0 where
  pub name : Bytes
  pub is_dir : Bool

abbrev pub insert_name : Bytes → List Bytes → List Bytes
insert_name x [] = x ∷ []
insert_name x (y ∷ ys) =
    let rest = insert_name x ys in if bytes_lt y x then y ∷ rest else x ∷ y ∷ ys

-- `sort.Strings`
abbrev pub sort_names : List Bytes → List Bytes
sort_names [] = []
sort_names (x ∷ xs) = insert_name x (sort_names xs)

abbrev pub sql_files : List DirEntry → List Bytes
sql_files [] = []
sql_files (e ∷ es) =
    let rest = sql_files es in
    if e.is_dir then rest else if has_suffix e.name (codes ".sql") then e.name ∷ rest else rest

unfoldable pub list_migration_files : Option (List DirEntry) → Option (List Bytes)
list_migration_files none = none
list_migration_files (some es) = some (sort_names (sql_files es))

-- the bookkeeping table, which may not be there yet, and everything else in the database
pub record Database (D : Type 0) : Type 0 where
  pub applied : Option (List Bytes)
  pub schema : D

abbrev pub names_of : Option (List Bytes) → List Bytes
names_of none = []
names_of (some ns) = ns

-- the loop over `rows.Next`
abbrev pub read_rows : Option ℕ → List Bytes → List Bytes
read_rows none ns = ns
read_rows (some n) ns = take n ns

abbrev pub is_in : List Bytes → Bytes → Bool
is_in ns name = any (bytes_eq name) ns

-- `name TEXT PRIMARY KEY`: a name that is there is an error
abbrev pub is_recordable : Bytes → Option (List Bytes) → Bool
is_recordable name none = false
is_recordable name (some ns) = not (is_in ns name)

module _ {D : Type 0} (script : Bytes → D → Bool × D) (read_file : Bytes → Option Bytes)
    (env : Env) where
  abbrev pub create_table : Database D → Database D
  create_table db = record db { applied = some (names_of db.applied) }

  -- `ExecContext` on the body of a file
  abbrev pub run_script : Bytes → World (Database D) → Bool × World (Database D)
  run_script body w =
      if env.fault w.calls
      then (false, ticked w)
      else let (ok, schema') = script body w.store.schema in
        (ok, ticked (record w { store = record w.store { schema = schema' } }))

  -- `INSERT INTO harmony_schema_migrations`
  abbrev pub record_name : Bytes → World (Database D) → Bool × World (Database D)
  record_name name w =
      if is_recordable name w.store.applied
      then exec env (λ db. record db { applied = some (names_of db.applied ++ (name ∷ [])) }) w
      else (false, ticked w)

  abbrev pub run_and_record : Bytes → Bytes → World (Database D) → Bool × World (Database D)
  run_and_record name body w =
      let (ok, w1) = run_script body w in if ok then record_name name w1 else (false, w1)

  abbrev pub apply_body : Bytes → Option Bytes → World (Database D) → Bool × World (Database D)
  apply_body name none w = (false, w)
  apply_body name (some body) w = run_and_record name body w

  abbrev pub apply_file : Bytes → World (Database D) → Bool × World (Database D)
  apply_file name w = apply_body name (read_file name) w

  -- the loop over the files, with the names that were applied when it began
  unfoldable pub apply_files :
      List Bytes → List Bytes → World (Database D) → Bool × World (Database D)
  apply_files seen [] w = (true, w)
  apply_files seen (name ∷ names) w =
      if is_in seen name
      then apply_files seen names w
      else let (ok, w1) = apply_file name w in if ok then apply_files seen names w1 else (false, w1)

  abbrev pub apply_unseen :
      List Bytes → Option (List Bytes) × World (Database D) → Bool × World (Database D)
  apply_unseen files (none, w) = (false, w)
  apply_unseen files (some seen, w) = apply_files seen files w

  abbrev pub apply_listed :
      Option ℕ → Option (List Bytes) → World (Database D) → Bool × World (Database D)
  apply_listed row_error none w = (false, w)
  apply_listed row_error (some files) w =
      apply_unseen files (query env (λ db. read_rows row_error (names_of db.applied)) w)

  -- true when there is no error
  unfoldable pub apply_migrations :
      Option ℕ → Option (List DirEntry) → World (Database D) → Bool × World (Database D)
  apply_migrations row_error dir w =
      let (ok, w1) = exec env create_table w in
      if ok then apply_listed row_error (list_migration_files dir) w1 else (false, w1)
