-- ===== src/Storage/Tests.antt =====
-- A mount with two labelled directories and a cache of one certificate.
use curio_core.Storage.CertCache.Refines.{
  run-Holds, deletes, Holds, gets, map_run, puts, CacheOp, run,
}
use curio_core.Storage.Migrations.Laws.{apply_migrations-IsRun, files_of, pending, IsRun}
use curio_core.Storage.Migrations.{
  read_rows, list_migration_files, apply_files, apply_migrations, Database, DirEntry,
}
use curio_core.Storage.DataPath.{
  is_less, find_label_dirs, walk, cands_of, sort_cands, no_more, label_dir, entry, more, max_depth,
  discover_labelled, Mount,
}
use curio_core.Storage.CertCache.{cache_miss, Certs}
use curio_core.Env.{World, Env}
use curio_core.Base.{
  none, ◌==◌, ◌++◌, Bool, Option, codes, ◌∷◌, length, Bytes, List, ℕ, false, true, some, refl, [],
  ◌≡◌,
}

abbrev calm : Env
calm = record { fault = λ n. false; owned = λ n. true; time = λ n. n }

abbrev one_cert : World Certs
one_cert = record { store = record { k = codes "a"; v = 1 ∷ [] } ∷ []; calls = 0 }

abbrev disk : Mount
disk = record {
  point = codes "mnt" ∷ [];
  entries =
      more (entry (codes "d") true (more (entry label_dir true no_more) no_more))
        (more (entry label_dir true no_more) no_more);
}

abbrev free_space : List Bytes → ℕ
free_space p = length p

picks_most_free :
    discover_labelled free_space (disk ∷ []) max_depth
    ≡ some (codes "mnt" ∷ codes "d" ∷ label_dir ∷ [])
unfolding discover_labelled sort_cands cands_of find_label_dirs walk is_less
picks_most_free = refl

abbrev run_first : Bytes → List Bytes → Bool × List Bytes
run_first body s = (true, s ++ (body ∷ []))

abbrev body_of : Bytes → Option Bytes
body_of name = some (0 ∷ name)

abbrev embedded : Option (List DirEntry)
embedded = some (
    record { name = codes "0002.sql"; is_dir = false }
    ∷ record { name = codes "README.md"; is_dir = false }
    ∷ record { name = codes "0001.sql"; is_dir = false }
    ∷ [])

abbrev first_applied : World (Database (List Bytes))
first_applied = record {
  store = record { applied = some (codes "0001.sql" ∷ []); schema = [] };
  calls = 0;
}

applies_second :
    (apply_migrations run_first body_of calm none embedded first_applied).1.store ≡ record {
      applied = some (codes "0001.sql" ∷ codes "0002.sql" ∷ []);
      schema = (0 ∷ codes "0002.sql") ∷ [];
    }
unfolding apply_migrations list_migration_files apply_files
applies_second = refl

apply_migrations-IsRun_example :
    IsRun run_first body_of
      (apply_migrations run_first body_of calm none embedded first_applied).0
      (pending (read_rows none (codes "0001.sql" ∷ [])) (files_of (list_migration_files embedded)))
      first_applied.store
      (apply_migrations run_first body_of calm none embedded first_applied).1.store
apply_migrations-IsRun_example =
    apply_migrations-IsRun run_first body_of calm none embedded first_applied

-- Where the reading of the names fails at the first row, the script of a recorded file runs again.
runs_recorded :
    ((apply_migrations run_first body_of calm (some 0) embedded first_applied).0 ≡ false)
    × (length
          (apply_migrations run_first body_of calm (some 0) embedded first_applied).1.store.schema
        ≡ 1)
unfolding apply_migrations list_migration_files apply_files
runs_recorded = (refl, refl)

abbrev cache_ops : List CacheOp
cache_ops =
    puts (codes "a") (codes "1") ∷ gets (codes "a") ∷ deletes (codes "a") ∷ gets (codes "a") ∷ []

abbrev shaky : Env
shaky = record { fault = λ n. n == 2; owned = λ n. true; time = λ n. n }

abbrev no_certs : World Certs
no_certs = record { store = []; calls = 0 }

run-Holds_example :
    ((run shaky cache_ops no_certs).0 ≡ (map_run shaky 0 cache_ops (λ key. cache_miss)).0)
    × Holds (run shaky cache_ops no_certs).1.store (map_run shaky 0 cache_ops (λ key. cache_miss)).1
run-Holds_example = run-Holds shaky cache_ops no_certs (λ key. cache_miss) (λ key. refl)
