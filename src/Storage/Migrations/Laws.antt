-- ===== src/Storage/Migrations/Laws.antt =====
-- internal/harmonysqlite/migrations.go: what `ApplyMigrations` leaves behind.
use curio_core.Storage.Migrations.{
  read_rows, is_recordable, list_migration_files, apply_file, apply_files, apply_migrations,
  names_of, is_in, DirEntry, Database,
}
use curio_core.Env.{ticked, World, Env}
use curio_core.Base.{
  ℕ, Bool-cases, append-nil, append_assoc, Option-cases, ◌∙◌, ◌⊎◌, ◌++◌, if◌then◌else◌, ◌∷◌, Bytes,
  Bool, Option, List, suc, ap, sym, inr, inl, false, true, some, none, refl, [], ◌≡◌,
}

-- the files that are not applied
abbrev pub pending : List Bytes → List Bytes → List Bytes
pending seen [] = []
pending seen (name ∷ names) =
    let rest = pending seen names in if is_in seen name then rest else name ∷ rest

abbrev pub files_of : Option (List Bytes) → List Bytes
files_of none = []
files_of (some names) = names

abbrev pub and_then : {A B : Type 0} → Option A → (A → Option B) → Option B
and_then none f = none
and_then (some a) f = f a

module _ {D : Type 0} (script : Bytes → D → Bool × D) (read_file : Bytes → Option Bytes) where
  -- the schema behind one file, if its script ends without an error
  abbrev pub script_result : Bool × D → Option D
  script_result (ok, s) = if ok then some s else none

  abbrev pub migrate_one : Bytes → D → Option D
  migrate_one name s = and_then (read_file name) (λ body. script_result (script body s))

  -- the schema behind files that run in order
  abbrev pub migrate : List Bytes → Option D → Option D
  migrate [] s = s
  migrate (name ∷ names) s = migrate names (and_then s (migrate_one name))

  -- nothing more was run, or the script of the next file was, and is not recorded
  abbrev pub IsStopped : List Bytes → D → D → Type 0
  IsStopped rest mid after =
      (mid ≡ after)
      ⊎ ((name : Bytes) × (others : List Bytes) × (body : Bytes) × (rest ≡ name ∷ others)
          × (read_file name ≡ some body)
          × (after ≡ (script body mid).1))

  -- The files up to some place were run in order, each without an error, and were recorded. That
  -- place is the end and nothing else was run, or there is an error.
  abbrev pub IsRun : Bool → List Bytes → Database D → Database D → Type 0
  IsRun ok names before after =
      (done : List Bytes) × (rest : List Bytes) × (mid : D) × (names ≡ done ++ rest)
      × (names_of after.applied ≡ names_of before.applied ++ done)
      × (migrate done (some before.schema) ≡ some mid)
      × (((ok ≡ true) × (rest ≡ []) × (mid ≡ after.schema))
          ⊎ ((ok ≡ false) × IsStopped rest mid after.schema))

  -- a file was run and recorded, or there is an error and nothing new is recorded
  abbrev pub IsStep : Bool → Bytes → Database D → Database D → Type 0
  IsStep ok name before after =
      ((ok ≡ true)
        × (names_of after.applied ≡ names_of before.applied ++ (name ∷ []))
        × (migrate_one name before.schema ≡ some after.schema))
      ⊎ ((ok ≡ false)
          × (names_of after.applied ≡ names_of before.applied)
          × ((before.schema ≡ after.schema)
              ⊎ ((body : Bytes) × (read_file name ≡ some body)
                  × (after.schema ≡ (script body before.schema).1))))

  stopped-IsRun :
      (names : List Bytes) (before after : Database D)
      → names_of after.applied ≡ names_of before.applied
      → IsStopped names before.schema after.schema
      → IsRun false names before after
  stopped-IsRun names before after h s = (
    [],
    names,
    before.schema,
    refl,
    h ∙ sym (append-nil (names_of before.applied)),
    refl,
    inr (refl, s),
  )

  continued-IsRun :
      (ok : Bool) (name : Bytes) (names : List Bytes) (before mid after : Database D)
      → names_of mid.applied ≡ names_of before.applied ++ (name ∷ [])
      → migrate_one name before.schema ≡ some mid.schema
      → IsRun ok names mid after
      → IsRun ok (name ∷ names) before after
  continued-IsRun ok name names before mid after h k (done, rest, s, split, recorded, ran, ends) = (
    name ∷ done,
    rest,
    s,
    ap (λ xs. name ∷ xs) split,
    recorded ∙ ap (λ xs. xs ++ done) h ∙ append_assoc (names_of before.applied) (name ∷ []) done,
    ap (migrate done) k ∙ ran,
    ends,
  )

  module _ (env : Env) where
    apply_file-IsStep :
        (name : Bytes) (w : World (Database D))
        → IsStep
            (apply_file script read_file env name w).0
            name
            w.store
            (apply_file script read_file env name w).1.store
    apply_file-IsStep name w = elim (Option-cases (read_file name)) [
      | inl e ↦ rw e (inr (refl, refl, inl refl))
      | inr (body, e) ↦ elim (Bool-cases (env.fault w.calls)) [
        | inl f ↦ rw (e, f) (inr (refl, refl, inl refl))
        | inr f ↦ elim (Bool-cases (script body w.store.schema).0) [
          | inr g ↦ rw (e, f, g) (inr (refl, refl, inr (body, refl, refl)))
          | inl g ↦ elim (Bool-cases (is_recordable name w.store.applied)) [
            | inr i ↦ rw (e, f, g, i) (inr (refl, refl, inr (body, refl, refl)))
            | inl i ↦ elim (Bool-cases (env.fault (suc w.calls))) [
              | inl j ↦ rw (e, f, g, i, j) (inr (refl, refl, inr (body, refl, refl)))
              | inr j ↦ rw (e, f, g, i, j) (inl (refl, refl, refl))
            ]
          ]
        ]
      ]
    ]

    apply_files-IsRun :
        (seen names : List Bytes) (w : World (Database D))
        → IsRun
            (apply_files script read_file env seen names w).0
            (pending seen names)
            w.store
            (apply_files script read_file env seen names w).1.store
    unfolding apply_files
    apply_files-IsRun seen [] w = (
      [],
      [],
      w.store.schema,
      refl,
      sym (append-nil (names_of w.store.applied)),
      refl,
      inl (refl, refl, refl),
    )
    apply_files-IsRun seen (name ∷ names) w = elim (Bool-cases (is_in seen name)) [
      | inl e ↦ rw e (apply_files-IsRun seen names w)
      | inr e ↦ elim (apply_file-IsStep name w) [
        | inl (ok, recorded, ran) ↦
            rw (e, ok)
              (continued-IsRun _ name (pending seen names) w.store
                (apply_file script read_file env name w).1.store
                (apply_files script read_file env seen names
                  (apply_file script read_file env name w).1).1.store
                recorded ran
                (apply_files-IsRun seen names (apply_file script read_file env name w).1))
        | inr (ok, same, left) ↦
            rw (e, ok)
              (stopped-IsRun (name ∷ pending seen names) w.store
                (apply_file script read_file env name w).1.store same
                (elim left [
                  | inl s ↦ inl s
                  | inr (body, read, made) ↦ inr (name, pending seen names, body, refl, read, made)
                ]))
      ]
    ]

    -- behind `CREATE TABLE IF NOT EXISTS`
    abbrev opened : World (Database D) → World (Database D)
    opened w =
        ticked (record w { store = record w.store { applied = some (names_of w.store.applied) } })

    -- Whatever fails, and also where the rows of the recorded names end early, which goes unnoticed,
    -- `ApplyMigrations` has run the files whose names it did not read, in the order of
    -- `listMigrationFiles`, up to some place, each without an error, and has recorded just these. Where
    -- it returns no error that place is the end, and the schema is the one these files make; where it
    -- returns an error, the schema is that one, or what the script of the next file made of it, and
    -- that file is not recorded anew.
    pub apply_migrations-IsRun :
        (row_error : Option ℕ) (dir : Option (List DirEntry)) (w : World (Database D))
        → IsRun
            (apply_migrations script read_file env row_error dir w).0
            (pending
              (read_rows row_error (names_of w.store.applied))
              (files_of (list_migration_files dir)))
            w.store
            (apply_migrations script read_file env row_error dir w).1.store
    unfolding apply_migrations
    apply_migrations-IsRun row_error dir w = elim (Bool-cases (env.fault w.calls)) [
      | inl f ↦ rw f (
          stopped-IsRun
            (pending (read_rows row_error (names_of w.store.applied))
              (files_of (list_migration_files dir)))
            w.store w.store refl (inl refl))
      | inr f ↦ elim (Option-cases (list_migration_files dir)) [
        | inl e ↦ rw (f, e) (stopped-IsRun [] w.store (opened w).store refl (inl refl))
        | inr (files, e) ↦ elim (Bool-cases (env.fault (suc w.calls))) [
          | inl g ↦
              rw (f, e, g)
                (stopped-IsRun (pending (read_rows row_error (names_of w.store.applied)) files)
                  w.store (opened w).store refl (inl refl))
          | inr g ↦
              rw (f, e, g)
                (apply_files-IsRun (read_rows row_error (names_of w.store.applied)) files
                  (ticked (opened w)))
        ]
      ]
    ]
