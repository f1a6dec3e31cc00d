-- ===== src/Stash/Sweep/Run.antt =====
-- `sweep`, one whole pass: the referenced paths, then integrity, then collection.
use curio_core.Base.{
  subst, ap, arith, not, Bool, true, false, Option, none, some, List, [], ◌∷◌, keep, Bytes,
  if◌then◌else◌, Bool-cases, inl, inr, ◌≡◌, refl, ℕ, suc, Member, head, tail,
}
use curio_core.Env.{Env, World, ticked, still_owned, query}
use curio_core.Stash.Path.{is_abs, FilePath}
use curio_core.Stash.Path.Laws.{path_eq_refl}
use curio_core.Stash.Custore.{Url, Resolved, ok, err, stash_path_from_custore_url}
use curio_core.Stash.Files.{Files, lookup}
use curio_core.Stash.Park.{Ref, Park, is_custore_url}
use curio_core.Stash.Sweep.{Config, Pass, Stop, not_owned, errored, no_counts}
use curio_core.Stash.Sweep.Integrity.{integrity_pass}
use curio_core.Stash.Sweep.Integrity.Laws.{integrity_pass-FlagsOnly}
use curio_core.Stash.Sweep.Collect.{gc_pass, is_referenced}
use curio_core.Stash.Sweep.Collect.Laws.{KeptOrReclaimed, gc_pass-Kept}

-- `err` of a pass
abbrev pub has_error : Option Stop → Bool
has_error none = false
has_error (some not_owned) = false
has_error (some errored) = true

abbrev pub add_path : Resolved → List FilePath → List FilePath
add_path (err e) ps = ps
add_path (ok p) ps = p ∷ ps

abbrev pub custore_refs : Park → List Ref
custore_refs park = keep (λ r. is_custore_url r.data_url) park.refs

module _ (parse : Bytes → Option Url) (cwd : Option Bytes) (env : Env) (cfg : Config) where
  abbrev pub resolve : Bytes → Resolved
  resolve url = stash_path_from_custore_url parse cwd url cfg.stash_dir

  -- the set of paths that any custore ref points at; a URL that does not resolve adds none
  unfoldable pub referenced_paths : List Ref → List FilePath
  referenced_paths [] = []
  referenced_paths (r ∷ rs) = add_path (resolve r.data_url) (referenced_paths rs)

  abbrev pub no_error : Option Stop × World Pass → Bool × World Pass
  no_error (stop, w) = (not (has_error stop), w)

  abbrev pub then_collect : List FilePath → Option Stop × World Pass → Bool × World Pass
  then_collect referenced (stop, w) =
      if has_error stop
      then (false, w)
      else (let (owned, w') = still_owned env w in
          if owned then no_error (gc_pass cwd env cfg referenced w') else (true, w'))

  abbrev pub with_refs : Option (List Ref) → World Pass → Bool × World Pass
  with_refs none w = (false, w)
  with_refs (some refs) w =
      then_collect (referenced_paths refs) (integrity_pass parse cwd cfg.stash_dir env w)

  -- from empty counts; true when there is no error
  unfoldable pub sweep : World Park → Bool × World Pass
  sweep w =
      let start : World Pass = record {
        store = record { park = w.store; res = no_counts; alerts = [] };
        calls = w.calls;
      } in
      let (refs, w') = query env (λ s. custore_refs s.park) start in with_refs refs w'

  add_path_member :
      (o : Resolved) (p : FilePath) (ps : List FilePath)
      → is_referenced ps p ≡ true
      → is_referenced (add_path o ps) p ≡ true
  unfolding is_referenced
  add_path_member (err e) p ps h = h
  add_path_member (ok q) p ps h = ground (arith, h)

  resolved-is_referenced :
      (rs : List Ref) (r : Ref) (p : FilePath)
      → Member r rs
      → resolve r.data_url ≡ ok p
      → is_referenced (referenced_paths rs) p ≡ true
  unfolding is_referenced referenced_paths
  resolved-is_referenced [] r p m h = elim m [ ]
  resolved-is_referenced (s ∷ rs) r p head h = rw h (rw path_eq_refl refl)
  resolved-is_referenced (s ∷ rs) r p (tail m) h =
      add_path_member (resolve s.data_url) p _ (resolved-is_referenced rs r p m h)

  collected_files :
      (before : Files) (referenced : List FilePath) (o : Option Stop) (w : World Pass)
      (q : FilePath)
      → is_abs cfg.stash_dir ≡ true
      → w.store.park.files ≡ before
      → (n : ℕ) × KeptOrReclaimed cfg referenced
          (env.time n)
          before
          (then_collect referenced (o, w)).1.store.park.files
          q
  collected_files before referenced o w q absolute h = elim (Bool-cases (has_error o)) [
    | inl e ↦ rw e (0, inl (ap (lookup q) h))
    | inr e ↦ elim (Bool-cases (env.owned w.calls)) [
      | inr f ↦ rw (e, f) (0, inl (ap (lookup q) h))
      | inl f ↦
          rw (e, f)
            (
              suc (suc w.calls),
              subst
                  (λ fs.
                    KeptOrReclaimed cfg referenced (env.time (suc (suc w.calls))) fs
                      (gc_pass cwd env cfg referenced (ticked w)).1.store.park.files q)
                  h (gc_pass-Kept cwd env cfg referenced absolute (ticked w) q),
            )
    ]
  ]

  pub sweep_files :
      (w : World Park) (q : FilePath)
      → is_abs cfg.stash_dir ≡ true
      → (n : ℕ) × KeptOrReclaimed cfg
          (referenced_paths (custore_refs w.store))
          (env.time n)
          w.store.files
          (sweep w).1.store.park.files
          q
  unfolding sweep
  sweep_files w q absolute = elim (Bool-cases (env.fault w.calls)) [
    | inl f ↦ rw f (0, inl refl)
    | inr f ↦ rw f (
        let start : World Pass = record {
          store = record { park = w.store; res = no_counts; alerts = [] };
          calls = suc w.calls;
        } in
        let (o, v) = integrity_pass parse cwd cfg.stash_dir env start in
        collected_files w.store.files (referenced_paths (custore_refs w.store)) o v q absolute
          (integrity_pass-FlagsOnly parse cwd cfg.stash_dir env start).2)
  ]

  -- If the stash directory is an absolute path, a sweep leaves the file of every custore ref as it is,
  -- whatever fails, if the URL of the ref resolves.
  pub sweep_keeps_referenced :
      (w : World Park) (r : Ref) (p : FilePath)
      → is_abs cfg.stash_dir ≡ true
      → Member r (custore_refs w.store)
      → resolve r.data_url ≡ ok p
      → lookup p (sweep w).1.store.park.files ≡ lookup p w.store.files
  sweep_keeps_referenced w r p absolute m h =
      let (n, k) = sweep_files w p absolute in
      elim k [
        | inl same ↦ same
        | inr (gone, (f, found, (name, place, tmp, on, free, old))) ↦
            ground (arith, free, resolved-is_referenced (custore_refs w.store) r p m h)
      ]

  -- With collection disarmed, a sweep of an absolute stash directory removes no file, whatever fails.
  pub sweep_dry_run :
      (w : World Park) (q : FilePath)
      → is_abs cfg.stash_dir ≡ true
      → cfg.gc_enabled ≡ false
      → lookup q (sweep w).1.store.park.files ≡ lookup q w.store.files
  sweep_dry_run w q absolute h =
      let (n, k) = sweep_files w q absolute in
      elim k [
        | inl same ↦ same
        | inr (gone, (f, found, (name, place, tmp, on, free, old))) ↦ ground (arith, h, on)
      ]
