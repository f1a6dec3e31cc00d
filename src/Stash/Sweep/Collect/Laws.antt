-- ===== src/Stash/Sweep/Collect/Laws.antt =====
-- The sweep removes only what it may remove.
use curio_core.Stash.Path.Laws.{path_eq_iff}
use curio_core.Base.{
  ◌∷◌, ◌++◌, Option, [], subst, ◌∙◌, suc, sym, arith, ℕ, ◌+◌, true, false, ltb, none, some, List,
  Bytes, codes, has_suffix, Bool-cases, Option-cases, inl, inr, ◌⊎◌, ◌≡◌, refl,
}
use curio_core.Env.{for_each_inv, for_each, Env, World, ticked}
use curio_core.Stash.Path.{slash, is_abs, clean, path_eq, FilePath, join}
use curio_core.Stash.Files.{
  located, lookup-without, File, Files, lookup, without, remove, Removal, removed, not_exist,
  failed,
}
use curio_core.Stash.Sweep.{Config, Pass}
use curio_core.Stash.Sweep.Collect.{
  is_skipped, Entry, candidate, count, after_removal, reclaim, check_age, check_info, check_entry,
  gc_pass, dir_status, is_referenced,
}

module _ (cfg : Config) (referenced : List FilePath) (time : ℕ) where
  -- a file that the sweep may remove: collection is armed, the file stands in the stash directory
  -- under a name of the stash, no ref names it, and it has reached the retention age
  abbrev pub Reclaimable : FilePath → File → Type 0
  Reclaimable q f =
      (name : Bytes) × (q ≡ join cfg.stash_dir name)
      × (has_suffix name (codes ".tmp") ≡ true)
      × (cfg.gc_enabled ≡ true)
      × (is_referenced referenced q ≡ false)
      × (ltb time (f.mod_time + cfg.gc_retention) ≡ false)

  -- a file is as it was, or it is gone and was one that the sweep may remove
  abbrev pub KeptOrReclaimed : Files → Files → FilePath → Type 0
  KeptOrReclaimed before after q =
      (lookup q after ≡ lookup q before)
      ⊎ ((lookup q after ≡ none) × ((f : File) × (lookup q before ≡ some f) × Reclaimable q f))

module _ (env : Env) (cfg : Config) (time : ℕ) where
  after_removal_files :
      (size : ℕ) (r : Removal) (w : World Pass)
      → (after_removal size r w).store.park.files ≡ w.store.park.files
  after_removal_files size removed w = refl
  after_removal_files size not_exist w = refl
  after_removal_files size failed w = refl

  reclaim_files :
      (full : FilePath) (f : File) (w : World Pass)
      → ((reclaim env cfg time full f w).store.park.files ≡ w.store.park.files)
        ⊎ ((reclaim env cfg time full f w).store.park.files ≡ without full w.store.park.files)
  unfolding remove
  reclaim_files full f w = elim (Bool-cases (env.fault w.calls)) [
    | inl e ↦ rw (after_removal_files, e) (inl refl)
    | inr e ↦ rw (after_removal_files, e) (inr refl)
  ]

  age_files :
      (full : FilePath) (f : File) (w : World Pass)
      → ((check_age env cfg time full (some f) w).store.park.files ≡ w.store.park.files)
        ⊎ (((check_age env cfg time full (some f) w).store.park.files
              ≡ without full w.store.park.files)
            × (cfg.gc_enabled ≡ true)
            × (ltb time (f.mod_time + cfg.gc_retention) ≡ false))
  age_files full f w = elim (Bool-cases (ltb time (f.mod_time + cfg.gc_retention))) [
    | inl young ↦ rw young (inl refl)
    | inr old ↦ elim (Bool-cases cfg.gc_enabled) [
      | inl on ↦
          rw (old, on)
            (elim (reclaim_files full f (count candidate w)) [
              | inl e ↦ inl e
              | inr e ↦ inr (e, refl, refl)
            ])
      | inr off ↦ rw (old, off) (inl refl)
    ]
  ]

  info_files :
      (full : FilePath) (w : World Pass)
      → ((check_info env cfg time full w).store.park.files ≡ w.store.park.files)
        ⊎ (((check_info env cfg time full w).store.park.files ≡ without full w.store.park.files)
            × ((f : File) × (lookup full w.store.park.files ≡ some f)
                × (cfg.gc_enabled ≡ true)
                × (ltb time (f.mod_time + cfg.gc_retention) ≡ false)))
  unfolding check_info
  info_files full w = elim (Bool-cases (env.fault w.calls)) [
    | inl e ↦ rw e (inl refl)
    | inr e ↦ elim (Option-cases (lookup full w.store.park.files)) [
      | inl l ↦ rw (e, l) (inl refl)
      | inr (f, l) ↦
          rw (e, l)
            (elim (age_files full f (ticked w)) [
              | inl s ↦ inl s
              | inr (s, on, old) ↦ inr (s, (f, refl, on, old))
            ])
    ]
  ]

module _ (cfg : Config) (referenced : List FilePath) where
  not_skipped :
      (e : Entry)
      → is_skipped cfg referenced e ≡ false
      → (has_suffix e.name (codes ".tmp") ≡ true)
        × (is_referenced referenced (join cfg.stash_dir e.name) ≡ false)
  not_skipped e h = ground arith

module _ (cfg : Config) (referenced : List FilePath) (time : ℕ) where
  without-Kept :
      (before files : Files) (full q : FilePath) (f : File)
      → lookup full files ≡ some f
      → Reclaimable cfg referenced time full f
      → KeptOrReclaimed cfg referenced time before files q
      → KeptOrReclaimed cfg referenced time before (without full files) q
  without-Kept before files full q f found r k = elim (Bool-cases (path_eq full q)) [
    | inr other ↦
        let same : lookup q (without full files) ≡ lookup q files =
          rw (lookup-without, other) refl in
        rw same k
    | inl e ↦
        let here : full ≡ q = (path_eq_iff full q).0 e in
        let gone : lookup q (without full files) ≡ none = rw (lookup-without, e) refl in
        inr (
          gone,
          elim k [
            | inl s ↦ (
              f,
              sym s ∙ subst (λ p. lookup p files ≡ some f) here found,
              subst (λ p. Reclaimable cfg referenced time p f) here r,
            )
            | inr (_, g) ↦ g
          ],
        )
  ]

is_abs-append : (s t : Bytes) → is_abs s ≡ true → is_abs (s ++ t) ≡ true
is_abs-append [] t h = absurd (ground (arith, h))
is_abs-append (c ∷ s) t h = h

-- a path below an absolute directory is the one that it names
located-join :
    (cwd : Option Bytes) (dir name : Bytes)
    → is_abs dir ≡ true
    → located cwd (join dir name) ≡ join dir name
unfolding join clean
located-join none dir name h = refl
located-join (some wd) dir name h = rw (is_abs-append dir (slash ∷ name) h) refl

module _ (cwd : Option Bytes) (env : Env) (cfg : Config) (referenced : List FilePath) (time : ℕ)
    (absolute : is_abs cfg.stash_dir ≡ true) where
  entry_files :
      (e : Entry) (before : Files) (w : World Pass) (q : FilePath)
      → KeptOrReclaimed cfg referenced time before w.store.park.files q
      → KeptOrReclaimed cfg referenced time before
          (check_entry cwd env cfg referenced time e w).1.store.park.files
          q
  unfolding check_entry
  entry_files e before w q k = elim (Bool-cases (env.owned w.calls)) [
    | inr o ↦ rw o k
    | inl o ↦ elim (Bool-cases (is_skipped cfg referenced e)) [
      | inl s ↦ rw (o, s) k
      | inr s ↦
          rw (o, s, located-join cwd cfg.stash_dir e.name absolute)
            (elim (info_files env cfg time (join cfg.stash_dir e.name) (ticked w)) [
              | inl same ↦ rw same k
              | inr (gone, (f, found, on, old)) ↦ rw gone (
                  let (tmp, free) = not_skipped cfg referenced e s in
                  without-Kept cfg referenced time before w.store.park.files
                    (join cfg.stash_dir e.name) q f found (e.name, refl, tmp, on, free, old) k)
            ])
    ]
  ]

  collect_files :
      (es : List Entry) (before : Files) (w : World Pass) (q : FilePath)
      → KeptOrReclaimed cfg referenced time before w.store.park.files q
      → KeptOrReclaimed cfg referenced time before
          (for_each (check_entry cwd env cfg referenced time) es w).1.store.park.files
          q
  collect_files es before w q k =
      for_each_inv (λ v. KeptOrReclaimed cfg referenced time before v.store.park.files q)
        (check_entry cwd env cfg referenced time) (λ e v h. entry_files e before v q h) es w k

module _ (cwd : Option Bytes) (env : Env) (cfg : Config) (referenced : List FilePath)
    (absolute : is_abs cfg.stash_dir ≡ true) where
  -- what collecting leaves of the files, whatever fails, if the stash directory is absolute
  pub gc_pass-Kept :
      (w : World Pass) (q : FilePath)
      → KeptOrReclaimed cfg referenced
          (env.time (suc w.calls))
          w.store.park.files
          (gc_pass cwd env cfg referenced w).1.store.park.files
          q
  unfolding gc_pass
  gc_pass-Kept w q = elim (Bool-cases (env.fault w.calls)) [
    | inl f ↦ rw f (inl refl)
    | inr f ↦
        elim (Option-cases (dir_status (located cwd (clean cfg.stash_dir)) w.store.park.files)) [
          | inl d ↦ rw (f, d) (inl refl)
          | inr (es, d) ↦
              rw (f, d)
                (collect_files cwd env cfg referenced (env.time (suc w.calls)) absolute es
                  w.store.park.files _ q (inl refl))
        ]
  ]
