-- ===== src/Stash/Sweep/Integrity/Laws.antt =====
-- The integrity pass changes nothing but the flag of pieces whose file it looked for.
use curio_core.Base.{
  All-self, ℕ, suc, Bool, true, false, Option, none, some, Bytes, if◌then◌else◌, Bool-cases,
  Option-cases, inl, inr, ◌⊎◌, ◌≡◌, refl, subst, ap, arith, Member,
}
use curio_core.Env.{for_each_inv_of, Env, World, ticked}
use curio_core.Sql.Changes.{EachRow, EachRow-refl, EachRow-update}
use curio_core.Stash.Path.{FilePath}
use curio_core.Stash.Custore.{Url, Resolved, ok, err, stash_path_from_custore_url}
use curio_core.Stash.Files.{File, Files, lookup, stat}
use curio_core.Stash.Park.{Piece, Park}
use curio_core.Stash.Sweep.{
  counted_checked, on_store, set_pieces, Row, rows, Pass, is_absent, is_some, toggle, stamp_broken,
  clear_healed, is_flagged, is_unflagged, flag, unflag,
}
use curio_core.Stash.Sweep.Integrity.{check_row, integrity_pass, check_file}

module _ (Gone Seen : ℕ → Type 0) where
  -- a piece as it was, or with its flag set on the grounds `Gone`, or cleared on the grounds `Seen`
  abbrev pub Reflagged : Piece → Piece → Type 0
  Reflagged p q =
      (q ≡ record p { integrity_missing_at = q.integrity_missing_at })
      × ((q.integrity_missing_at ≡ p.integrity_missing_at)
          ⊎ ((is_some q.integrity_missing_at ≡ true) × Gone p.id)
          ⊎ ((is_some q.integrity_missing_at ≡ false) × Seen p.id))

  flag_one :
      (id time : ℕ)
      → Gone id
      → (p q : Piece) → Reflagged p q
      → Reflagged p (if is_unflagged id q then flag time q else q)
  flag_one id time g p q h = elim (Bool-cases (is_unflagged id q)) [
    | inr f ↦ rw f h
    | inl f ↦
        rw f (
          ap (flag time) h.0,
          inr (inl (refl, subst Gone (ground (arith, f, ap (λ r. r.id) h.0)) g)),
        )
  ]

  unflag_one :
      (id : ℕ)
      → Seen id
      → (p q : Piece) → Reflagged p q
      → Reflagged p (if is_flagged id q then unflag q else q)
  unflag_one id g p q h = elim (Bool-cases (is_flagged id q)) [
    | inr f ↦ rw f h
    | inl f ↦
        rw f (ap unflag h.0, inr (inr (refl, subst Seen (ground (arith, f, ap (λ r. r.id) h.0)) g)))
  ]

toggle-park :
    (env : Env) (id : ℕ) (missing : Bool) (at : Option ℕ) (w : World Pass)
    → ((toggle env id missing at w).1.store.park ≡ w.store.park)
      ⊎ ((missing ≡ true)
          × ((time : ℕ) × ((toggle env id missing at w).1.store.park
                ≡ set_pieces (is_unflagged id) (flag time) w.store.park)))
      ⊎ ((missing ≡ false)
          × ((toggle env id missing at w).1.store.park
              ≡ set_pieces (is_flagged id) unflag w.store.park))
unfolding toggle stamp_broken clear_healed
toggle-park env id true none w = elim (Bool-cases (env.fault (suc w.calls))) [
  | inl f ↦ rw f (inl refl)
  | inr f ↦ rw f (inr (inl (refl, (env.time w.calls, refl))))
]
toggle-park env id true (some t) w = inl refl
toggle-park env id false none w = inl refl
toggle-park env id false (some t) w = elim (Bool-cases (env.fault w.calls)) [
  | inl f ↦ rw f (inl refl)
  | inr f ↦ rw f (inr (inr (refl, refl)))
]

absent_stat :
    (env : Env) (n : ℕ) (path : FilePath) (fs : Files)
    → is_absent (stat env n path fs) ≡ true
    → lookup path fs ≡ none
unfolding stat
absent_stat env n path fs h = ground arith

found_stat :
    (env : Env) (n : ℕ) (path : FilePath) (fs : Files)
    → is_absent (stat env n path fs) ≡ false
    → ((f : File) × (lookup path fs ≡ some f)) ⊎ ((m : ℕ) × (env.fault m ≡ true))
unfolding stat
found_stat env n path fs h = elim (Bool-cases (env.fault n)) [
  | inl f ↦ inr (n, f)
  | inr f ↦ elim (Option-cases (lookup path fs)) [ inr l ↦ inl l | inl l ↦ ground (arith, h, f, l) ]
]

module _ (parse : Bytes → Option Url) (cwd : Option Bytes) (stash_dir : Bytes) (env : Env) where
  -- the integrity query has a row of that piece, and the path of the row is `A`
  abbrev pub LookedAt : Park → (FilePath → Type 0) → ℕ → Type 0
  LookedAt park A id =
      (r : Row) × Member r (rows park.pieces park.refs)
      × (r.piece_id ≡ id)
      × ((path : FilePath) × (stash_path_from_custore_url parse cwd r.data_url stash_dir ≡ ok path)
          × A path)

  -- the file was missing
  abbrev pub Gone : Park → ℕ → Type 0
  Gone park = LookedAt park (λ path. lookup path park.files ≡ none)

  -- the file was there, or some call to the system failed
  abbrev pub Seen : Park → ℕ → Type 0
  Seen park =
      LookedAt park (λ path.
        ((f : File) × (lookup path park.files ≡ some f)) ⊎ ((n : ℕ) × (env.fault n ≡ true)))

  -- the refs and the files are as they were, and the pieces but for their flags
  abbrev pub FlagsOnly : Park → Park → Type 0
  FlagsOnly park q =
      EachRow (Reflagged (Gone park) (Seen park)) park.pieces q.pieces
      × (q.refs ≡ park.refs)
      × (q.files ≡ park.files)

  FlagsOnly-refl : (park : Park) → FlagsOnly park park
  FlagsOnly-refl park = (
    EachRow-refl (Reflagged (Gone park) (Seen park)) (λ p. (refl, inl refl)) park.pieces,
    refl,
    refl,
  )

  check_file-FlagsOnly :
      (park : Park) (r : Row) (o : Resolved) (w : World Pass)
      → Member r (rows park.pieces park.refs)
      → stash_path_from_custore_url parse cwd r.data_url stash_dir ≡ o
      → FlagsOnly park w.store.park
      → FlagsOnly park (check_file parse cwd stash_dir env r o w).1.store.park
  check_file-FlagsOnly park r (err e) w m h k = k
  check_file-FlagsOnly park r (ok path) w m h k =
      let seen = stat env w.calls path w.store.park.files in
      elim (toggle-park env r.piece_id (is_absent seen) r.missing_at (ticked w)) [
        | inl e ↦ rw e k
        | inr (inl (missing, (time, e))) ↦ rw e (
          EachRow-update (Reflagged (Gone park) (Seen park)) (is_unflagged r.piece_id) (flag time)
              (flag_one (Gone park) (Seen park) r.piece_id time (
                r,
                m,
                refl,
                (
                  path,
                  h,
                  subst (λ fs. lookup path fs ≡ none) k.2 (absent_stat env w.calls path _ missing),
                ),
              ))
              park.pieces w.store.park.pieces k.0,
          k.1,
          k.2,
        )
        | inr (inr (found, e)) ↦ rw e (
          EachRow-update (Reflagged (Gone park) (Seen park)) (is_flagged r.piece_id) unflag
              (unflag_one (Gone park) (Seen park) r.piece_id (
                r,
                m,
                refl,
                (
                  path,
                  h,
                  subst
                      (λ fs.
                        ((f : File) × (lookup path fs ≡ some f)) ⊎ ((n : ℕ) × (env.fault n ≡ true)))
                      k.2 (found_stat env w.calls path _ found),
                ),
              ))
              park.pieces w.store.park.pieces k.0,
          k.1,
          k.2,
        )
      ]

  check_row-FlagsOnly :
      (park : Park) (r : Row) (w : World Pass)
      → Member r (rows park.pieces park.refs)
      → FlagsOnly park w.store.park
      → FlagsOnly park (check_row parse cwd stash_dir env r w).1.store.park
  unfolding check_row
  check_row-FlagsOnly park r w m k = elim (Bool-cases (env.owned w.calls)) [
    | inl o ↦ rw o (check_file-FlagsOnly park r _ (on_store counted_checked (ticked w)) m refl k)
    | inr o ↦ rw o k
  ]

  -- Whatever fails, the integrity pass changes nothing but `integrity_missing_at`, sets it only for a
  -- piece whose file is missing, and clears it only for a piece whose file was not found missing:
  -- it is there, or a call failed.
  pub integrity_pass-FlagsOnly :
      (w : World Pass)
      → FlagsOnly w.store.park (integrity_pass parse cwd stash_dir env w).1.store.park
  unfolding integrity_pass
  integrity_pass-FlagsOnly w = elim (Bool-cases (env.fault w.calls)) [
    | inl f ↦ rw f (FlagsOnly-refl w.store.park)
    | inr f ↦ rw f (
        let park = w.store.park in
        let all = rows park.pieces park.refs in
        for_each_inv_of (λ v. FlagsOnly park v.store.park) (λ r. Member r all)
          (check_row parse cwd stash_dir env) (λ r v m k. check_row-FlagsOnly park r v m k) all
          (ticked w) (All-self all) (FlagsOnly-refl park))
  ]
