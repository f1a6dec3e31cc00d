-- ===== src/Stash/Disk/Laws.antt =====
-- What the stash holds after each of its operations.
use curio_core.Base.{
  ℕ, suc, Bool, true, false, none, some, [], Bytes, ◌≡◌, refl, arith, if◌then◌else◌, Bool-cases,
  inl, inr,
}
use curio_core.Env.{Env, World, ticked}
use curio_core.Stash.Path.{FilePath, path_eq}
use curio_core.Stash.Path.Laws.{path_eq_refl}
use curio_core.Stash.Files.{File, Files, lookup, put, without, remove, file_laws}
use curio_core.Stash.Disk.{Store, stash_file, stash_create, serve_and_remove, close}

module _ (env : Env) (s : Store) (id written : Bytes) (w : World Files) where
  -- `StashCreate` touches no file but its own, whatever fails.
  pub create_keeps_others :
      (write_ok : Bool) (q : FilePath)
      → path_eq (stash_file s id) q ≡ false
      → lookup q (stash_create env s id written write_ok w).1.store ≡ lookup q w.store
  unfolding stash_create remove
  create_keeps_others true q h = elim (Bool-cases (env.fault w.calls)) [
    | inl f ↦ rw f
    | inr f ↦ rw f (simp file_laws (rw h))
  ]
  create_keeps_others false q h = elim (Bool-cases (env.fault w.calls)) [
    | inl f ↦ rw f
    | inr f ↦ rw f (elim (Bool-cases (env.fault (suc w.calls))) [
      | inl g ↦ rw g (simp file_laws (rw h))
      | inr g ↦ rw g (simp file_laws (rw h))
    ])
  ]

  -- A `StashCreate` whose `writeFunc` fails leaves no file behind: its own is gone and the others
  -- are as before, if opening and removing do not fail.
  pub create_fails_clean :
      (q : FilePath)
      → env.fault w.calls ≡ false
      → env.fault (suc w.calls) ≡ false
      → lookup q (stash_create env s id written false w).1.store
        ≡ (if path_eq (stash_file s id) q then none else lookup q w.store)
  unfolding stash_create remove
  create_fails_clean q f g = rw (f, g) (simp file_laws (ground arith))

module _ (env : Env) (s : Store) (id : Bytes) (w : World Files)
    (f : env.fault w.calls ≡ false) where
  create_ok :
      (written : Bytes)
      → stash_create env s id written true w ≡ (
        some id,
        record {
          store =
              put
                (stash_file s id)
                written
                (env.time (suc w.calls))
                (put (stash_file s id) [] (env.time w.calls) w.store);
          calls = suc w.calls;
        },
      )
  unfolding stash_create
  create_ok written = rw f

  serve_ok :
      (file : File)
      → lookup (stash_file s id) w.store ≡ some file
      → serve_and_remove env s id w ≡ (some file.content, ticked w)
  unfolding serve_and_remove
  serve_ok file l = rw (f, l)

  close_ok :
      (file : File)
      → env.fault (suc w.calls) ≡ false
      → lookup (stash_file s id) w.store ≡ some file
      → close env s id w
        ≡ (true, record { store = without (stash_file s id) w.store; calls = suc (suc w.calls) })
  unfolding close remove
  close_ok file g l = rw (f, g, l)

-- Where no call fails, a piece that was stashed is served as it was written, and closing the reader
-- removes its file and nothing else.
pub stash_round_trip :
    (env : Env) (s : Store) (id written : Bytes) (w : World Files)
    → ((n : ℕ) → env.fault n ≡ false)
    → let (created, w₁) = stash_create env s id written true w in
      let (served, w₂) = serve_and_remove env s id w₁ in
      let (closed, w₃) = close env s id w₂ in
      (created ≡ some id)
      × (served ≡ some written)
      × (closed ≡ true)
      × ((q : FilePath)
          → lookup q w₃.store ≡ (if path_eq (stash_file s id) q then none else lookup q w.store))
stash_round_trip env s id written w h =
    let p = stash_file s id in
    let file : File = record {
      path = p;
      is_dir = false;
      content = written;
      mod_time = env.time (suc w.calls);
    } in
    let stored : World Files = record {
      store = put p written (env.time (suc w.calls)) (put p [] (env.time w.calls) w.store);
      calls = suc w.calls;
    } in
    let found : lookup p stored.store ≡ some file = simp (file_laws, path_eq_refl) in
    rw
      (
        create_ok env s id w (h w.calls) written,
        serve_ok env s id stored (h _) file found,
        close_ok env s id (ticked stored) (h _) file (h _) found,
      )
      (refl, refl, refl, λ q. simp file_laws (ground arith))
