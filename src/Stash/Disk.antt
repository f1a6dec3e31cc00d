-- ===== src/Stash/Disk.antt =====
-- internal/diskstash: the store of stash files, `<dir>/<uuid>.tmp`.
--
-- `uuid.New` is outside: the new id is an argument. `writeFunc` is the caller's: it is the bytes that
-- it writes, and whether it returns without an error.
pub mod Laws
use curio_core.Base.{
  ℕ, suc, Bool, true, false, Option, none, some, List, [], ◌∷◌, ◌++◌, Bytes, codes, if◌then◌else◌,
}
use curio_core.Env.{Env, World, ticked, exec}
use curio_core.Stash.Path.{FilePath, join, text}
use curio_core.Stash.Files.{File, Files, lookup, put, remove, Removal, removed, not_exist, failed}
use curio_core.Stash.Custore.{Url}

-- `Store`: its directory
pub record Store : Type 0 where
  pub dir : Bytes

abbrev pub stash_name : Bytes → Bytes
stash_name id = id ++ codes ".tmp"

unfoldable pub stash_file : Store → Bytes → FilePath
stash_file s id = join s.dir (stash_name id)

-- the error of `os.Remove` is dropped here
abbrev drop_file : Env → FilePath → World Files → World Files
drop_file env path w = (remove env path w).1

-- `writeFunc(f)` on the open file, and the removal when it fails
finish_write : Env → FilePath → Bytes → Bytes → Bool → World Files → Option Bytes × World Files
finish_write env path id written write_ok w =
    let w' : World Files = record w { store = put path written (env.time w.calls) w.store } in
    if write_ok then (some id, w') else (none, drop_file env path w')

-- `StashCreate`; opening truncates an existing file
unfoldable pub stash_create :
    Env → Store → Bytes → Bytes → Bool → World Files → Option Bytes × World Files
unfolding finish_write
stash_create env s id written write_ok w =
    let path = stash_file s id in
    let (opened, w') = exec env (put path [] (env.time w.calls)) w in
    if opened then finish_write env path id written write_ok w' else (none, w')

-- `ServeAndRemove`: the open file reads what is there now
unfoldable pub serve_and_remove : Env → Store → Bytes → World Files → Option Bytes × World Files
serve_and_remove env s id w =
    if env.fault w.calls then (none, ticked w) else elim (lookup (stash_file s id) w.store) [
      | none ↦ (none, ticked w)
      | some f ↦ (some f.content, ticked w)
    ]

-- is an error left of a removal for which a missing file is no error?
abbrev removal_ok : Removal → Bool
removal_ok failed = false
removal_ok _ = true

-- `removeOnClose.Close`: closes the file, then removes it, also when closing failed; true when there
-- is no error
unfoldable pub close : Env → Store → Bytes → World Files → Bool × World Files
close env s id w =
    let (r, w') = remove env (stash_file s id) (ticked w) in
    (if env.fault w.calls then false else removal_ok r, w')

-- `StashRemove`; true when there is no error
unfoldable pub stash_remove : Env → Store → Bytes → World Files → Bool × World Files
stash_remove env s id w = let (r, w') = remove env (stash_file s id) w in (removal_ok r, w')

-- `StashURL`
unfoldable pub stash_url : Store → Bytes → Url
unfolding stash_file
stash_url s id = record { scheme = codes "file"; path = text (stash_file s id) }
