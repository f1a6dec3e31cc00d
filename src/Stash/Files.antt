-- ===== src/Stash/Files.antt =====
-- The part of the file system that the program touches, and its calls `OpenFile`, `Stat`, `Remove`.
-- The table is by absolute path, and no links are followed; `located` is the file that a path names.
use curio_core.Base.{
  ℕ, Bool, false, Option, none, some, List, [], ◌∷◌, Bytes, if◌then◌else◌, ◌≡◌, arith,
}
use curio_core.Env.{Env, World, ticked}
use curio_core.Stash.Path.{FilePath, path_eq, join, text}
use curio_core.Stash.Path.Laws.{path_eq_iff}

pub record File : Type 0 where
  pub path : FilePath
  pub is_dir : Bool
  pub content : Bytes
  pub mod_time : ℕ

abbrev pub Files : Type 0
Files = List File

-- a relative path is one below the working directory
abbrev pub located : Option Bytes → FilePath → FilePath
located none p = p
located (some wd) p = if p.rooted then p else join wd (text p)

unfoldable pub lookup : FilePath → Files → Option File
lookup p [] = none
lookup p (f ∷ fs) = let rest = lookup p fs in if path_eq f.path p then some f else rest

-- every entry of that path goes
unfoldable pub without : FilePath → Files → Files
without p [] = []
without p (f ∷ fs) = let rest = without p fs in if path_eq f.path p then rest else f ∷ rest

-- the file with this content, in place of what was there
unfoldable pub put : FilePath → Bytes → ℕ → Files → Files
put p content time fs =
    record { path = p; is_dir = false; content = content; mod_time = time } ∷ without p fs

pub data Removal : Type 0 where
  removed not_exist failed : Removal

pub data Status : Type 0 where
  present absent unreadable : Status

abbrev pub status_of : Option File → Status
status_of none = absent
status_of (some f) = present

abbrev pub removal_of : Option File → Removal
removal_of none = not_exist
removal_of (some f) = removed

-- os.Stat, as the n-th call
unfoldable pub stat : Env → ℕ → FilePath → Files → Status
stat env n p fs = if env.fault n then unreadable else status_of (lookup p fs)

-- os.Remove
unfoldable pub remove : Env → FilePath → World Files → Removal × World Files
remove env p w =
    if env.fault w.calls
    then (failed, ticked w)
    else (removal_of (lookup p w.store), ticked (record w { store = without p w.store }))

pub lookup-without :
    (p q : FilePath) (fs : Files)
    → lookup q (without p fs) ≡ (if path_eq p q then none else lookup q fs)
unfolding lookup without
lookup-without p q [] = ground arith
lookup-without p q (f ∷ fs) =
    ground
      (arith, lookup-without p q fs, path_eq_iff f.path p, path_eq_iff f.path q, path_eq_iff p q)

pub lookup-put :
    (p q : FilePath) (content : Bytes) (time : ℕ) (fs : Files)
    → lookup q (put p content time fs) ≡ (
        if path_eq p q
        then some (record { path = p; is_dir = false; content = content; mod_time = time })
        else lookup q fs)
unfolding put lookup
lookup-put p q content time fs = ground (arith, lookup-without p q fs)

pub ruleset file_laws = (lookup-without, lookup-put)
