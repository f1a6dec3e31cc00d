-- ===== src/Stash/Custore.antt =====
-- internal/parkcomplete, `stashPathFromCustoreURL`: the path behind a custore URL, refused unless it
-- lies in the stash directory.
--
-- `net/url.Parse` is the parameter `parse`: `none` is its error. Nothing is assumed of it.
pub mod Laws
use curio_core.Base.{
  ◌||◌, not, Option, none, some, List, [], ◌∷◌, Bytes, bytes_eq, codes, has_prefix, if◌then◌else◌,
}
use curio_core.Stash.Path.{FilePath, slash, dot_dot, clean, abs, rel, rel_text}

pub record Url : Type 0 where
  pub scheme : Bytes
  pub path : Bytes

pub data PathError : Type 0 where
  bad_url bad_scheme no_path no_abs outside : PathError

pub data Resolved : Type 0 where
  ok : FilePath → Resolved
  err : PathError → Resolved

abbrev pub custore : Bytes
custore = codes "custore"

-- `err != nil || strings.HasPrefix(rel, "..")` refuses
check_inside : Option (List Bytes) → FilePath → Resolved
check_inside none candidate = err outside
check_inside (some r) candidate =
    if has_prefix (rel_text r) dot_dot then err outside else ok candidate

check_base : Option FilePath → Bytes → Resolved
unfolding check_inside
check_base none path = err no_abs
check_base (some base) path =
    let candidate = clean path in check_inside (rel base candidate) candidate

check_url : Option Bytes → Bytes → Option Url → Resolved
unfolding check_base
check_url cwd stash_dir none = err bad_url
check_url cwd stash_dir (some u) =
    if not (bytes_eq u.scheme custore)
    then err bad_scheme
    else if bytes_eq u.path [] || bytes_eq u.path (slash ∷ [])
    then err no_path
    else check_base (abs cwd stash_dir) u.path

module _ (parse : Bytes → Option Url) (cwd : Option Bytes) where
  unfoldable pub stash_path_from_custore_url : Bytes → Bytes → Resolved
  unfolding check_url
  stash_path_from_custore_url data_url stash_dir = check_url cwd stash_dir (parse data_url)
