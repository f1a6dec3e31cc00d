-- ===== src/Storage/DataPath.antt =====
-- internal/datapath/datapath.go: `Resolve`, `discoverLabelled`, `findLabelDirs`.
--
-- The mounts, their directories, the free space and the environment variables are read from the
-- system: they are arguments. Mount points are absolute and clean, so that `filepath.Abs` keeps a
-- path below one. A directory that cannot be read is one without entries.
pub mod Laws
use curio_core.Stash.Path.{elements_eq, join_path, slash}
use curio_core.Base.{
  sym, false, true, head, tail, OnSome, Member, refl, append_assoc, ◌∙◌, bytes_lt, All-weaken,
  All-append, ltb, ◌<◌, ◌==◌, bytes_eq_iff, length, ◌≤◌, not, any, bytes_eq, Bool-cases, ◌≡◌, ◌∷◌,
  ◌++◌, if◌then◌else◌, codes, All, Bytes, Bool, Option, List, suc, zero, arith, ap, inr, inl, some,
  none, [], ℕ,
}

mutual
  -- an entry of a directory: its name, whether it is a directory and no link, and what is in it
  pub data Tree : Type 0 where
    entry : Bytes → Bool → Trees → Tree

  pub data Trees : Type 0 where
    no_more : Trees
    more : Tree → Trees → Trees

abbrev pub label_dir : Bytes
label_dir = codes "curio-pdp-data"

abbrev pub max_depth : ℕ
max_depth = 3

abbrev pub below : List Bytes → Bytes → List Bytes
below dir name = dir ++ (name ∷ [])

-- `walk`, with the number of levels that are left; paths are lists of elements
unfoldable pub walk : ℕ → List Bytes → Trees → List (List Bytes)
walk zero dir es = []
walk (suc n) dir no_more = []
walk (suc n) dir (more (entry name is_dir inside) es) =
    let deeper = walk n (below dir name) inside in
    let rest = walk (suc n) dir es in
    if is_dir
    then (if bytes_eq name label_dir then below dir name ∷ rest else deeper ++ rest)
    else rest

pub record Mount : Type 0 where
  pub point : List Bytes
  pub entries : Trees

unfoldable pub find_label_dirs : ℕ → Mount → List (List Bytes)
find_label_dirs depth m = walk depth m.point m.entries

pub record Cand : Type 0 where
  pub path : List Bytes
  pub free : ℕ

abbrev pub add_cand : (List Bytes → ℕ) → List Bytes → List Cand → List Cand
add_cand free hit found =
    if any (λ c. elements_eq c.path hit) found
    then found
    else found ++ (record { path = hit; free = free hit } ∷ [])

abbrev pub add_cands : (List Bytes → ℕ) → List (List Bytes) → List Cand → List Cand
add_cands free [] found = found
add_cands free (hit ∷ hits) found = add_cands free hits (add_cand free hit found)

unfoldable pub cands_of : (List Bytes → ℕ) → ℕ → List Mount → List Cand → List Cand
cands_of free depth [] found = found
cands_of free depth (m ∷ ms) found =
    cands_of free depth ms (add_cands free (find_label_dirs depth m) found)

abbrev pub path_text : List Bytes → Bytes
path_text es = slash ∷ join_path es

-- most free space first, then the shortest path, then the order of text
unfoldable pub is_less : Cand → Cand → Bool
is_less a b =
    if not (a.free == b.free)
    then ltb b.free a.free
    else if not (length (path_text a.path) == length (path_text b.path))
    then ltb (length (path_text a.path)) (length (path_text b.path))
    else bytes_lt (path_text a.path) (path_text b.path)

abbrev pub insert_cand : Cand → List Cand → List Cand
insert_cand c [] = c ∷ []
insert_cand c (d ∷ ds) = let rest = insert_cand c ds in if is_less d c then d ∷ rest else c ∷ d ∷ ds

-- `sort.Slice`
unfoldable pub sort_cands : List Cand → List Cand
sort_cands [] = []
sort_cands (c ∷ cs) = insert_cand c (sort_cands cs)

abbrev pub first_path : List Cand → Option (List Bytes)
first_path [] = none
first_path (c ∷ cs) = some c.path

unfoldable pub discover_labelled : (List Bytes → ℕ) → List Mount → ℕ → Option (List Bytes)
discover_labelled free mounts depth = first_path (sort_cands (cands_of free depth mounts []))

pub data Source : Type 0 where
  flag discovered fallback : Source
  env : Bytes → Source

pub record Choice : Type 0 where
  pub path : Bytes
  pub source : Source

-- the first of the variables that is set to a text
abbrev pub first_set : (Bytes → Bytes) → List Bytes → Option Choice
first_set getenv [] = none
first_set getenv (name ∷ names) =
    let rest = first_set getenv names in
    if bytes_eq (getenv name) []
    then rest
    else some (record { path = getenv name; source = env name })

abbrev pub env_vars : List Bytes
env_vars = codes "CURIO_PDP_DATA" ∷ codes "DATA_STORAGE" ∷ codes "CURIO_DATA" ∷ []

abbrev pub or_discovered : Option Choice → Option (List Bytes) → Bytes → Choice
or_discovered (some r) found default = r
or_discovered none (some p) default = record { path = path_text p; source = discovered }
or_discovered none none default = record { path = default; source = fallback }

unfoldable pub resolve_path :
    (Bytes → Bytes) → (List Bytes → ℕ) → List Mount → Bytes → Bytes → Choice
resolve_path getenv free mounts explicit default =
    if not (bytes_eq explicit [])
    then record { path = explicit; source = flag }
    else or_discovered (first_set getenv env_vars) (discover_labelled free mounts max_depth) default
