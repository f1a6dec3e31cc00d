-- ===== src/Stash/Path.antt =====
-- File paths: `path/filepath` on Unix, as far as the program uses it.
--
-- A path that `Clean` returns is kept as its parts: whether it starts at the root, and its elements.
-- `text` writes it out.
pub mod Laws
use curio_core.Base.{
  ℕ, suc, Bool, true, false, ◌&&◌, ◌||◌, not, Option, none, some, List, [], ◌∷◌, ◌++◌, Bytes,
  bytes_eq, ◌==◌, if◌then◌else◌,
}

pub record FilePath : Type 0 where
  pub rooted : Bool
  pub elements : List Bytes

abbrev pub slash : ℕ
slash = b'/'

abbrev pub dot : Bytes
dot = b'.' ∷ []

abbrev pub dot_dot : Bytes
dot_dot = b'.' ∷ b'.' ∷ []

abbrev pub cons_head : ℕ → List Bytes → List Bytes
cons_head c [] = (c ∷ []) ∷ []
cons_head c (p ∷ ps) = (c ∷ p) ∷ ps

unfoldable pub split_path : Bytes → List Bytes
split_path [] = [] ∷ []
split_path (c ∷ s) = let rest = split_path s in if c == slash then [] ∷ rest else cons_head c rest

unfoldable pub join_path : List Bytes → Bytes
join_path [] = []
join_path (e ∷ []) = e
join_path (e ∷ f ∷ es) = e ++ (slash ∷ join_path (f ∷ es))

-- One element of the input of `Clean`, on the reversed elements so far.
unfoldable pub clean_step : Bool → List Bytes → Bytes → List Bytes
clean_step rooted out e =
    if bytes_eq e [] || bytes_eq e dot
    then out
    else if bytes_eq e dot_dot
    then elim out [
      | [] ↦ if rooted then [] else dot_dot ∷ []
      | p ∷ ps ↦ if bytes_eq p dot_dot then dot_dot ∷ p ∷ ps else ps
    ]
    else e ∷ out

unfoldable pub clean_loop : Bool → List Bytes → List Bytes → List Bytes
unfolding clean_step
clean_loop rooted out [] = out
clean_loop rooted out (e ∷ es) = clean_loop rooted (clean_step rooted out e) es

abbrev pub reversed : List Bytes → List Bytes → List Bytes
reversed [] acc = acc
reversed (e ∷ es) acc = reversed es (e ∷ acc)

abbrev pub is_abs : Bytes → Bool
is_abs [] = false
is_abs (c ∷ s) = c == slash

-- filepath.Clean
unfoldable pub clean : Bytes → FilePath
unfolding clean_loop split_path
clean s = record {
  rooted = is_abs s;
  elements = reversed (clean_loop (is_abs s) [] (split_path s)) [];
}

-- the text of a clean path
unfoldable pub text : FilePath → Bytes
unfolding join_path
text p =
    if p.rooted
    then slash ∷ join_path p.elements
    else elim p.elements [ [] ↦ dot | e ∷ es ↦ join_path (e ∷ es) ]

-- filepath.Join of a directory and a name or a path below it
unfoldable pub join : Bytes → Bytes → FilePath
join dir name = clean (dir ++ (slash ∷ name))

-- filepath.Abs; the working directory may be unavailable
unfoldable pub abs : Option Bytes → Bytes → Option FilePath
abs cwd path =
    if is_abs path
    then some (clean path)
    else elim cwd [ none ↦ none | some wd ↦ some (join wd path) ]

abbrev pub elements_eq : List Bytes → List Bytes → Bool
elements_eq [] [] = true
elements_eq [] (d ∷ ds) = false
elements_eq (c ∷ cs) [] = false
elements_eq (c ∷ cs) (d ∷ ds) = bytes_eq c d && elements_eq cs ds

abbrev pub bool_eq : Bool → Bool → Bool
bool_eq true b = b
bool_eq false b = not b

unfoldable pub path_eq : FilePath → FilePath → Bool
path_eq p q = bool_eq p.rooted q.rooted && elements_eq p.elements q.elements

abbrev pub ups : List Bytes → List Bytes → List Bytes
ups [] target = target
ups (b ∷ bs) target = dot_dot ∷ ups bs target

-- what remains of the base and the target behind their common elements
unfoldable pub rel_elements : List Bytes → List Bytes → Option (List Bytes)
rel_elements [] target = some target
rel_elements (b ∷ bs) [] = some (ups (b ∷ bs) [])
rel_elements (b ∷ bs) (t ∷ ts) =
    let rest = rel_elements bs ts in
    if bytes_eq b t then rest else if bytes_eq b dot_dot then none else some (ups (b ∷ bs) (t ∷ ts))

-- filepath.Rel of clean paths, as elements; `.` is no element
unfoldable pub rel : FilePath → FilePath → Option (List Bytes)
rel base target =
    if bool_eq base.rooted target.rooted then rel_elements base.elements target.elements else none

unfoldable pub rel_text : List Bytes → Bytes
unfolding join_path
rel_text [] = dot
rel_text (e ∷ es) = join_path (e ∷ es)
