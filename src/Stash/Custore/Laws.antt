-- ===== src/Stash/Custore/Laws.antt =====
-- The safety check of the custore URLs, and its agreement with the paths that `diskstash` hands out.
use curio_core.Base.{
  true, false, Option, none, some, List, [], ◌∷◌, ◌++◌, Bytes, bytes_eq, has_prefix, All,
  All-append, ◌||◌, OnSome, ◌≡◌, refl, sym, ap, subst, ◌∙◌, arith,
}
use curio_core.Stash.Path.{
  FilePath, slash, dot_dot, is_abs, clean, abs, rel, rel_text, text, join, join_path,
}
use curio_core.Stash.Path.Laws.{
  IsName, NotUp, rel_elements-below, rel_elements-append, clean-NotUp, clean-text, join_name,
  is_abs-text,
}
use curio_core.Stash.Custore.{
  Url, ok, custore, check_inside, check_base, check_url, stash_path_from_custore_url,
}
use curio_core.Stash.Disk.{Store, stash_name, stash_file, stash_url}

-- `p` is the base directory or a path below it, and goes up nowhere
abbrev pub Inside : FilePath → FilePath → Type 0
Inside base p =
    (r : List Bytes) × (p ≡ record { rooted = base.rooted; elements = base.elements ++ r })
    × All NotUp p.elements

clean-rooted : (s : Bytes) → (clean s).rooted ≡ is_abs s
unfolding clean
clean-rooted s = refl

-- an absolute path stays one, and a relative one is put behind the working directory
abs-rooted :
    (cwd : Option Bytes) (path : Bytes) (base : FilePath)
    → OnSome (λ wd. is_abs wd ≡ true) cwd
    → abs cwd path ≡ some base
    → base.rooted ≡ true
unfolding abs join
abs-rooted none path base c h = ground (arith, clean-rooted path)
abs-rooted (some []) path base c h = cc
abs-rooted (some (d ∷ wd)) path base c h =
    ground (arith, clean-rooted path, clean-rooted ((d ∷ wd) ++ (slash ∷ path)))

rel-below :
    (base q : FilePath) (r : List Bytes)
    → rel base q ≡ some r
    → has_prefix (rel_text r) dot_dot ≡ false
    → q ≡ record { rooted = base.rooted; elements = base.elements ++ r }
unfolding rel
rel-below base q r h n = ground (arith, rel_elements-below base.elements q.elements r)

check_inside_parts :
    (r : List Bytes) (q p : FilePath)
    → check_inside (some r) q ≡ ok p
    → (p ≡ q) × (has_prefix (rel_text r) dot_dot ≡ false)
unfolding check_inside
check_inside_parts r q p h = ground arith

check_inside-Inside :
    (base p : FilePath) (path : Bytes) (o : Option (List Bytes))
    → base.rooted ≡ true
    → rel base (clean path) ≡ o
    → check_inside o (clean path) ≡ ok p
    → Inside base p
unfolding clean
check_inside-Inside base p path none b e h = unfold check_inside in cc
check_inside-Inside base p path (some r) b e h =
    let (same, below) = check_inside_parts r (clean path) p h in
    let place = rel-below base (clean path) r e below in
    let from_root : is_abs path ≡ true = ap (λ q. q.rooted) place ∙ b in
    (r, same ∙ place, subst (λ q. All NotUp q.elements) (sym same) (clean-NotUp path from_root))

check_base-Inside :
    (cwd : Option Bytes) (stash_dir path : Bytes) (p : FilePath) (o : Option FilePath)
    → OnSome (λ wd. is_abs wd ≡ true) cwd
    → abs cwd stash_dir ≡ o
    → check_base o path ≡ ok p
    → (base : FilePath) × (o ≡ some base) × Inside base p
unfolding check_base
check_base-Inside cwd stash_dir path p none c e h = cc
check_base-Inside cwd stash_dir path p (some base) c e h = (
  base,
  refl,
  check_inside-Inside base p path (rel base (clean path)) (abs-rooted cwd stash_dir base c e) refl
      h,
)

check_url-base :
    (cwd : Option Bytes) (stash_dir : Bytes) (p : FilePath) (o : Option Url)
    → check_url cwd stash_dir o ≡ ok p
    → (path : Bytes) × (check_base (abs cwd stash_dir) path ≡ ok p)
unfolding check_url
check_url-base cwd stash_dir p none h = cc
check_url-base cwd stash_dir p (some u) h = (u.path, ground arith)

abbrev pub at_root : List Bytes → FilePath
at_root es = record { rooted = true; elements = es }

abbrev pub store_at : List Bytes → Store
store_at dirs = record { dir = text (at_root dirs) }

join_path-not_empty :
    (dirs : List Bytes) (n : Bytes) → IsName n → bytes_eq (join_path (dirs ++ (n ∷ []))) [] ≡ false
unfolding join_path
join_path-not_empty [] n h = h.not_empty
join_path-not_empty ([] ∷ []) n h = refl
join_path-not_empty ((c ∷ d) ∷ []) n h = refl
join_path-not_empty ([] ∷ e ∷ dirs) n h = refl
join_path-not_empty ((c ∷ d) ∷ e ∷ dirs) n h = refl

check_name :
    (cwd : Option Bytes) (dirs : List Bytes) (n : Bytes)
    → All IsName dirs
    → IsName n
    → has_prefix n dot_dot ≡ false
    → check_url cwd
        (text (at_root dirs))
        (some (record { scheme = custore; path = text (at_root (dirs ++ (n ∷ []))) }))
      ≡ ok (at_root (dirs ++ (n ∷ [])))
unfolding check_url check_base check_inside abs rel rel_text
check_name cwd dirs n hd hn up =
    rw
      (
        join_path_shown,
        is_abs-text dirs,
        clean-text dirs hd,
        clean-text _ all_names,
        rel_elements-append,
      )
      (rw up)
  where
    all_names : All IsName (dirs ++ (n ∷ []))
    all_names = All-append IsName dirs (n ∷ []) hd (hn, tt)

    join_path_shown :
        (bytes_eq (text (at_root (dirs ++ (n ∷ [])))) []
          || bytes_eq (text (at_root (dirs ++ (n ∷ [])))) (slash ∷ []))
        ≡ false
    join_path_shown = unfold text in join_path-not_empty dirs n hn

module _ (parse : Bytes → Option Url) (cwd : Option Bytes) where
  -- A path that is resolved lies in the stash directory and has no `..`, whatever the URL was and
  -- whatever the URL parser made of it, if the working directory is an absolute path.
  pub resolved-Inside :
      (data_url stash_dir : Bytes) (p : FilePath)
      → OnSome (λ wd. is_abs wd ≡ true) cwd
      → stash_path_from_custore_url parse cwd data_url stash_dir ≡ ok p
      → (base : FilePath) × (abs cwd stash_dir ≡ some base) × Inside base p
  unfolding stash_path_from_custore_url
  resolved-Inside data_url stash_dir p c h =
      let (path, at_base) = check_url-base cwd stash_dir p (parse data_url) h in
      check_base-Inside cwd stash_dir path p (abs cwd stash_dir) c refl at_base

  -- The URL of a stash file, with its scheme rewritten to custore, leads back to the file that
  -- `diskstash` wrote, if the stash directory is absolute and clean, and the id is a plain name
  -- that does not begin with `..`.
  pub resolved-stash_url :
      (dirs : List Bytes) (id data_url : Bytes)
      → All IsName dirs
      → IsName (stash_name id)
      → has_prefix (stash_name id) dot_dot ≡ false
      → parse data_url
        ≡ some (record { scheme = custore; path = (stash_url (store_at dirs) id).path })
      → stash_path_from_custore_url parse cwd data_url (store_at dirs).dir
        ≡ ok (stash_file (store_at dirs) id)
  unfolding stash_path_from_custore_url stash_url stash_file
  resolved-stash_url dirs id data_url hd hn up e =
      rw (e, join_name dirs (stash_name id) hd hn) (check_name cwd dirs (stash_name id) hd hn up)
