-- ===== src/Stash/Path/Laws.antt =====
-- Laws of clean paths: what `Clean` keeps, and what `Rel` finds.
use curio_core.Base.{
  Bool, true, false, some, List, [], ◌∷◌, ◌++◌, Bytes, bytes_eq, bytes_eq_iff, bytes_eq_refl,
  has_prefix, All, All-append, ◌≡◌, refl, ◌∙◌, ap, arith, ◌↔◌, ◌==◌, append-nil, append_assoc,
}
use curio_core.Stash.Path.{
  FilePath, slash, dot, dot_dot, split_path, join_path, clean_step, clean_loop, reversed, clean,
  text, join, ups, is_abs, elements_eq, path_eq, rel_elements, rel_text,
}

-- an element that `Clean` keeps as it is: a name
pub record IsName (e : Bytes) : Type 0 where
  pub not_empty : bytes_eq e [] ≡ false
  pub not_dot : bytes_eq e dot ≡ false
  pub not_dot_dot : bytes_eq e dot_dot ≡ false
  pub no_slash : All (λ c. (c == slash) ≡ false) e

-- a way up shows in the text of a relative path
ups-has_prefix :
    (b : Bytes) (bs target : List Bytes)
    → has_prefix (rel_text (ups (b ∷ bs) target)) dot_dot ≡ true
unfolding rel_text
ups-has_prefix b [] [] = refl
ups-has_prefix b [] (t ∷ ts) = refl
ups-has_prefix b (c ∷ bs) target = refl

-- A remainder that does not begin with `..` lies below the base.
pub rel_elements-below :
    (base target r : List Bytes)
    → rel_elements base target ≡ some r
    → has_prefix (rel_text r) dot_dot ≡ false
    → target ≡ base ++ r
unfolding rel_elements
rel_elements-below [] target r e h = ground arith
rel_elements-below (b ∷ bs) [] r e h = ground (arith, ups-has_prefix b bs [])
rel_elements-below (b ∷ bs) (t ∷ ts) r e h =
    ground (arith, ups-has_prefix b bs (t ∷ ts), rel_elements-below bs ts r, bytes_eq_iff b t)

-- The way from a base to a path below it is the remainder.
pub rel_elements-append : (base r : List Bytes) → rel_elements base (base ++ r) ≡ some r
unfolding rel_elements
rel_elements-append [] r = refl
rel_elements-append (b ∷ bs) r = rw (bytes_eq_refl b) (rel_elements-append bs r)

abbrev pub NotUp : Bytes → Type 0
NotUp e = bytes_eq e dot_dot ≡ false

clean_step-NotUp :
    (out : List Bytes) (e : Bytes) → All NotUp out → All NotUp (clean_step true out e)
unfolding clean_step
clean_step-NotUp [] e h = ground arith
clean_step-NotUp (p ∷ ps) e h = ground arith

clean_loop-NotUp : (out es : List Bytes) → All NotUp out → All NotUp (clean_loop true out es)
unfolding clean_loop
clean_loop-NotUp out [] h = h
clean_loop-NotUp out (e ∷ es) h =
    clean_loop-NotUp (clean_step true out e) es (clean_step-NotUp out e h)

reversed-All :
    (P : Bytes → Type 0) (es acc : List Bytes) → All P es → All P acc → All P (reversed es acc)
reversed-All P [] acc _ h = h
reversed-All P (e ∷ es) acc he h = reversed-All P es (e ∷ acc) he.1 (he.0, h)

-- `Clean` leaves no `..` in a path from the root.
pub clean-NotUp : (s : Bytes) → is_abs s ≡ true → All NotUp (clean s).elements
unfolding clean
clean-NotUp s h = rw h (reversed-All NotUp _ [] (clean_loop-NotUp [] (split_path s) tt) tt)

reversed-reversed :
    (es acc out : List Bytes) → reversed (reversed es acc) out ≡ reversed acc (es ++ out)
reversed-reversed [] acc out = refl
reversed-reversed (e ∷ es) acc out = reversed-reversed es (e ∷ acc) out

clean_step_name :
    (rooted : Bool) (out : List Bytes) (e : Bytes) → IsName e → clean_step rooted out e ≡ e ∷ out
unfolding clean_step
clean_step_name rooted out e h = rw (h.not_empty, h.not_dot, h.not_dot_dot)

clean_loop_names :
    (rooted : Bool) (out es : List Bytes)
    → All IsName es
    → clean_loop rooted out es ≡ reversed es out
unfolding clean_loop
clean_loop_names rooted out [] h = refl
clean_loop_names rooted out (e ∷ es) h =
    rw (clean_step_name rooted out e h.0) (clean_loop_names rooted (e ∷ out) es h.1)

split_name : (e : Bytes) → All (λ c. (c == slash) ≡ false) e → split_path e ≡ e ∷ []
unfolding split_path
split_name [] h = refl
split_name (c ∷ e) h = rw (h.0, split_name e h.1)

split_name_slash :
    (e s : Bytes)
    → All (λ c. (c == slash) ≡ false) e
    → split_path (e ++ (slash ∷ s)) ≡ e ∷ split_path s
unfolding split_path
split_name_slash [] s h = refl
split_name_slash (c ∷ e) s h = rw (h.0, split_name_slash e s h.1)

split-join_path :
    (e : Bytes) (es : List Bytes) → All IsName (e ∷ es) → split_path (join_path (e ∷ es)) ≡ e ∷ es
unfolding join_path
split-join_path e [] h = split_name e h.0.no_slash
split-join_path e (f ∷ es) h =
    rw (split_name_slash e _ h.0.no_slash) (ap (λ t. e ∷ t) (split-join_path f es h.1))

-- `Clean` gives a path from the root back, if its elements are names.
pub clean-text :
    (es : List Bytes)
    → All IsName es
    → clean (text (record { rooted = true; elements = es }))
      ≡ record { rooted = true; elements = es }
unfolding clean text
clean-text [] h = refl
clean-text (e ∷ es) h =
    let parts : List Bytes → FilePath = λ t. record { rooted = true; elements = t } in
    ap (λ t. parts (reversed (clean_loop true [] ([] ∷ t)) [])) (split-join_path e es h)
    ∙ ap (λ t. parts (reversed t [])) (clean_loop_names true [] (e ∷ es) h)
    ∙ ap parts (reversed-reversed (e ∷ es) [] [] ∙ append-nil (e ∷ es))

join_path-append :
    (e : Bytes) (es : List Bytes) (n : Bytes)
    → join_path (e ∷ es) ++ (slash ∷ n) ≡ join_path ((e ∷ es) ++ (n ∷ []))
unfolding join_path
join_path-append e [] n = refl
join_path-append e (f ∷ es) n =
    append_assoc e (slash ∷ join_path (f ∷ es)) (slash ∷ n)
    ∙ ap (λ t. e ++ (slash ∷ t)) (join_path-append f es n)

-- A file of a clean directory is the directory's elements and the name.
pub join_name :
    (es : List Bytes) (n : Bytes)
    → All IsName es
    → IsName n
    → join (text (record { rooted = true; elements = es })) n
      ≡ record { rooted = true; elements = es ++ (n ∷ []) }
unfolding join text clean
join_name [] n h hn =
    let parts : List Bytes → FilePath = λ t. record { rooted = true; elements = t } in
    ap (λ t. parts (reversed (clean_loop true [] ([] ∷ [] ∷ t)) [])) (split_name n hn.no_slash)
    ∙ ap (λ t. parts (reversed t [])) (clean_loop_names true [] (n ∷ []) (hn, tt))
join_name (e ∷ es) n h hn =
    ap (λ t. clean (slash ∷ t)) (join_path-append e es n)
    ∙ clean-text ((e ∷ es) ++ (n ∷ [])) (All-append IsName (e ∷ es) (n ∷ []) h (hn, tt))

pub is_abs-text : (es : List Bytes) → is_abs (text (record { rooted = true; elements = es })) ≡ true
unfolding text
is_abs-text es = refl

pub elements_eq_iff : (a b : List Bytes) → (elements_eq a b ≡ true) ↔ (a ≡ b)
elements_eq_iff [] [] = ground arith
elements_eq_iff [] (d ∷ b) = ground arith
elements_eq_iff (c ∷ a) [] = ground arith
elements_eq_iff (c ∷ a) (d ∷ b) = ground (arith, elements_eq_iff a b, bytes_eq_iff c d)

-- `path_eq` decides whether two clean paths are one.
pub path_eq_iff : (p q : FilePath) → (path_eq p q ≡ true) ↔ (p ≡ q)
unfolding path_eq
path_eq_iff p q = ground (arith, elements_eq_iff p.elements q.elements)

pub path_eq_refl : (p : FilePath) → path_eq p p ≡ true
path_eq_refl p = (path_eq_iff p p).1 refl
