-- ===== src/Engine/Registry.antt =====
-- internal/engine/engine.go: `TaskRegistry`. The names of the task types come from another repository:
-- an argument. The registry's map is a list of its entries.
use mathlib.Core.List.{reverse}
use curio_core.Base.{
  append_assoc, ◌∙◌, append-nil, bytes_eq_iff, bytes_eq_refl, All-weaken, All-append, subst, ◌^◌,
  ◌*◌, map, bytes_lt, ◌≢◌, bytes_eq, any, All, find, ◌∷◌, if◌then◌else◌, ◌++◌, Bytes, Bool, Option,
  List, ℕ, arith, ap, sym, false, true, some, none, refl, [], ◌≡◌,
}

pub record TaskTypeDetails : Type 0 where
  pub name : Bytes
  pub max : Option ℕ  -- none where the number of tasks has no limit
  pub cpu : ℕ
  pub ram : ℕ
  pub max_failures : ℕ

abbrev pub Registry : Type 0
Registry = List TaskTypeDetails

-- `Get`
unfoldable pub get_task : Bytes → Registry → Option TaskTypeDetails
get_task name r = find (λ td. bytes_eq td.name name) r

-- `Has`
unfoldable pub has_task : Bytes → Registry → Bool
has_task name r = any (λ td. bytes_eq td.name name) r

-- `register`, none for an error
unfoldable pub register : TaskTypeDetails → Registry → Option Registry
unfolding has_task
register td r =
    if bytes_eq td.name [] then none else if has_task td.name r then none else some (r ++ (td ∷ []))

abbrev pub and_register : Option Registry → TaskTypeDetails → Option Registry
and_register none td = none
and_register (some r) td = register td r

abbrev pub register_all : List TaskTypeDetails → Option Registry → Option Registry
register_all [] r = r
register_all (td ∷ tds) r = register_all tds (and_register r td)

abbrev pub task : Bytes → Option ℕ → ℕ → ℕ → TaskTypeDetails
task name max ram_mib max_failures = record {
  name = name;
  max = max;
  cpu = 1;
  ram = ram_mib * 2 ^ 20;
  max_failures = max_failures;
}

pub record TaskNames : Type 0 where
  pub prove : Bytes
  pub pull_piece : Bytes
  pub save_cache : Bytes
  pub init_pp : Bytes
  pub prov_period : Bytes
  pub notify : Bytes
  pub del_data_set : Bytes
  pub term_fwss : Bytes
  pub chain_sync : Bytes

abbrev pub static_v0 : TaskNames → List TaskTypeDetails
static_v0 n =
    task n.prove (some 50) 256 5
    ∷ task n.pull_piece (some 50) 64 3
    ∷ task n.save_cache (some 50) 64 3
    ∷ task n.init_pp (some 50) 64 3
    ∷ task n.prov_period (some 50) 64 3
    ∷ task n.notify none 128 14
    ∷ task n.del_data_set (some 50) 64 3
    ∷ task n.term_fwss (some 50) 64 3
    ∷ task n.chain_sync (some 1) 64 3
    ∷ []

-- `BuildTaskRegistry`
unfoldable pub build_task_registry : TaskNames → Option Registry
build_task_registry n = register_all (static_v0 n) (some [])

-- the inner loop: a name moves left past greater ones; the list is that of the places, last first
abbrev pub move_left : Bytes → List Bytes → List Bytes
move_left x [] = x ∷ []
move_left x (y ∷ ys) = let rest = y ∷ move_left x ys in if bytes_lt x y then rest else x ∷ y ∷ ys

abbrev pub sort_places : List Bytes → List Bytes → List Bytes
sort_places placed [] = placed
sort_places placed (x ∷ xs) = sort_places (move_left x placed) xs

-- `Names`; the map gives its keys in any order, here that of the list
unfoldable pub names : Registry → List Bytes
names r = reverse (sort_places [] (map (λ td. td.name) r))

-- every entry is found under its name, which no other entry has
abbrev pub EachFound : Registry → Type 0
EachFound r = All (λ td. (get_task td.name r ≡ some td) × (td.name ≢ [])) r

find-append :
    (p : TaskTypeDetails → Bool) (r s : Registry) (x : TaskTypeDetails)
    → find p r ≡ some x
    → find p (r ++ s) ≡ some x
find-append p [] s x h = absurd (ground (arith, h))
find-append p (y ∷ r) s x h = ground (arith, h, find-append p r s x)

find-none :
    (p : TaskTypeDetails → Bool) (r : Registry) (x : TaskTypeDetails)
    → any p r ≡ false
    → p x ≡ true
    → find p (r ++ (x ∷ [])) ≡ some x
find-none p [] x h e = rw e refl
find-none p (y ∷ r) x h e = ground (arith, h, e, find-none p r x)

register-some :
    (td : TaskTypeDetails) (r r' : Registry)
    → register td r ≡ some r'
    → (bytes_eq td.name [] ≡ false)
      × (any (λ t. bytes_eq t.name td.name) r ≡ false)
      × (r ++ (td ∷ []) ≡ r')
unfolding register has_task
register-some td r r' e = ground (arith, e)

register-EachFound :
    (td : TaskTypeDetails) (r r' : Registry) → EachFound r → register td r ≡ some r' → EachFound r'
unfolding get_task
register-EachFound td r r' h e =
    let (n, k, q) = register-some td r r' e in
    subst EachFound q (
      All-append
        (λ (x : TaskTypeDetails). (get_task x.name (r ++ (td ∷ [])) ≡ some x) × (x.name ≢ [])) r
        (td ∷ [])
        (All-weaken (λ (x : TaskTypeDetails). (get_task x.name r ≡ some x) × (x.name ≢ []))
          (λ x. (get_task x.name (r ++ (td ∷ [])) ≡ some x) × (x.name ≢ [])) r
          (λ x p. (find-append (λ t. bytes_eq t.name x.name) r (td ∷ []) x p.0, p.1)) h)
        (
          (
            find-none (λ t. bytes_eq t.name td.name) r td k (bytes_eq_refl td.name),
            λ z. absurd (ground (arith, n, (bytes_eq_iff td.name []).1 z)),
          ),
          tt,
        ))

register_all-none : (tds : List TaskTypeDetails) → register_all tds none ≡ none
register_all-none [] = refl
register_all-none (td ∷ tds) = register_all-none tds

-- Where no registration fails, the registry holds the descriptors in their order, each found under its
-- own name, which no other has.
pub register_all-EachFound :
    (tds : List TaskTypeDetails) (r r' : Registry)
    → EachFound r
    → register_all tds (some r) ≡ some r'
    → EachFound r' × (r' ≡ r ++ tds)
register_all-EachFound [] r r' h e =
    subst (λ s. EachFound s × (s ≡ r ++ [])) (ground (arith, e)) (h, sym (append-nil r))
register_all-EachFound (td ∷ tds) r r' h e =
    at_register (register td r) refl (λ s. register_all-EachFound tds s r')
  where
    at_register :
        (o : Option Registry)
        → register td r ≡ o
        → ((s : Registry)
            → EachFound s
            → register_all tds (some s) ≡ some r'
            → EachFound r' × (r' ≡ s ++ tds))
        → EachFound r' × (r' ≡ r ++ (td ∷ tds))
    at_register none q rest =
        absurd (ground (arith, sym e ∙ ap (register_all tds) q ∙ register_all-none tds))
    at_register (some s) q rest =
        let (k, same) =
          rest s (register-EachFound td r s h q) (sym (ap (register_all tds) q) ∙ e) in
        (
          k,
          same ∙ ap (λ x. x ++ tds) (sym (register-some td r s q).2) ∙ append_assoc r (td ∷ []) tds,
        )
