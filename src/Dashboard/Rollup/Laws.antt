-- ===== src/Dashboard/Rollup/Laws.antt =====
-- internal/dashboard/pdp_rollup.go: any number of callers of the cache, and what they are told.
use curio_core.Dashboard.Rollup.{
  is_fresh, fin_rollup_ttl, new_fin_rollup_cache, FinRollupCache, FinRollup, enter, finish,
}
use curio_core.Base.{
  All-weaken, head, tail, Bool-cases, ◌+◌, All, ◌<◌, ◌-◌, Member, ◌∷◌, ◌⊎◌, if◌then◌else◌, ◌≤◌,
  Option, List, ℕ, suc, arith, ap, inr, inl, false, true, some, none, refl, [], ◌≡◌,
}

-- an answer and the time at which it was given
pub record Answer : Type 0 where
  pub at : ℕ
  pub value : FinRollup

-- the cache, how many callers compute, what was computed so far and when, and the answers
pub record System : Type 0 where
  pub cache : FinRollupCache
  pub computing : ℕ
  pub computations : List Answer
  pub answers : List Answer

abbrev pub start : System
start = record { cache = new_fin_rollup_cache; computing = 0; computations = []; answers = [] }

abbrev pub entered : ℕ → System → Option FinRollup × FinRollupCache → System
entered now s (none, c) = record s { cache = c; computing = suc s.computing }
entered now s (some v, c) = record s {
  cache = c;
  answers = record { at = now; value = v } ∷ s.answers;
}

abbrev pub finished : ℕ → FinRollup → System → System
finished now v s = record s {
  cache = (finish now v s.cache).1;
  computing = s.computing - 1;
  computations = record { at = now; value = v } ∷ s.computations;
  answers = record { at = now; value = (finish now v s.cache).0 } ∷ s.answers;
}

-- a caller comes in, or one that computes is done, at any time and with any value
pub data Step : System → System → Type 0 where
  enters : (s : System) (now : ℕ) → Step s (entered now s (enter now s.cache))
  finishes : (s : System) (now : ℕ) (v : FinRollup) → 0 < s.computing → Step s (finished now v s)

pub data Reach (s : System) : System → Type 0 where
  here : Reach s s
  next : {t u : System} → Reach s t → Step t u → Reach s u

-- a fresh answer is a computed value that was not older than the lifetime; any other is marked as stale
abbrev pub IsHonest : List Answer → Answer → Type 0
IsHonest computations a =
    (a.value.fresh ≡ false)
    ⊎ ((c : Answer) × Member c computations
        × (a.value ≡ record c.value { fresh = true })
        × (a.at < c.at + fin_rollup_ttl))

-- what is stored is the computation of its time
abbrev pub IsStored : List Answer → FinRollupCache → Type 0
IsStored computations c =
    (c.computed ≡ none)
    ⊎ ((a : Answer) × Member a computations × (c.computed ≡ some a.at) × (c.val ≡ a.value))

pub record IsValid (s : System) : Type 0 where
  pub single : s.computing ≡ (if s.cache.running then 1 else 0)
  pub stored : IsStored s.computations s.cache
  pub honest : All (IsHonest s.computations) s.answers

fresh_value :
    (now : ℕ) (cs : List Answer) (c : FinRollupCache)
    → is_fresh now c.computed ≡ true
    → IsStored cs c
    → IsHonest cs (record { at = now; value = record c.val { fresh = true } })
fresh_value now cs c h (inl e) = absurd (ground (arith, h, ap (is_fresh now) e))
fresh_value now cs c h (inr (a, m, e, v)) = inr (
  a,
  m,
  ap (λ (w : FinRollup). record w { fresh = true }) v,
  ground (arith, h, ap (is_fresh now) e),
)

enter-IsValid : (s : System) (now : ℕ) → IsValid s → IsValid (entered now s (enter now s.cache))
unfolding enter
enter-IsValid s now v = elim (Bool-cases (is_fresh now s.cache.computed)) [
  | inl e ↦ rw e (record {
    single = v.single;
    stored = v.stored;
    honest = (fresh_value now s.computations s.cache e v.stored, v.honest);
  })
  | inr e ↦ elim (Bool-cases s.cache.running) [
    | inl r ↦
        rw (e, r)
          (record {
            single = ground (arith, r, v.single);
            stored = v.stored;
            honest = (inl refl, v.honest);
          })
    | inr r ↦
        rw (e, r)
          (record { single = ground (arith, r, v.single); stored = v.stored; honest = v.honest })
  ]
]

finish-IsValid :
    (s : System) (now : ℕ) (v : FinRollup)
    → 0 < s.computing
    → IsValid s
    → IsValid (finished now v s)
unfolding finish
finish-IsValid s now v busy h = record {
  single = ground (arith, h.single);
  stored = inr (record { at = now; value = v }, head, refl, refl);
  honest = (
    inr (record { at = now; value = v }, head, refl, omega arith),
    All-weaken (IsHonest s.computations)
        (IsHonest (record { at = now; value = v } ∷ s.computations)) s.answers (λ a k. older a k)
        h.honest,
  );
}
  where
    older :
        (a : Answer)
        → IsHonest s.computations a
        → IsHonest (record { at = now; value = v } ∷ s.computations) a
    older a (inl stale) = inl stale
    older a (inr (c, m, same, young)) = inr (c, tail m, same, young)

Step-IsValid : {s t : System} → Step s t → IsValid s → IsValid t
Step-IsValid (enters s now) h = enter-IsValid s now h
Step-IsValid (finishes s now v busy) h = finish-IsValid s now v busy h

Reach-IsValid : {s t : System} → Reach s t → IsValid s → IsValid t
Reach-IsValid here h = h
Reach-IsValid (next r st) h = Step-IsValid st (Reach-IsValid r h)

-- However the calls of `get` interleave, at most one caller computes, and every answer that is marked
-- as fresh is a computed value that is not older than the lifetime.
pub Reach-IsHonest :
    {s : System} → Reach start s → (s.computing ≤ 1) × All (IsHonest s.computations) s.answers
Reach-IsHonest {s} r =
    let v = Reach-IsValid r (record { single = refl; stored = inl refl; honest = tt }) in
    (ground (arith, v.single), v.honest)
