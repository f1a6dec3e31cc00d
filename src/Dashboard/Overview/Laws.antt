-- ===== src/Dashboard/Overview/Laws.antt =====
-- internal/dashboard/dashboard.go, `collectOverview`: how its numbers hang together.
use curio_core.Env.{ticked}
use curio_core.Dashboard.Overview.{
  is_owned, is_terminated, scan, is_active, Tables, World, Env, collect_stats,
}
use curio_core.Base.{
  ◌∷◌, length, ◌+◌, count_if, not, Bytes, Bool, List, ℕ, arith, false, refl, [], ◌≡◌,
}

-- two tests of which each member passes one
count_split :
    {A : Type 0} (p q : A → Bool) (xs : List A)
    → ((x : A) → q x ≡ not (p x))
    → count_if p xs + count_if q xs ≡ length xs
count_split p q [] f = omega arith
count_split p q (x ∷ xs) f = ground (arith, f x, count_split p q xs f)

module _ (env : Env) (sound : (n : ℕ) → env.fault n ≡ false) where
  scan_sound : (f : Tables → ℕ) (w : World Tables) → scan env f w ≡ (f w.store, ticked w)
  unfolding scan
  scan_sound f w = rw (sound w.calls) refl

-- Where no query fails, each data set counts either as active or as terminated, each task either as
-- running or as unowned, and the page reads only.
pub collect_stats_split :
    (env : Env) (cutoff : Bytes) (w : World Tables)
    → ((n : ℕ) → env.fault n ≡ false)
    → ((collect_stats env cutoff w).0.datasets_active
          + (collect_stats env cutoff w).0.datasets_terminated
        ≡ length w.store.data_sets)
      × ((collect_stats env cutoff w).0.tasks_running + (collect_stats env cutoff w).0.tasks_unowned
          ≡ length w.store.tasks)
      × ((collect_stats env cutoff w).1.store ≡ w.store)
unfolding collect_stats
collect_stats_split env cutoff w sound = simp (scan_sound env sound) (
  count_split is_active is_terminated w.store.data_sets (λ d. ground arith),
  count_split is_owned (λ o. not (is_owned o)) w.store.tasks (λ o. refl),
  refl,
)
