-- ===== src/Alerts/Table/Counts.antt =====
-- `CountsOf`, and what `Ack` and `AckAll` do to the counts.
use curio_core.Sql.{length-update, update}
use curio_core.Alerts.Table.{acknowledged, ack_all, unacked, Alerts, Alert}
use curio_core.Base.{
  bytes_eq_iff, ◌&&◌, bytes_eq, length, ◌+◌, count_if, if◌then◌else◌, ◌≡◌, ◌∷◌, Bytes, Bool, Option,
  List, suc, arith, false, some, none, refl, [], ℕ,
}
use curio_core.Env.{query, World, Env}

pub record Group : Type 0 where
  pub severity : Bytes
  pub count : ℕ

pub record Counts : Type 0 where
  pub total : ℕ
  pub unacked : ℕ
  pub by_severity : List Group

-- one more of that severity
abbrev pub bump : Bytes → List Group → List Group
bump s [] = record { severity = s; count = 1 } ∷ []
bump s (g ∷ gs) =
    let rest = bump s gs in
    if bytes_eq g.severity s then record g { count = suc g.count } ∷ gs else g ∷ rest

-- `SELECT severity, COUNT(*) … WHERE acked = 0 GROUP BY severity`
unfoldable pub groups : List Alert → List Group
groups [] = []
groups (a ∷ xs) = let rest = groups xs in if unacked a then bump a.severity rest else rest

abbrev pub with_groups : ℕ → ℕ → Option (List Group) → Option Counts
with_groups total n none = none
with_groups total n (some gs) = some (record { total = total; unacked = n; by_severity = gs })

abbrev pub with_unacked : Env → ℕ → Option ℕ → World Alerts → Option Counts × World Alerts
with_unacked env total none w = (none, w)
with_unacked env total (some n) w =
    let (by, w') = query env (λ s. groups s.rows) w in (with_groups total n by, w')

abbrev pub with_total : Env → Option ℕ → World Alerts → Option Counts × World Alerts
with_total env none w = (none, w)
with_total env (some total) w =
    let (n, w') = query env (λ s. count_if unacked s.rows) w in with_unacked env total n w'

-- `CountsOf`, or `none` for an error
unfoldable pub counts_of : Env → World Alerts → Option Counts × World Alerts
counts_of env w = let (total, w') = query env (λ s. length s.rows) w in with_total env total w'

-- `BySeverity[s]`, 0 for a severity that is not there
abbrev pub count_for : Bytes → List Group → ℕ
count_for s [] = 0
count_for s (g ∷ gs) = let rest = count_for s gs in if bytes_eq g.severity s then g.count else rest

abbrev pub sum_of : List Group → ℕ
sum_of [] = 0
sum_of (g ∷ gs) = g.count + sum_of gs

sum_of-bump : (s : Bytes) (gs : List Group) → sum_of (bump s gs) ≡ suc (sum_of gs)
sum_of-bump s [] = refl
sum_of-bump s (g ∷ gs) = ground (arith, sum_of-bump s gs)

sum_of-groups : (xs : List Alert) → sum_of (groups xs) ≡ count_if unacked xs
unfolding groups
sum_of-groups [] = refl
sum_of-groups (a ∷ xs) = ground (arith, sum_of-groups xs, sum_of-bump a.severity (groups xs))

count_for-bump :
    (s t : Bytes) (gs : List Group)
    → count_for t (bump s gs) ≡ (if bytes_eq s t then suc (count_for t gs) else count_for t gs)
count_for-bump s t [] = ground arith
count_for-bump s t (g ∷ gs) = ground (
  arith,
  count_for-bump s t gs,
  bytes_eq_iff g.severity s,
  bytes_eq_iff g.severity t,
  bytes_eq_iff s t,
)

abbrev pub is_open : Bytes → Alert → Bool
is_open s a = unacked a && bytes_eq a.severity s

count_for-groups : (s : Bytes) (xs : List Alert) → count_for s (groups xs) ≡ count_if (is_open s) xs
unfolding groups
count_for-groups s [] = refl
count_for-groups s (a ∷ xs) =
    ground (arith, count_for-groups s xs, count_for-bump a.severity s (groups xs))

count_if-acked :
    (time : ℕ) (xs : List Alert) → count_if unacked (update unacked (acknowledged time) xs) ≡ 0
count_if-acked time [] = refl
count_if-acked time (a ∷ xs) = ground (arith, count_if-acked time xs)

module _ (env : Env) (w : World Alerts) (sound : (n : ℕ) → env.fault n ≡ false) where
  -- Where no call fails, `CountsOf` counts each severity's unacknowledged alerts, and these counts add
  -- up to the number of unacknowledged alerts.
  pub counts_of-agree :
      (c : Counts) × ((counts_of env w).0 ≡ some c)
      × (c.total ≡ length w.store.rows)
      × (sum_of c.by_severity ≡ c.unacked)
      × ((s : Bytes) → count_for s c.by_severity ≡ count_if (is_open s) w.store.rows)
  unfolding counts_of
  counts_of-agree = (
    record {
      total = length w.store.rows;
      unacked = count_if unacked w.store.rows;
      by_severity = groups w.store.rows;
    },
    rw (sound w.calls, sound (suc w.calls), sound (suc (suc w.calls))) refl,
    refl,
    sum_of-groups w.store.rows,
    λ s. count_for-groups s w.store.rows,
  )

  -- Where no call fails, `AckAll` returns the number of alerts that were not acknowledged, and then
  -- `CountsOf` counts none of these and as many alerts in all as before.
  pub ack_all-counts :
      let (n, w') = ack_all env w in
      (n ≡ some (count_if unacked w.store.rows))
      × (count_if unacked w'.store.rows ≡ 0)
      × (length w'.store.rows ≡ length w.store.rows)
  unfolding ack_all
  ack_all-counts = rw (sound (suc w.calls)) (
    refl,
    count_if-acked (env.time w.calls) w.store.rows,
    length-update unacked (acknowledged (env.time w.calls)) w.store.rows,
  )
