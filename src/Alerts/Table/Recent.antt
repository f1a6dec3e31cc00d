-- ===== src/Alerts/Table/Recent.antt =====
-- `Recent`: the alerts that were seen last. The decoding of their context is left out.
use curio_core.Sql.{order_by_desc}
use curio_core.Sql.Descending.{
  All-order_by_desc, order_by_desc-IsDescending, take-IsDescending, IsDescending,
}
use curio_core.Alerts.Table.{query, unacked, Alerts, take, Alert}
use curio_core.Base.{
  All-keep, All-take, length-take, ◌≡◌, All, Member, ◌≤◌, Bool-cases, keep, OnSome, length, ◌==◌,
  if◌then◌else◌, Bool, Option, List, arith, inr, inl, true, ℕ,
}
use curio_core.Env.{World, Env}

-- a limit of 0 means 100; so does a negative one, which is left out
abbrev pub limit_or_default : ℕ → ℕ
limit_or_default n = if n == 0 then 100 else n

abbrev pub is_shown : Bool → Alert → Bool
is_shown only_unacked a = if only_unacked then unacked a else true

-- `SELECT … ORDER BY last_seen_at DESC LIMIT …`
unfoldable pub recent_rows : ℕ → Bool → List Alert → List Alert
recent_rows limit only_unacked rows =
    take (limit_or_default limit)
      (order_by_desc (λ a. a.last_seen_at) (keep (is_shown only_unacked) rows))

-- `Recent`, or `none` for an error
unfoldable pub recent : Env → ℕ → Bool → World Alerts → Option (List Alert) × World Alerts
recent env limit only_unacked w = query env (λ s. recent_rows limit only_unacked s.rows) w

-- what `Recent` promises of its answer
abbrev pub AreRecent : ℕ → Bool → List Alert → List Alert → Type 0
AreRecent limit only_unacked rows shown =
    IsDescending (λ a. a.last_seen_at) shown
    × (length shown ≤ limit_or_default limit)
    × All (λ a. Member a rows × (is_shown only_unacked a ≡ true)) shown

-- `Recent`, when its query succeeds, returns alerts of the table in descending order of when they were
-- last seen, at most as many as the limit, and only unacknowledged ones if these are asked for.
pub recent-AreRecent :
    (env : Env) (limit : ℕ) (only_unacked : Bool) (w : World Alerts)
    → OnSome (AreRecent limit only_unacked w.store.rows) (recent env limit only_unacked w).0
unfolding recent recent_rows
recent-AreRecent env limit only_unacked w = elim (Bool-cases (env.fault w.calls)) [
  | inl f ↦ rw f tt
  | inr f ↦
      let sorted =
        order_by_desc (λ a. a.last_seen_at) (keep (is_shown only_unacked) w.store.rows) in
      let P : Alert → Type 0 = λ a. Member a w.store.rows × (is_shown only_unacked a ≡ true) in
      rw f (
        take-IsDescending (λ a. a.last_seen_at) (limit_or_default limit) sorted
            (order_by_desc-IsDescending (λ a. a.last_seen_at)
              (keep (is_shown only_unacked) w.store.rows)),
        omega (arith, length-take (limit_or_default limit) sorted),
        All-take P (limit_or_default limit) sorted (
            All-order_by_desc (λ a. a.last_seen_at) P (keep (is_shown only_unacked) w.store.rows)
              (All-keep P (is_shown only_unacked) w.store.rows (λ a m e. (m, e)))),
      )
]
