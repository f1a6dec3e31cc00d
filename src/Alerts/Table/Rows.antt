-- ===== src/Alerts/Table/Rows.antt =====
-- The row of a fingerprint, before and after `Emit`.
use curio_core.Sql.{update}
use curio_core.Alerts.Table.{
  context_text, severity_warning, or_else, print_of, new_alert, find_id, has_print, seen_again,
  emit, EmitArgs, upsert, Param, Alert, Alerts,
}
use curio_core.Base.{
  Option-cases, subst, bytes_eq_refl, Bool-cases, bytes_eq_iff, ◌||◌, bytes_eq, ◌∷◌, ◌++◌,
  if◌then◌else◌, find, ◌≡◌, any, Bytes, Option, List, suc, arith, inr, inl, false, true, some, none,
  refl, [], ℕ,
}
use curio_core.Env.{World, Env}

-- the row of a fingerprint after `INSERT … ON CONFLICT`
abbrev pub merged : Option Alert → Alert → Alert
merged none new = new
merged (some old) new = seen_again new.context_json new.first_seen_at old

abbrev pub map_option : (Alert → Alert) → Option Alert → Option Alert
map_option f none = none
map_option f (some a) = some (f a)

find-update :
    (fp g json : Bytes) (time : ℕ) (xs : List Alert)
    → find (has_print g) (update (has_print fp) (seen_again json time) xs) ≡ (
        if bytes_eq fp g
        then map_option (seen_again json time) (find (has_print g) xs)
        else find (has_print g) xs)
find-update fp g json time [] = ground arith
find-update fp g json time (a ∷ xs) = ground (
  arith,
  find-update fp g json time xs,
  bytes_eq_iff a.fingerprint fp,
  bytes_eq_iff a.fingerprint g,
  bytes_eq_iff fp g,
)

find-append :
    (g : Bytes) (b : Alert) (xs : List Alert)
    → find (has_print g) (xs ++ (b ∷ [])) ≡ elim (find (has_print g) xs) [
      | none ↦ if has_print g b then some b else none
      | some a ↦ some a
    ]
find-append g b [] = ground arith
find-append g b (a ∷ xs) = ground (arith, find-append g b xs)

find-any-false :
    (g : Bytes) (xs : List Alert) → any (has_print g) xs ≡ false → find (has_print g) xs ≡ none
find-any-false g [] h = refl
find-any-false g (a ∷ xs) h = ground (arith, find-any-false g xs)

find-any-true :
    (g : Bytes) (xs : List Alert)
    → any (has_print g) xs ≡ true
    → (a : Alert) × (find (has_print g) xs ≡ some a)
find-any-true g [] h = ground (arith, h)
find-any-true g (a ∷ xs) h = elim (Bool-cases (has_print g a)) [
  | inl e ↦ (a, rw e refl)
  | inr e ↦ let (b, f) = find-any-true g xs (ground (arith, h, e)) in (b, rw (e, f) refl)
]

-- the row that a fingerprint has
abbrev pub row_for : Bytes → Alerts → Option Alert
row_for g s = find (has_print g) s.rows

row_for-upsert :
    (fp severity source message json : Bytes) (time : ℕ) (s : Alerts) (g : Bytes)
    → row_for g (upsert fp severity source message json time s) ≡ (
        if bytes_eq fp g
        then some (merged (row_for g s) (new_alert s.next_id fp severity source message json time))
        else row_for g s)
unfolding upsert
row_for-upsert fp severity source message json time s g =
    elim (Bool-cases (any (has_print fp) s.rows)) [
      | inl e ↦
          rw (e, find-update)
            (elim (Bool-cases (bytes_eq fp g)) [
              | inr k ↦ rw k refl
              | inl k ↦
                  let (a, f) = find-any-true fp s.rows e in
                  let here : find (has_print g) s.rows ≡ some a =
                    subst (λ h. find (has_print h) s.rows ≡ some a) ((bytes_eq_iff fp g).0 k) f in
                  rw (k, here) refl
            ])
      | inr e ↦
          rw (e, find-append)
            (elim (Bool-cases (bytes_eq fp g)) [
              | inr k ↦ elim (Option-cases (find (has_print g) s.rows)) [
                | inl l ↦ rw (l, k) refl
                | inr (a, l) ↦ rw (k, l) refl
              ]
              | inl k ↦
                  let here : find (has_print g) s.rows ≡ none =
                    subst (λ h. find (has_print h) s.rows ≡ none) ((bytes_eq_iff fp g).0 k)
                      (find-any-false fp s.rows e) in
                  rw (here, k) refl
            ])
    ]

module _ (marshal : List Param → Option Bytes) (sha256 : Bytes → Bytes) (env : Env) where
  -- the row of these arguments, before it meets another of its fingerprint
  abbrev pub alert_of : EmitArgs → ℕ → ℕ → Alert
  alert_of args id time =
      new_alert id (print_of marshal sha256 args) (or_else args.severity severity_warning)
        args.source args.message (context_text marshal sha256 args.context) time

  -- Where no call fails, `Emit` with a source and a message returns the id of the row of its
  -- fingerprint. That row is new, or it is the old one, counted once more, no longer acknowledged,
  -- with the new time and context and with the severity, source and message it had. The rows of
  -- other fingerprints are as before.
  pub emit-row :
      (args : EmitArgs) (w : World Alerts)
      → bytes_eq args.source [] || bytes_eq args.message [] ≡ false
      → env.fault (suc w.calls) ≡ false
      → env.fault (suc (suc w.calls)) ≡ false
      → let (id, w') = emit marshal sha256 env args w in
        let fp = print_of marshal sha256 args in
        let row : Bytes → Alert =
          λ g. merged (row_for g w.store) (alert_of args w.store.next_id (env.time w.calls)) in
        (id ≡ some (row fp).id)
        × ((g : Bytes)
            → row_for g w'.store ≡ (if bytes_eq fp g then some (row g) else row_for g w.store))
  unfolding emit find_id
  emit-row args w h f g =
      rw (h, f, g, row_for-upsert, bytes_eq_refl)
        (
          refl,
          λ g.
              row_for-upsert (print_of marshal sha256 args) (or_else args.severity severity_warning)
                args.source args.message (context_text marshal sha256 args.context)
                (env.time w.calls) w.store g,
        )
