-- ===== src/Alerts/Table/Laws.antt =====
-- One row for each fingerprint, and what `Emit` and `Ack` do to it.
use curio_core.Env.{World, Env}
use curio_core.Sql.{update}
use curio_core.Alerts.Table.{
  upsert_args, unacked, context_text, has_id, severity_warning, or_else, ack_all, print_of, ack,
  EmitArgs, emit, Param, acknowledged, ack_where, new_alert, seen_again, has_print, Alerts, upsert,
  Alert,
}
use curio_core.Base.{
  ◌||◌, Option, All-append, subst, ◌++◌, All-weaken, bytes_eq, any, if◌then◌else◌, ◌≡◌, Bool-cases,
  ◌<◌, All, ◌∷◌, Bytes, Bool, List, suc, arith, sym, inr, inl, false, refl, [], ℕ,
}

-- ids ascend, and no fingerprint comes twice
abbrev pub IsBefore : Alert → Alert → Type 0
IsBefore a b = (a.id < b.id) × (bytes_eq a.fingerprint b.fingerprint ≡ false)

abbrev pub Distinct : List Alert → Type 0
Distinct [] = Unit
Distinct (a ∷ xs) = All (λ b. IsBefore a b) xs × Distinct xs

abbrev pub WellFormed : Alerts → Type 0
WellFormed s = All (λ a. a.id < s.next_id) s.rows × Distinct s.rows

module _ (p : Alert → Bool) (f : Alert → Alert) (same_id : (a : Alert) → (f a).id ≡ a.id)
    (same_print : (a : Alert) → (f a).fingerprint ≡ a.fingerprint) where
  below-update :
      (n : ℕ) (xs : List Alert) → All (λ a. a.id < n) xs → All (λ a. a.id < n) (update p f xs)
  below-update n [] h = tt
  below-update n (a ∷ xs) h = (ground (arith, same_id a, h.0), below-update n xs h.1)

  IsBefore-update :
      (b : Alert) (xs : List Alert) → All (IsBefore b) xs → All (IsBefore b) (update p f xs)
  IsBefore-update b [] h = tt
  IsBefore-update b (a ∷ xs) h = (
    (
      ground (arith, same_id a, h.0.0),
      elim (Bool-cases (p a)) [ inl e ↦ rw (e, same_print a) h.0.1 | inr e ↦ rw e h.0.1 ],
    ),
    IsBefore-update b xs h.1,
  )

  update-IsBefore :
      (a : Alert) (xs : List Alert)
      → All (IsBefore a) xs
      → All (IsBefore (if p a then f a else a)) xs
  update-IsBefore a xs h = elim (Bool-cases (p a)) [
    | inr e ↦ rw e h
    | inl e ↦ rw e (
        All-weaken (IsBefore a) (IsBefore (f a)) xs
          (λ b k. (subst (λ n. n < b.id) (sym (same_id a)) k.0, rw (same_print a) k.1)) h)
  ]

  Distinct-update : (xs : List Alert) → Distinct xs → Distinct (update p f xs)
  Distinct-update [] h = tt
  Distinct-update (a ∷ xs) h =
      (update-IsBefore a (update p f xs) (IsBefore-update a xs h.0), Distinct-update xs h.1)

  WellFormed-update :
      (s : Alerts) → WellFormed s → WellFormed (record s { rows = update p f s.rows })
  WellFormed-update s h = (below-update s.next_id s.rows h.0, Distinct-update s.rows h.1)

-- a new row at the end
Distinct-append :
    (xs : List Alert) (b : Alert)
    → Distinct xs
    → All (λ a. a.id < b.id) xs
    → any (has_print b.fingerprint) xs ≡ false
    → Distinct (xs ++ (b ∷ []))
Distinct-append [] b d l n = (tt, tt)
Distinct-append (a ∷ xs) b d l n = (
  All-append (IsBefore a) xs (b ∷ []) d.0 ((l.0, ground (arith, n)), tt),
  Distinct-append xs b d.1 l.1 (ground (arith, n)),
)

upsert-WellFormed :
    (fp severity source message json : Bytes) (time : ℕ) (s : Alerts)
    → WellFormed s
    → WellFormed (upsert fp severity source message json time s)
unfolding upsert
upsert-WellFormed fp severity source message json time s h =
    elim (Bool-cases (any (has_print fp) s.rows)) [
      | inl e ↦
          rw e (WellFormed-update (has_print fp) (seen_again json time) (λ a. refl) (λ a. refl) s h)
      | inr e ↦ rw e (
        All-append (λ a. a.id < suc s.next_id) s.rows _
            (All-weaken (λ a. a.id < s.next_id) (λ a. a.id < suc s.next_id) s.rows
              (λ a l. omega arith) h.0)
            (omega arith, tt),
        Distinct-append s.rows (new_alert s.next_id fp severity source message json time) h.1 h.0 e,
      )
    ]

ack_where-WellFormed :
    (p : Alert → Bool) (env : Env) (w : World Alerts)
    → WellFormed w.store
    → WellFormed (ack_where p env w).1.store
ack_where-WellFormed p env w h = elim (Bool-cases (env.fault (suc w.calls))) [
  | inl e ↦ rw e h
  | inr e ↦
      rw e (WellFormed-update p (acknowledged (env.time w.calls)) (λ a. refl) (λ a. refl) w.store h)
]

module _ (marshal : List Param → Option Bytes) (sha256 : Bytes → Bytes) (env : Env) where
  stored :
      (args : EmitArgs) (time : ℕ) (s : Alerts)
      → WellFormed s
      → WellFormed (upsert_args marshal sha256 args time s)
  stored args time s h =
      upsert-WellFormed (print_of marshal sha256 args) (or_else args.severity severity_warning)
        args.source args.message (context_text marshal sha256 args.context) time s h

  -- Whatever fails, `Emit`, `Ack` and `AckAll` keep one row for each fingerprint, with ascending ids
  -- below the next one.
  pub operations-WellFormed :
      (args : EmitArgs) (id : ℕ) (w : World Alerts)
      → WellFormed w.store
      → WellFormed (emit marshal sha256 env args w).1.store
        × WellFormed (ack env id w).1.store
        × WellFormed (ack_all env w).1.store
  unfolding emit ack ack_all
  operations-WellFormed args id w h = (
    elim (Bool-cases (bytes_eq args.source [] || bytes_eq args.message [])) [
      | inl e ↦ rw e h
      | inr e ↦ rw e (elim (Bool-cases (env.fault (suc w.calls))) [
        | inl f ↦ rw f h
        | inr f ↦ elim (Bool-cases (env.fault (suc (suc w.calls)))) [
          | inl g ↦ rw (f, g) (stored args (env.time w.calls) w.store h)
          | inr g ↦ rw (f, g) (stored args (env.time w.calls) w.store h)
        ]
      ])
    ],
    ack_where-WellFormed (has_id id) env w h,
    ack_where-WellFormed unacked env w h,
  )
