-- ===== src/Engine/Machines/Laws.antt =====
-- internal/engine/engine.go: the machine row is there, and was heard of.
use curio_core.Sql.Descending.{All-order_by_desc}
use curio_core.Sql.{insert_desc}
use curio_core.Engine.Machines.{
  insert_machine, order_by_desc, refreshed, contacted, first_id, machine, has_id, insert_or_ignore,
  has_host, Machines, World, Env, update, MachineRow, keepalive_tick, record_machine_row,
}
use curio_core.Base.{
  All-self, All-Member, bytes_eq_refl, All-weaken, ◌≢◌, ltb, All, Bytes, some, List, keep, any,
  head, Bool-cases, tail, ◌==◌, ◌∷◌, ◌≤◌, ◌++◌, count_if, Member, Bool, ℕ, suc, arith, inr, inl,
  false, true, refl, [], ◌≡◌,
}

-- a row of the id that was heard of at or after a time
abbrev pub IsAlive : ℕ → ℕ → List MachineRow → Type 0
IsAlive id time rows = (r : MachineRow) × Member r rows × (r.id ≡ id) × (time ≤ r.last_contact)

count_found :
    (p : MachineRow → Bool) (rows : List MachineRow)
    → (count_if p rows == 0) ≡ false
    → (r : MachineRow) × Member r rows × (p r ≡ true)
count_found p [] h = absurd (ground (arith, h))
count_found p (r ∷ rows) h = elim (Bool-cases (p r)) [
  | inl e ↦ (r, head, e)
  | inr e ↦ let (s, m, k) = count_found p rows (ground (arith, e, h)) in (s, tail m, k)
]

count_none :
    (p : MachineRow → Bool) (rows : List MachineRow)
    → (count_if p rows == 0) ≡ true
    → any p rows ≡ false
count_none p [] h = refl
count_none p (r ∷ rows) h = ground (arith, h, count_none p rows)

Member-update :
    (p : MachineRow → Bool) (f : MachineRow → MachineRow) {r : MachineRow} {rows : List MachineRow}
    → Member r rows
    → p r ≡ true
    → Member (f r) (update p f rows)
Member-update p f {r} head e = rw e head
Member-update p f (tail m) e = tail (Member-update p f m e)

Member-last : {A : Type 0} (xs : List A) (x : A) → Member x (xs ++ (x ∷ []))
Member-last [] x = head
Member-last (y ∷ xs) x = tail (Member-last xs x)

update-none :
    (p : MachineRow → Bool) (f : MachineRow → MachineRow) (rows : List MachineRow)
    → any p rows ≡ false
    → update p f rows ≡ rows
update-none p f [] h = refl
update-none p f (r ∷ rows) h = ground (arith, h, update-none p f rows)

inserted-IsAlive :
    (host : Bytes) (id time later : ℕ) (m : Machines)
    → time ≤ later
    → (count_if (has_id id) m.rows == 0) ≡ true
    → IsAlive id time (insert_or_ignore id host later m).rows
unfolding insert_or_ignore
inserted-IsAlive host id time later m t e =
    rw (count_none (has_id id) m.rows e)
      (machine id host later, Member-last m.rows (machine id host later), refl, t)

updated-IsAlive :
    (id time : ℕ) (rows : List MachineRow)
    → (count_if (has_id id) rows == 0) ≡ false
    → IsAlive id time (update (has_id id) (contacted time) rows)
updated-IsAlive id time rows e =
    let (r, m, k) = count_found (has_id id) rows e in
    (
      contacted time r,
      Member-update (has_id id) (contacted time) m k,
      ground (arith, k),
      omega arith,
    )

first-All :
    {P : MachineRow → Type 0} (rows : List MachineRow)
    → rows ≢ []
    → All P rows
    → (s : MachineRow) × (first_id rows ≡ some s.id) × P s
first-All [] n h = absurd (n refl)
first-All (x ∷ rows) n h = (x, refl, h.0)

insert_desc_none : (x : MachineRow) (ys : List MachineRow) → insert_desc (λ r. r.id) x ys ≢ []
insert_desc_none x [] = ground arith
insert_desc_none x (y ∷ ys) = elim (Bool-cases (ltb x.id y.id)) [
  | inl e ↦ rw e (ground arith)
  | inr e ↦ rw e (ground arith)
]

order_by_desc_none :
    {x : MachineRow} (rows : List MachineRow) → Member x rows → order_by_desc (λ r. r.id) rows ≢ []
order_by_desc_none [] m = elim m [ ]
order_by_desc_none (r ∷ rows) m = insert_desc_none r (order_by_desc (λ r. r.id) rows)

-- the row with the greatest id
latest :
    {P : MachineRow → Type 0} {x : MachineRow} (rows : List MachineRow)
    → Member x rows
    → All P rows
    → (s : MachineRow) × (first_id (order_by_desc (λ r. r.id) rows) ≡ some s.id) × P s
latest rows m h =
    first-All (order_by_desc (λ r. r.id) rows) (order_by_desc_none rows m)
      (All-order_by_desc (λ r. r.id) _ rows h)

All-refreshed :
    (host : Bytes) (time : ℕ) (rows : List MachineRow)
    → All
        (λ r. time ≤ r.last_contact)
        (keep (has_host host) (update (has_host host) (refreshed time) rows))
All-refreshed host time [] = tt
All-refreshed host time (r ∷ rows) = elim (Bool-cases (has_host host r)) [
  | inl e ↦ rw (e, e) (omega arith, All-refreshed host time rows)
  | inr e ↦ rw (e, e) (All-refreshed host time rows)
]

Member-keep :
    (p : MachineRow → Bool) {x : MachineRow} (rows : List MachineRow)
    → Member x rows
    → p x ≡ true
    → Member x (keep p rows)
Member-keep p [] m e = elim m [ ]
Member-keep p (r ∷ rows) head e = rw e head
Member-keep p (r ∷ rows) (tail m) e = elim (Bool-cases (p r)) [
  | inl k ↦ rw k (tail (Member-keep p rows m e))
  | inr k ↦ rw k (Member-keep p rows m e)
]

keep-inserted :
    (p : MachineRow → Bool) (x : MachineRow) (rows : List MachineRow)
    → any p rows ≡ false
    → p x ≡ true
    → keep p (rows ++ (x ∷ [])) ≡ x ∷ []
keep-inserted p x [] h e = rw e refl
keep-inserted p x (r ∷ rows) h e = ground (arith, h, e, keep-inserted p x rows)

-- Where the statements of a tick succeed and the clock does not go back, the row of the daemon is there
-- behind it, heard of no earlier than the tick began, whatever was in the table before; so a row that
-- was deleted is put back.
pub keepalive_tick-IsAlive :
    (env : Env) (host : Bytes) (id : ℕ) (w : World Machines)
    → env.fault w.calls ≡ false
    → env.fault (suc w.calls) ≡ false
    → env.time w.calls ≤ env.time (suc w.calls)
    → IsAlive id (env.time w.calls) (keepalive_tick env host id w).store.rows
unfolding keepalive_tick
keepalive_tick-IsAlive env host id w f g t =
    elim (Bool-cases (count_if (has_id id) w.store.rows == 0)) [
      | inl e ↦
          rw
            (
              f,
              e,
              g,
              update-none (has_id id) (contacted (env.time w.calls)) w.store.rows
                  (count_none (has_id id) w.store.rows e),
            )
            (inserted-IsAlive host id (env.time w.calls) (env.time (suc w.calls)) w.store t e)
      | inr e ↦ rw (f, e) (updated-IsAlive id (env.time w.calls) w.store.rows e)
    ]

-- the rows of the address behind the UPDATE, where there are some
latest_refreshed :
    (host : Bytes) (time : ℕ) (rows : List MachineRow)
    → (count_if (has_host host) rows == 0) ≡ false
    → (s : MachineRow) × (first_id (
          order_by_desc
            (λ r. r.id)
            (keep (has_host host) (update (has_host host) (refreshed time) rows)))
        ≡ some s.id)
      × (Member s (keep (has_host host) (update (has_host host) (refreshed time) rows))
          × (time ≤ s.last_contact))
latest_refreshed host time rows e =
    let (r, m, k) = count_found (has_host host) rows e in
    let kept = keep (has_host host) (update (has_host host) (refreshed time) rows) in
    latest {P = λ s. Member s kept × (time ≤ s.last_contact)} kept
      (Member-keep (has_host host) (update (has_host host) (refreshed time) rows)
        (Member-update (has_host host) (refreshed time) m k) k)
      (All-weaken (λ (s : MachineRow). Member s kept) (λ s. Member s kept × (time ≤ s.last_contact))
        kept
        (λ s n. (
          n,
          All-Member (λ (s : MachineRow). time ≤ s.last_contact) n (All-refreshed host time rows),
        ))
        (All-self kept))

-- Where no statement fails and the clock does not go back, the id that is returned is that of a row of the
-- daemon's address which was heard of no earlier than the call began.
pub record_machine_row-IsAlive :
    (env : Env) (host : Bytes) (w : World Machines)
    → ((n : ℕ) → env.fault n ≡ false)
    → ((n : ℕ) → env.time n ≤ env.time (suc n))
    → (id : ℕ) × ((record_machine_row env host w).0 ≡ some id)
      × IsAlive id
          (env.time w.calls)
          (keep (has_host host) (record_machine_row env host w).1.store.rows)
unfolding record_machine_row insert_machine
record_machine_row-IsAlive env host w sound later =
    elim (Bool-cases (count_if (has_host host) w.store.rows == 0)) [
      | inl e ↦
          rw
            (
              sound w.calls,
              e,
              sound (suc w.calls),
              sound (suc (suc w.calls)),
              update-none (has_host host) (refreshed (env.time w.calls)) w.store.rows
                  (count_none (has_host host) w.store.rows e),
              keep-inserted (has_host host) (machine w.store.next_id host (env.time (suc w.calls)))
                  w.store.rows (count_none (has_host host) w.store.rows e) (bytes_eq_refl host),
            )
            (
              w.store.next_id,
              refl,
              (machine w.store.next_id host (env.time (suc w.calls)), head, refl, later w.calls),
            )
      | inr e ↦
          let (s, q, m) = latest_refreshed host (env.time w.calls) w.store.rows e in
          rw (sound w.calls, e, sound (suc w.calls)) (s.id, q, (s, m.0, refl, m.1))
    ]
