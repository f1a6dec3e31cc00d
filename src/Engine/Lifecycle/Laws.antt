-- ===== src/Engine/Lifecycle/Laws.antt =====
-- internal/engine/engine.go: what runs behind a sequence of calls.
use curio_core.Engine.Lifecycle.{
  Outcome, panics, hooks_pass, start_machine, ended, failed, done, on_before_chain_sched,
  StartCalls, StopCalls, set_chain_sched, new_engine, Engine, start, stop,
}
use curio_core.Base.{
  subst, if◌then◌else◌, Bool-cases, ◌∷◌, ◌≡◌, ◌++◌, Option, List, ℕ, suc, arith, sym, inr, inl,
  false, true, some, none, refl, [], Bool, Member, head, tail, All, All-weaken, All-keep,
  All-Member, Member-append_left, Member-append_right, ◌==◌, not,
}
use curio_core.Engine.Lifecycle.Runs.{
  left_by_row, left_by_start, given_up, left_by_stop, Run, nothing, sets, hooks_on, starts, stops,
  IsTracked,
}

-- all that runs while the engine does not was left
kept :
    (Q : ℕ → Type 0) (left : List ℕ) (e : Engine)
    → e.running ≡ false
    → IsTracked left e
    → ((m : ℕ) → Member m left → Q m)
    → All Q e.live
kept Q left e r h f =
    All-weaken _ Q e.live
      (λ m t. elim t [ inl l ↦ f m l | inr (on, k) ↦ absurd (ground (arith, on, r)) ]) h

start_row-IsTracked :
    (c : StartCalls) (o : Option ℕ) (left : List ℕ) (e : Engine)
    → e.running ≡ false
    → IsTracked left e
    → IsTracked (left_by_row c e o ++ left) (start_machine c o (record e { running = true })).1
start_row-IsTracked c none left e r h = kept _ left e r h (λ m l. inl l)
start_row-IsTracked c (some id) left e r h = elim (Bool-cases c.new_with_reg) [
  | inl n ↦ elim (Bool-cases e.chain_sched) [
    | inl b ↦ elim (Bool-cases (hooks_pass c.hook 0 e.hooks)) [
      | inl p ↦
          rw (n, b, p)
            (
              inr (refl, inl refl),
              (
                inr (refl, inr (inl refl)),
                (inl head, (inr (refl, inr (inr refl)), kept _ left e r h (λ m l. inl (tail l)))),
              ),
            )
      | inr p ↦
          rw (n, b, p)
            (
              inl (tail head),
              (
                inl head,
                (inl (tail (tail head)), kept _ left e r h (λ m l. inl (tail (tail (tail l))))),
              ),
            )
    ]
    | inr b ↦
        rw (n, b)
          (
            inr (refl, inr (inl refl)),
            (inl head, (inr (refl, inr (inr refl)), kept _ left e r h (λ m l. inl (tail l)))),
          )
  ]
  | inr n ↦ rw n (inl head, (inl (tail head), kept _ left e r h (λ m l. inl (tail (tail l)))))
]

start_running :
    (c : StartCalls) (e : Engine)
    → e.running ≡ true
    → (left_by_start c e ≡ []) × (start c e ≡ (failed, e))
unfolding start
start_running c e r = (simp r refl, simp r refl)

stop_idle :
    (c : StopCalls) (e : Engine)
    → e.running ≡ false
    → (left_by_stop c e ≡ []) × (stop c e ≡ (done, e))
unfolding stop
stop_idle c e r = (simp r refl, simp r refl)

start_closed :
    (c : StartCalls) (e : Engine)
    → e.running ≡ false
    → e.db_open ≡ false
    → (left_by_start c e ≡ []) × (start c e ≡ (panics, record e { running = true }))
unfolding start
start_closed c e r d = (rw (r, d) refl, rw (r, d) refl)

start_lem :
    (c : StartCalls) (e : Engine)
    → e.running ≡ false
    → e.db_open ≡ true
    → (left_by_start c e ≡ left_by_row c e c.machine)
      × (start c e ≡ start_machine c c.machine (record e { running = true }))
unfolding start
start_lem c e r d = (simp (r, d) refl, rw (r, d) refl)

-- a call, by what it is known to leave and to return
call-IsTracked :
    (left more more' : List ℕ) (r r' : Outcome × Engine)
    → (more ≡ more') × (r ≡ r')
    → IsTracked (more' ++ left) r'.1
    → IsTracked (more ++ left) r.1
call-IsTracked left more more' r r' (same_left, same) h =
    subst (λ more. IsTracked (more ++ left) r.1) (sym same_left)
      (subst (λ (r : Outcome × Engine). IsTracked (more' ++ left) r.1) (sym same) h)

start-IsTracked :
    (c : StartCalls) (left : List ℕ) (e : Engine)
    → IsTracked left e
    → IsTracked (left_by_start c e ++ left) (start c e).1
start-IsTracked c left e h = elim (Bool-cases e.running) [
  | inl r ↦ call-IsTracked left _ [] _ (failed, e) (start_running c e r) h
  | inr r ↦ elim (Bool-cases e.db_open) [
    | inl d ↦
        call-IsTracked left _ (left_by_row c e c.machine) _ _ (start_lem c e r d)
          (start_row-IsTracked c c.machine left e r h)
    | inr d ↦
        call-IsTracked left _ [] _ (panics, record e { running = true }) (start_closed c e r d)
          (kept _ left e r h (λ m l. inl l))
  ]
]

-- of what runs behind a handle's end, only what was given up had this handle
ended-All :
    (P : ℕ → Type 0) (in_time : Bool) (o : Option ℕ) (live : List ℕ)
    → All P live
    → All (λ m. P m × (o ≡ some m → Member m (given_up in_time o))) (ended in_time o live)
ended-All P in_time none live h =
    All-weaken _ _ live (λ m p. (p, λ e. absurd (ground (arith, e)))) h
ended-All P true (some n) live h =
    All-keep _ (λ m. not (m == n)) live
      (λ m k other. (All-Member P k h, λ e. absurd (ground (arith, e, other))))
ended-All P false (some n) live h =
    All-weaken _ _ live (λ m p. (p, λ e. subst (λ k. Member k (n ∷ [])) (ground (arith, e)) head)) h

-- behind a stop: what was handled has ended or was given up
stopped :
    (Q : ℕ → Type 0) (c : StopCalls) (left : List ℕ) (e : Engine)
    → IsTracked left e
    → ((m : ℕ)
        → Member m (
            (given_up c.sched_ends e.chain_sched_cancel ++ given_up c.keepalive_ends e.keepalive)
            ++ left)
        → Q m)
    → All Q (
        ended true e.te
          (ended c.keepalive_ends e.keepalive (ended c.sched_ends e.chain_sched_cancel e.live)))
stopped Q c left e h f =
    let sched = given_up c.sched_ends e.chain_sched_cancel in
    let alive = given_up c.keepalive_ends e.keepalive in
    All-weaken _ Q _
      (λ m (((t, s), k), n). f m (elim t [
        | inl l ↦ Member-append_right (sched ++ alive) l
        | inr (on, handle) ↦ elim handle [
          | inl a ↦ Member-append_left left (Member-append_left alive (s a))
          | inr (inl b) ↦ elim (n b) [ ]
          | inr (inr d) ↦ Member-append_left left (Member-append_right sched (k d))
        ]
      ]))
      (ended-All _ true e.te _ (
        ended-All _ c.keepalive_ends e.keepalive _
          (ended-All _ c.sched_ends e.chain_sched_cancel e.live h)))

stop-IsTracked :
    (c : StopCalls) (left : List ℕ) (e : Engine)
    → IsTracked left e
    → IsTracked (left_by_stop c e ++ left) (stop c e).1
unfolding stop
stop-IsTracked c left e h = elim (Bool-cases e.running) [
  | inr r ↦ call-IsTracked left _ [] _ (done, e) (stop_idle c e r) h
  | inl r ↦ elim (Bool-cases e.db_open) [
    | inl d ↦ elim (Bool-cases c.close) [
      | inl k ↦ rw (r, d, k) (stopped _ c left e h (λ m l. inl l))
      | inr k ↦ rw (r, d, k) (stopped _ c left e h (λ m l. inl l))
    ]
    | inr d ↦ rw (r, d) (stopped _ c left e h (λ m l. inl l))
  ]
]

abbrev unless : Bool → Outcome × Engine → Outcome × Engine → Outcome × Engine
unless b x y = if b then x else y

unless-IsTracked :
    (b : Bool) (left : List ℕ) (e f : Engine)
    → IsTracked left e
    → IsTracked left f
    → IsTracked left (unless b (panics, e) (done, f)).1
unless-IsTracked true left e f h k = h
unless-IsTracked false left e f h k = k

-- In whatever order a program sets up, starts and stops an engine, with whatever outcome: everything that
-- runs was left, or the engine runs and has a handle for it. What a call leaves is: by a `Start`, the
-- poll goroutine of its notify task, and, if it fails behind that, the heartbeat and the task engine
-- that it started; by a `Stop`, the scheduler's goroutine and the heartbeat as far as they do not
-- end while it waits. So while the engine does not run, nothing else runs.
pub Run-IsTracked : {left : List ℕ} {e : Engine} → Run new_engine left e → IsTracked left e
unfolding set_chain_sched on_before_chain_sched
Run-IsTracked nothing = tt
Run-IsTracked (sets {f} {left} sched r) =
    unless-IsTracked f.running left f (record f { chain_sched = sched }) (Run-IsTracked r)
      (Run-IsTracked r)
Run-IsTracked (hooks_on {f} {left} r) =
    unless-IsTracked f.running left f (record f { hooks = suc f.hooks }) (Run-IsTracked r)
      (Run-IsTracked r)
Run-IsTracked (starts {f} {left} c r) = start-IsTracked c left f (Run-IsTracked r)
Run-IsTracked (stops {f} {left} c r) = stop-IsTracked c left f (Run-IsTracked r)
