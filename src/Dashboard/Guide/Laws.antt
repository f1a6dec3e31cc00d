-- ===== src/Dashboard/Guide/Laws.antt =====
-- internal/dashboard/pdp_guide.go: the order in which the walkthrough leads through the steps.
use curio_core.Dashboard.Guide.{
  lock_step, by_key, overlay, empty_report, add_step, canonical_guide, is_ok, compute_readiness,
  unmet_after, guide_step, GuideReport, Overview, GuideCopy, Server, guide_loop, compute_guide,
  GuideStep,
}
use curio_core.Dashboard.Readiness.{ReadinessItem}
use curio_core.Base.{
  ◌||◌, All-of_forall, Bool-cases, subst, append_assoc, ◌∙◌, append-nil, ◌==◌, ◌++◌, not, All,
  if◌then◌else◌, ◌&&◌, ◌∷◌, any, Bool, Option, List, ℕ, suc, arith, ap, sym, inr, inl, false, true,
  some, none, refl, [], ◌≡◌,
}

-- critical, and not satisfied
abbrev pub is_gap : GuideStep → Bool
is_gap x = x.critical && not (is_ok x.state)

abbrev pub has_actions : GuideStep → Bool
has_actions x = any (λ a. true) x.actions

-- behind a critical gap no critical gap offers an action
abbrev pub AreSequential : List GuideStep → Type 0
AreSequential [] = Unit
AreSequential (x ∷ xs) =
    All (λ y. (is_gap x && (is_gap y && has_actions y)) ≡ false) xs × AreSequential xs

-- the number of the first step that is not ok, counted from one; 0 if all are
abbrev pub first_open : ℕ → List GuideStep → ℕ
first_open n [] = 0
first_open n (x ∷ xs) = let rest = first_open (suc n) xs in if is_ok x.state then rest else suc n

-- the steps of the loop, each after those before it
abbrev steps_from : List ReadinessItem → List GuideCopy → ℕ → Bool → List GuideStep
steps_from items [] num prior = []
steps_from items (c ∷ cs) num prior =
    guide_step items (suc num) prior c
    ∷ steps_from items cs (suc num) (unmet_after prior (guide_step items (suc num) prior c))

guide_loop-steps :
    (items : List ReadinessItem) (cs : List GuideCopy) (num : ℕ) (prior : Bool) (out : GuideReport)
    → (guide_loop items cs num prior out).steps ≡ out.steps ++ steps_from items cs num prior
unfolding guide_loop
guide_loop-steps items [] num prior out = sym (append-nil out.steps)
guide_loop-steps items (c ∷ cs) num prior out =
    let step = guide_step items (suc num) prior c in
    guide_loop-steps items cs (suc num) (unmet_after prior step) (add_step out step)
    ∙ append_assoc out.steps (step ∷ []) (steps_from items cs (suc num) (unmet_after prior step))

overlay_num :
    (num : ℕ) (c : GuideCopy) (found : Option ReadinessItem) → (overlay num c found).num ≡ num
overlay_num num c none = refl
overlay_num num c (some it) = refl

step_num :
    (items : List ReadinessItem) (num : ℕ) (prior : Bool) (c : GuideCopy)
    → (guide_step items num prior c).num ≡ num
step_num items num prior c = overlay_num num c (by_key c.key items)

guide_loop-next_num :
    (items : List ReadinessItem) (cs : List GuideCopy) (num : ℕ) (prior : Bool) (out : GuideReport)
    → (guide_loop items cs num prior out).next_num
      ≡ (if out.next_num == 0 then first_open num (steps_from items cs num prior) else out.next_num)
unfolding guide_loop
guide_loop-next_num items [] num prior out = ground arith
guide_loop-next_num items (c ∷ cs) num prior out =
    let step = guide_step items (suc num) prior c in
    ground (
      arith,
      step_num items (suc num) prior c,
      guide_loop-next_num items cs (suc num) (unmet_after prior step) (add_step out step),
    )

-- with a critical gap before, no critical gap offers an action
lock_step-gap :
    (c : GuideCopy) (step : GuideStep)
    → (is_gap (lock_step true c step) && has_actions (lock_step true c step)) ≡ false
lock_step-gap c step = elim (Bool-cases (step.critical && not (is_ok step.state))) [
  | inl e ↦
      let shut : (step.locked || (step.critical && true && not (is_ok step.state))) ≡ true =
        ground (arith, e) in
      rw shut (ground arith)
  | inr e ↦ rw e refl
]

locked_gap :
    (items : List ReadinessItem) (num : ℕ) (c : GuideCopy)
    → (is_gap (guide_step items num true c) && has_actions (guide_step items num true c)) ≡ false
locked_gap items num c = lock_step-gap c (overlay num c (by_key c.key items))

unmet_stays : (step : GuideStep) → unmet_after true step ≡ true
unmet_stays step = ground arith

gap_unmet : (prior : Bool) (step : GuideStep) → is_gap step ≡ true → unmet_after prior step ≡ true
gap_unmet prior step h = ground (arith, h)

steps_from-locked :
    (items : List ReadinessItem) (cs : List GuideCopy) (num : ℕ)
    → All (λ y. (is_gap y && has_actions y) ≡ false) (steps_from items cs num true)
steps_from-locked items [] num = tt
steps_from-locked items (c ∷ cs) num =
    let step = guide_step items (suc num) true c in
    (
      locked_gap items (suc num) c,
      subst
          (λ prior.
            All (λ y. (is_gap y && has_actions y) ≡ false) (steps_from items cs (suc num) prior))
          (sym (unmet_stays step)) (steps_from-locked items cs (suc num)),
    )

steps_from-AreSequential :
    (items : List ReadinessItem) (cs : List GuideCopy) (num : ℕ) (prior : Bool)
    → AreSequential (steps_from items cs num prior)
steps_from-AreSequential items [] num prior = tt
steps_from-AreSequential items (c ∷ cs) num prior =
    let step = guide_step items (suc num) prior c in
    let rest = steps_from-AreSequential items cs (suc num) (unmet_after prior step) in
    elim (Bool-cases (is_gap step)) [
      | inl e ↦ (
        rw e (
            subst
              (λ p.
                All (λ y. (is_gap y && has_actions y) ≡ false) (steps_from items cs (suc num) p))
              (sym (gap_unmet prior step e)) (steps_from-locked items cs (suc num))),
        rest,
      )
      | inr e ↦ (
        rw e (
            All-of_forall (λ y. false ≡ false)
              (steps_from items cs (suc num) (unmet_after prior step)) (λ y. refl)),
        rest,
      )
    ]

-- Whatever the state of the provider, the step to do next is the first that is not ok, and behind a
-- critical step that is not ok no critical step that is not ok offers an action.
pub compute_guide-AreSequential :
    (s : Server) (ov : Overview)
    → ((compute_guide s ov).next_num ≡ first_open 0 (compute_guide s ov).steps)
      × AreSequential (compute_guide s ov).steps
unfolding compute_guide
compute_guide-AreSequential s ov =
    let items = (compute_readiness s ov).items in
    let same = guide_loop-steps items canonical_guide 0 false empty_report in
    (
      guide_loop-next_num items canonical_guide 0 false empty_report ∙ ap (first_open 0) (sym same),
      subst AreSequential (sym same) (steps_from-AreSequential items canonical_guide 0 false),
    )
