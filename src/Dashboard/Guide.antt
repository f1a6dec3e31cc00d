-- ===== src/Dashboard/Guide.antt =====
-- internal/dashboard/pdp_guide.go: the walkthrough on top of the checklist.
pub mod Laws
use curio_core.Dashboard.Readiness.{
  compute_readiness, Overview, ready_unknown, is_ok, ReadyState, Server, ReadinessItem,
}
use curio_core.Base.{
  ◌-◌, leb, not, ◌==◌, ◌&&◌, ltb, bytes_eq, ◌∷◌, length, ◌++◌, codes, if◌then◌else◌, ◌||◌, Bytes,
  Bool, Option, List, ℕ, suc, zero, arith, ap, sym, inr, inl, false, true, some, none, refl, [],
  ◌≡◌,
}

pub record GuideAction : Type 0 where
  pub label : Bytes
  pub cmd : Bytes
  pub href : Bytes

pub record GuideStep : Type 0 where
  pub num : ℕ
  pub key : Bytes
  pub title : Bytes
  pub why : Bytes
  pub state : ReadyState
  pub detail : Bytes
  pub critical : Bool
  pub locked : Bool
  pub actions : List GuideAction

pub record GuideReport : Type 0 where
  pub steps : List GuideStep
  pub ok : ℕ
  pub total : ℕ
  pub all_ready : Bool
  pub next_num : ℕ
  pub next : Option GuideStep

-- a step before the live state is known; `fixes` are the actions where the state is not ok
pub record GuideCopy : Type 0 where
  pub key : Bytes
  pub title : Bytes
  pub why : Bytes
  pub critical : Bool
  pub fixes : List GuideAction

abbrev pub run_cmd : Bytes → Bytes → GuideAction
run_cmd label cmd = record { label = label; cmd = cmd; href = [] }

abbrev pub open_page : Bytes → Bytes → GuideAction
open_page label href = record { label = label; cmd = []; href = href }

abbrev pub canonical_guide : List GuideCopy
canonical_guide =
    record {
      key = codes "chain";
      title = codes "Connect the chain node";
      why =
          codes
            "curio-core reads and writes Filecoin through its own embedded Lantern node — no Lotus, no external RPC, no Glif API key. It starts with the daemon.";
      critical = true;
      fixes = run_cmd (codes "Run diagnostics") (codes "curio-core doctor") ∷ [];
    }
    ∷ record {
      key = codes "wallet";
      title = codes "Configure the PDP wallet";
      why =
          codes
            "The PDP pipeline signs proofs and settlement with a role='pdp' key held in the local eth_keys store. Create a fresh one or import a key you already control.";
      critical = true;
      fixes =
          run_cmd (codes "Create a new PDP key") (codes "curio-core wallet new")
          ∷ run_cmd (codes "Import an existing key")
              (codes "curio-core wallet import 0x<private-key>")
          ∷ [];
    }
    ∷ record {
      key = codes "funded";
      title = codes "Fund the wallet for gas";
      why =
          codes
            "Every proof and settlement is an on-chain message. The PDP wallet needs a little FIL to pay gas, or proving stalls the moment a challenge lands.";
      critical = true;
      fixes = open_page (codes "View wallet balance") (codes "/wallets") ∷ [];
    }
    ∷ record {
      key = codes "stash";
      title = codes "Set the piece stash directory";
      why =
          codes
            "Client pieces are stream-committed straight into the stash directory — that file is the piece's permanent home, so it must be on durable storage with room to grow.";
      critical = true;
      fixes = open_page (codes "Review storage paths") (codes "/storage") ∷ [];
    }
    ∷ record {
      key = codes "datasets";
      title = codes "Accept your first dataset";
      why =
          codes
            "A dataset is a client's proof set. You begin earning on a payment rail the moment one goes active — until then the SP is idle but healthy.";
      critical = false;
      fixes =
          open_page (codes "Upload a piece") (codes "/upload")
          ∷ open_page (codes "View datasets") (codes "/datasets")
          ∷ [];
    }
    ∷ record {
      key = codes "proving";
      title = codes "Keep proofs healthy";
      why =
          codes
            "PDP demands a proof every challenge window. A missed proof faults the dataset and pauses payment, so watch prove tasks and the mpool for stuck sends.";
      critical = false;
      fixes =
          open_page (codes "View prove tasks") (codes "/tasks")
          ∷ open_page (codes "Check the mpool") (codes "/messages")
          ∷ [];
    }
    ∷ []

-- the map of the items by their key: a later item replaces an earlier one
abbrev pub by_key : Bytes → List ReadinessItem → Option ReadinessItem
by_key key [] = none
by_key key (it ∷ items) = later (by_key key items)
  where
    later : Option ReadinessItem → Option ReadinessItem
    later none = if bytes_eq it.key key then some it else none
    later (some found) = some found

abbrev pub actions_for : GuideCopy → ReadyState → List GuideAction
actions_for c st = if is_ok st then [] else c.fixes

-- a step with its state; `prior` says that an earlier critical step is unmet
abbrev pub lock_step : Bool → GuideCopy → GuideStep → GuideStep
lock_step prior c step =
    let locked = step.locked || (step.critical && prior && not (is_ok step.state)) in
    record step { locked = locked; actions = if locked then [] else actions_for c step.state }

abbrev pub overlay : ℕ → GuideCopy → Option ReadinessItem → GuideStep
overlay num c none = record {
  num = num;
  key = c.key;
  title = c.title;
  why = c.why;
  state = ready_unknown;
  detail = codes "waiting on an earlier step";
  critical = c.critical;
  locked = true;
  actions = [];
}
overlay num c (some it) = record {
  num = num;
  key = c.key;
  title = c.title;
  why = c.why;
  state = it.state;
  detail = it.detail;
  critical = it.critical || c.critical;
  locked = false;
  actions = [];
}

abbrev pub guide_step : List ReadinessItem → ℕ → Bool → GuideCopy → GuideStep
guide_step items num prior c = lock_step prior c (overlay num c (by_key c.key items))

-- `priorCriticalUnmet` behind a step
abbrev pub unmet_after : Bool → GuideStep → Bool
unmet_after prior step = if is_ok step.state then prior else if step.critical then true else prior

abbrev pub next_after : ℕ → GuideStep → ℕ
next_after next step =
    if is_ok step.state
    then next
    else if step.critical
    then (if next == 0 then step.num else next)
    else if next == 0
    then step.num
    else next

abbrev pub add_step : GuideReport → GuideStep → GuideReport
add_step out step = record out {
  steps = out.steps ++ (step ∷ []);
  ok = if is_ok step.state then suc out.ok else out.ok;
  next_num = next_after out.next_num step;
}

-- the loop, with the number of the step before and `priorCriticalUnmet`
unfoldable pub guide_loop :
    List ReadinessItem → List GuideCopy → ℕ → Bool → GuideReport → GuideReport
guide_loop items [] num prior out = out
guide_loop items (c ∷ cs) num prior out =
    let step = guide_step items (suc num) prior c in
    guide_loop items cs (suc num) (unmet_after prior step) (add_step out step)

abbrev pub step_at : ℕ → List GuideStep → Option GuideStep
step_at i [] = none
step_at zero (x ∷ xs) = some x
step_at (suc i) (x ∷ xs) = step_at i xs

abbrev pub close_report : Bool → GuideReport → GuideReport
close_report all_ready out = record out {
  total = length out.steps;
  all_ready = all_ready;
  next =
      if ltb 0 out.next_num && leb out.next_num (length out.steps)
      then step_at (out.next_num - 1) out.steps
      else none;
}

abbrev pub empty_report : GuideReport
empty_report = record {
  steps = [];
  ok = 0;
  total = 0;
  all_ready = false;
  next_num = 0;
  next = none;
}

unfoldable pub compute_guide : Server → Overview → GuideReport
compute_guide s ov =
    let rep = compute_readiness s ov in
    close_report rep.all_ready (guide_loop rep.items canonical_guide 0 false empty_report)
