-- ===== src/Dashboard/Readiness.antt =====
-- internal/dashboard/pdp_readiness.go: the checklist of a provider.
--
-- What the chain node and the database say is an argument. Text outside ASCII is its code points.
pub mod Laws
use curio_core.Amounts.Display.{decimal18}
use curio_core.Base.{
  decimal, not, pos, bytes_eq, ◌&&◌, ◌≢◌, is_positive, ltb, ◌==◌, ◌++◌, ℤ, ◌↔◌, length, ◌∷◌,
  if◌then◌else◌, codes, Bytes, Bool, Option, List, ℕ, suc, zero, arith, ap, sym, inr, inl, false,
  true, some, none, refl, [], ◌≡◌,
}

pub data ReadyState : Type 0 where
  ready_ok ready_warn ready_fail ready_unknown : ReadyState

abbrev pub is_ok : ReadyState → Bool
is_ok ready_ok = true
is_ok ready_warn = false
is_ok ready_fail = false
is_ok ready_unknown = false

pub record ReadinessItem : Type 0 where
  pub key : Bytes
  pub label : Bytes
  pub state : ReadyState
  pub detail : Bytes
  pub critical : Bool

pub record ReadinessReport : Type 0 where
  pub items : List ReadinessItem
  pub ok : ℕ
  pub total : ℕ
  pub all_ready : Bool

-- the part of the overview that the checklist reads
pub record Overview : Type 0 where
  pub reachable : Bool
  pub synced : Bool
  pub datasets_active : ℕ
  pub prove_success : ℕ
  pub prove_failed : ℕ

-- the server: the payee and the stash directory of its configuration, whether there is a chain client,
-- whether the payee is a hexadecimal address, and what the client says of its balance: `none` for an
-- error, and then `none` for a nil balance
pub record Server : Type 0 where
  pub payee_address : Bytes
  pub stash_dir : Bytes
  pub has_eth : Bool
  pub is_hex_address : Bool
  pub balance : Option (Option ℤ)

unfoldable pub pluralize : ℕ → Bytes → Bytes
pluralize n noun =
    if n == 1
    then decimal n ++ (codes " " ++ noun)
    else decimal n ++ (codes " " ++ (noun ++ codes "s"))

abbrev pub item : Bytes → Bytes → ReadyState × Bytes → Bool → ReadinessItem
item key label (state, detail) critical = record {
  key = key;
  label = label;
  state = state;
  detail = detail;
  critical = critical;
}

abbrev pub chain_state : Overview → ReadyState × Bytes
chain_state ov =
    if ov.reachable && ov.synced
    then (ready_ok, codes "embedded Lantern reachable + synced")
    else if ov.reachable
    then (ready_warn, codes "reachable, head not advancing yet")
    else (ready_fail, codes "embedded node not answering")

abbrev pub balance_state : Option (Option ℤ) → ReadyState × Bytes
balance_state none = (ready_unknown, codes "balance read failed")
balance_state (some none) = (ready_fail, codes "0 FIL — fund to pay proving gas")
balance_state (some (some n)) =
    if is_positive n
    then (ready_ok, decimal18 (some n) ++ codes " FIL")
    else (ready_fail, codes "0 FIL — fund to pay proving gas")

abbrev pub fund_state : Server → ReadyState × Bytes
fund_state s =
    if s.has_eth && s.is_hex_address
    then balance_state s.balance
    else (ready_unknown, codes "balance unavailable (eth client unwired)")

abbrev pub wallet_items : Server → List ReadinessItem
wallet_items s =
    if bytes_eq s.payee_address []
    then item (codes "wallet") (codes "PDP wallet configured")
        (ready_fail, codes "no eth_keys role=pdp wallet set") true
      ∷ []
    else item (codes "wallet") (codes "PDP wallet configured") (ready_ok, s.payee_address) true
      ∷ item (codes "funded") (codes "PDP wallet funded for gas") (fund_state s) true
      ∷ []

abbrev pub stash_state : Server → ReadyState × Bytes
stash_state s =
    if bytes_eq s.stash_dir []
    then (ready_fail, codes "no stash directory configured")
    else (ready_ok, s.stash_dir)

abbrev pub dataset_state : Overview → ReadyState × Bytes
dataset_state ov =
    if ltb 0 ov.datasets_active
    then (ready_ok, pluralize ov.datasets_active (codes "active dataset"))
    else (ready_warn, codes "no active datasets yet")

abbrev pub prove_state : Overview → ReadyState × Bytes
prove_state ov =
    if ltb 0 ov.prove_failed
    then (ready_fail, pluralize ov.prove_failed (codes "prove failure") ++ codes " in 24h")
    else if ov.prove_success == 0 && ltb 0 ov.datasets_active
    then (ready_warn, codes "no prove activity in 24h")
    else if ov.prove_success == 0
    then (ready_warn, codes "no prove activity yet")
    else (ready_ok, pluralize ov.prove_success (codes "prove task") ++ codes " ran, 0 failed")

abbrev pub readiness_items : Server → Overview → List ReadinessItem
readiness_items s ov =
    item (codes "chain") (codes "Chain node reachable") (chain_state ov) true
    ∷ (wallet_items s
        ++ (item (codes "stash") (codes "Piece stash directory set") (stash_state s) true
            ∷ item (codes "datasets") (codes "Serving a dataset") (dataset_state ov) false
            ∷ item (codes "proving") (codes "Proving healthy (24h)") (prove_state ov) false
            ∷ []))

-- the loop over the items
abbrev pub tally : List ReadinessItem → ReadinessReport → ReadinessReport
tally [] rep = rep
tally (it ∷ items) rep = tally items (record rep {
  ok = if is_ok it.state then suc rep.ok else rep.ok;
  all_ready = if it.critical && not (is_ok it.state) then false else rep.all_ready;
})

unfoldable pub compute_readiness : Server → Overview → ReadinessReport
compute_readiness s ov = tally (readiness_items s ov) (record {
  items = readiness_items s ov;
  ok = 0;
  total = length (readiness_items s ov);
  all_ready = true;
})
