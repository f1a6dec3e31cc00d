-- ===== src/Dashboard/Readiness/Laws.antt =====
-- internal/dashboard/pdp_readiness.go: what the verdict of the checklist means.
use curio_core.Dashboard.Readiness.{
  readiness_items, tally, ReadinessReport, fund_state, balance_state, stash_state, chain_state,
  Overview, Server, ReadinessItem, is_ok, compute_readiness,
}
use curio_core.Base.{
  bytes_eq_iff, ◌∙◌, Bool-cases, negsuc, not, pos, bytes_eq, ◌&&◌, ◌≢◌, is_positive, ℤ, ◌↔◌, length,
  ◌∷◌, if◌then◌else◌, Bool, Option, List, ℕ, suc, zero, arith, ap, sym, inr, inl, false, true, some,
  none, refl, [], ◌≡◌,
}

abbrev critical_ok : List ReadinessItem → Bool
critical_ok [] = true
critical_ok (it ∷ items) =
    (if it.critical && not (is_ok it.state) then false else true) && critical_ok items

tally-all_ready :
    (items : List ReadinessItem) (rep : ReadinessReport)
    → (tally items rep).all_ready ≡ (rep.all_ready && critical_ok items)
tally-all_ready [] rep = ground arith
tally-all_ready (it ∷ items) rep = ground (
  arith,
  tally-all_ready items (record rep {
    ok = if is_ok it.state then suc rep.ok else rep.ok;
    all_ready = if it.critical && not (is_ok it.state) then false else rep.all_ready;
  }),
)

is_ok-chain_state : (ov : Overview) → is_ok (chain_state ov).0 ≡ (ov.reachable && ov.synced)
is_ok-chain_state ov = ground arith

is_ok-stash_state : (s : Server) → is_ok (stash_state s).0 ≡ not (bytes_eq s.stash_dir [])
is_ok-stash_state s = ground arith

abbrev is_funded : Option (Option ℤ) → Bool
is_funded none = false
is_funded (some none) = false
is_funded (some (some n)) = is_positive n

is_ok-balance_state : (b : Option (Option ℤ)) → is_ok (balance_state b).0 ≡ is_funded b
is_ok-balance_state none = refl
is_ok-balance_state (some none) = refl
is_ok-balance_state (some (some n)) = elim (Bool-cases (is_positive n)) [
  | inl e ↦ rw e refl
  | inr e ↦ rw e refl
]

is_funded_iff :
    (b : Option (Option ℤ)) → is_funded b ≡ true → (n : ℕ) × (b ≡ some (some (pos (suc n))))
is_funded_iff none h = absurd (ground (arith, h))
is_funded_iff (some none) h = absurd (ground (arith, h))
is_funded_iff (some (some (pos zero))) h = absurd (ground (arith, h))
is_funded_iff (some (some (pos (suc n)))) h = (n, refl)
is_funded_iff (some (some (negsuc n))) h = absurd (ground (arith, h))

is_ok-fund_state :
    (s : Server) → is_ok (fund_state s).0 ≡ (s.has_eth && s.is_hex_address && is_funded s.balance)
is_ok-fund_state s = elim (Bool-cases s.has_eth) [
  | inl a ↦ elim (Bool-cases s.is_hex_address) [
    | inl b ↦ rw (a, b) (is_ok-balance_state s.balance)
    | inr b ↦ rw (a, b) refl
  ]
  | inr a ↦ rw a refl
]

-- the three critical states, and whether a payee is set
abbrev verdict : Bool → Bool → Bool → Bool → Bool
verdict chain payee funded stash = chain && payee && funded && stash

critical_items :
    (s : Server) (ov : Overview)
    → critical_ok (readiness_items s ov)
      ≡ verdict
          (is_ok (chain_state ov).0)
          (not (bytes_eq s.payee_address []))
          (is_ok (fund_state s).0)
          (is_ok (stash_state s).0)
critical_items s ov = elim (Bool-cases (bytes_eq s.payee_address [])) [
  | inl e ↦
      rw e (tests (is_ok (chain_state ov).0) (is_ok (fund_state s).0) (is_ok (stash_state s).0))
  | inr e ↦
      rw e (tests' (is_ok (chain_state ov).0) (is_ok (fund_state s).0) (is_ok (stash_state s).0))
]
  where
    tests : (c f t : Bool) → ((if not c then false else true) && false) ≡ verdict c false f t
    tests c f t = ground arith

    tests' :
        (c f t : Bool)
        → ((if not c then false else true)
            && ((if not f then false else true) && ((if not t then false else true) && true)))
          ≡ verdict c true f t
    tests' c f t = ground arith

-- the verdict, as a test of the configuration and the chain
all_ready_test :
    (s : Server) (ov : Overview)
    → (compute_readiness s ov).all_ready ≡ (
        ov.reachable
        && ov.synced
        && not (bytes_eq s.payee_address [])
        && s.has_eth
        && s.is_hex_address
        && is_funded s.balance
        && not (bytes_eq s.stash_dir []))
unfolding compute_readiness
all_ready_test s ov =
    tally-all_ready (readiness_items s ov) (record {
      items = readiness_items s ov;
      ok = 0;
      total = length (readiness_items s ov);
      all_ready = true;
    })
    ∙ critical_items s ov
    ∙ rw (is_ok-chain_state ov, is_ok-fund_state s, is_ok-stash_state s) (ground arith)

-- The verdict is that all is ready exactly when the chain node answers and follows the head, a wallet
-- is configured, the chain client says that its balance is positive, and a stash directory is set.
pub all_ready_iff :
    (s : Server) (ov : Overview)
    → ((compute_readiness s ov).all_ready ≡ true) ↔ (
        (ov.reachable ≡ true)
        × (ov.synced ≡ true)
        × (s.payee_address ≢ [])
        × (s.has_eth ≡ true)
        × (s.is_hex_address ≡ true)
        × ((n : ℕ) × (s.balance ≡ some (some (pos (suc n)))))
        × (s.stash_dir ≢ []))
all_ready_iff s ov =
    let test = all_ready_test s ov in
    (
      λ h.
          let all : (ov.reachable
                && ov.synced
                && not (bytes_eq s.payee_address [])
                && s.has_eth
                && s.is_hex_address
                && is_funded s.balance
                && not (bytes_eq s.stash_dir []))
              ≡ true =
            sym test ∙ h in
          (
            ground (arith, all),
            ground (arith, all),
            λ e. ground (arith, all, e, bytes_eq_iff s.payee_address []),
            ground (arith, all),
            ground (arith, all),
            is_funded_iff s.balance (ground (arith, all)),
            λ e. ground (arith, all, e, bytes_eq_iff s.stash_dir []),
          ),
      λ (reachable, synced, payee, eth, hex, (n, balance), stash).
          test
          ∙ ground (
            arith,
            reachable,
            synced,
            payee,
            eth,
            hex,
            ap is_funded balance,
            stash,
            bytes_eq_iff s.payee_address [],
            bytes_eq_iff s.stash_dir [],
          ),
    )
