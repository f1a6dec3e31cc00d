-- ===== src/Dashboard/Messages/Laws.antt =====
-- internal/dashboard/dashboard.go: which messages `handleClearStaleMessages` removes.
use curio_core.Sql.Drops.{Drops-trans, delete-Drops, Drops-refl, Drops}
use curio_core.Env.{ticked, Env}
use curio_core.Dashboard.Messages.{
  below, differs, distinct_senders, clear_senders, clear_below, is_stale, not_in, World, Mpool,
  WaitRow, handle_clear_stale_messages, SendRow,
}
use curio_core.Base.{
  bytes_eq_iff, subst, Option-cases, ◌∙◌, ◌≢◌, Bool-cases, All, ◌∷◌, ◌⊎◌, ◌<◌, Bytes, Bool, Option,
  List, ℕ, arith, ap, sym, inr, inl, false, true, some, none, refl, [], ◌≡◌,
}

-- no wait bears the hash of the send, and where there are waits the send has a hash
abbrev pub HasNoWait : List WaitRow → SendRow → Type 0
HasNoWait waits s =
    (waits ≡ [])
    ⊎ ((h : Bytes) × (s.signed_hash ≡ some h)
        × All (λ w. (k : Bytes) × (w.signed_tx_hash ≡ some k) × (h ≢ k)) waits)

-- a send that no wait tracks, below the nonce that the chain client tells of its sender
abbrev pub IsStale : (Bytes → Option ℕ) → List WaitRow → SendRow → Type 0
IsStale pending_nonce waits s =
    ((n : ℕ) × (m : ℕ) × (s.nonce ≡ some n) × (pending_nonce s.from_address ≡ some m) × (n < m))
    × HasNoWait waits s

differs_iff :
    (a : Bytes) (o : Option Bytes)
    → differs (some a) o ≡ true
    → (k : Bytes) × (o ≡ some k) × (a ≢ k)
differs_iff a none h = absurd (ground (arith, h))
differs_iff a (some k) h = (k, refl, λ e. ground (arith, h, e, bytes_eq_iff a k))

not_in-All :
    (a : Bytes) (waits : List WaitRow)
    → not_in (some a) waits ≡ true
    → All (λ w. (k : Bytes) × (w.signed_tx_hash ≡ some k) × (a ≢ k)) waits
not_in-All a [] h = tt
not_in-All a (w ∷ ws) h =
    (differs_iff a w.signed_tx_hash (ground (arith, h)), not_in-All a ws (ground (arith, h)))

not_in-HasNoWait :
    (s : SendRow) (waits : List WaitRow) → not_in s.signed_hash waits ≡ true → HasNoWait waits s
not_in-HasNoWait s [] h = inl refl
not_in-HasNoWait s (w ∷ ws) h = elim (Option-cases s.signed_hash) [
  | inl e ↦ absurd (ground (arith, h, ap (λ o. not_in o (w ∷ ws)) e))
  | inr (a, e) ↦ inr (a, e, not_in-All a (w ∷ ws) (sym (ap (λ o. not_in o (w ∷ ws)) e) ∙ h))
]

below_iff : (nonce : ℕ) (o : Option ℕ) → below nonce o ≡ true → (n : ℕ) × (o ≡ some n) × (n < nonce)
below_iff nonce none h = absurd (ground (arith, h))
below_iff nonce (some n) h = (n, refl, ground (arith, h))

is_stale-IsStale :
    (pending_nonce : Bytes → Option ℕ) (sender : Bytes) (nonce : ℕ) (waits : List WaitRow)
    → pending_nonce sender ≡ some nonce
    → (s : SendRow) → is_stale sender nonce waits s ≡ true
    → IsStale pending_nonce waits s
is_stale-IsStale pending_nonce sender nonce waits known s h =
    let (n, numbered, small) = below_iff nonce s.nonce (ground (arith, h)) in
    let own : s.from_address ≡ sender =
      (bytes_eq_iff s.from_address sender).0 (ground (arith, h)) in
    (
      (n, nonce, numbered, ap pending_nonce own ∙ known, small),
      not_in-HasNoWait s waits (ground (arith, h)),
    )

-- what a repair leaves: the waits as they are, and all sends but stale ones
abbrev pub ClearsStale : (Bytes → Option ℕ) → Mpool → Mpool → Type 0
ClearsStale pending_nonce before after =
    (after.waits ≡ before.waits)
    × Drops (IsStale pending_nonce before.waits) before.sends after.sends

clear_below-ClearsStale :
    (env : Env) (pending_nonce : Bytes → Option ℕ) (sender : Bytes) (o : Option ℕ) (w : World Mpool)
    → pending_nonce sender ≡ o
    → ClearsStale pending_nonce w.store (clear_below env sender o w).store
clear_below-ClearsStale env pending_nonce sender none w e =
    (refl, Drops-refl (IsStale pending_nonce w.store.waits) w.store.sends)
clear_below-ClearsStale env pending_nonce sender (some nonce) w e =
    elim (Bool-cases (env.fault w.calls)) [
      | inl f ↦
          rw (f, clear_below) (refl, Drops-refl (IsStale pending_nonce w.store.waits) w.store.sends)
      | inr f ↦
          rw (f, clear_below)
            (
              refl,
              delete-Drops (IsStale pending_nonce w.store.waits)
                  (is_stale sender nonce w.store.waits)
                  (is_stale-IsStale pending_nonce sender nonce w.store.waits e) w.store.sends,
            )
    ]

clear_senders-ClearsStale :
    (env : Env) (pending_nonce : Bytes → Option ℕ) (senders : List Bytes) (w : World Mpool)
    → ClearsStale pending_nonce w.store (clear_senders env pending_nonce senders w).store
clear_senders-ClearsStale env pending_nonce [] w =
    (refl, Drops-refl (IsStale pending_nonce w.store.waits) w.store.sends)
clear_senders-ClearsStale env pending_nonce (sender ∷ senders) w =
    let w' = clear_below env sender (pending_nonce sender) w in
    let (same, one) =
      clear_below-ClearsStale env pending_nonce sender (pending_nonce sender) w refl in
    let (same', rest) = clear_senders-ClearsStale env pending_nonce senders w' in
    (
      same' ∙ same,
      Drops-trans (IsStale pending_nonce w.store.waits) one (
          subst
            (λ waits.
              Drops (IsStale pending_nonce waits) w'.store.sends
                (clear_senders env pending_nonce senders w').store.sends)
            same rest),
    )

-- Whatever fails, clearing leaves the waits as they are and the other sends in their order, and removes
-- only sends whose nonce is below the one that the chain client tells of the sender and whose hash is
-- that of no wait.
pub clear_stale-ClearsStale :
    (env : Env) (has_eth : Bool) (pending_nonce : Bytes → Option ℕ) (w : World Mpool)
    → ClearsStale pending_nonce w.store
        (handle_clear_stale_messages env has_eth pending_nonce w).store
unfolding handle_clear_stale_messages
clear_stale-ClearsStale env false pending_nonce w =
    (refl, Drops-refl (IsStale pending_nonce w.store.waits) w.store.sends)
clear_stale-ClearsStale env true pending_nonce w = elim (Bool-cases (env.fault w.calls)) [
  | inl f ↦ rw f (clear_senders-ClearsStale env pending_nonce [] (ticked w))
  | inr f ↦
      rw f
        (clear_senders-ClearsStale env pending_nonce (distinct_senders w.store.sends []) (ticked w))
]
