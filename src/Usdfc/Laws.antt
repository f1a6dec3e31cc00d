-- ===== src/Usdfc/Laws.antt =====
-- internal/usdfcacquire: what is sent, and when the wait for a fill ends.
use curio_core.Usdfc.{got, is_filled, filled_status, TransactionRequest, Outcome, wait_filled}
use curio_core.Usdfc.Signer.{
  with_tip, with_cap, with_key, with_gas, to_ecdsa, with_nonce, sign_and_broadcast, sent, parse_big,
  send_signed, DynamicFeeTx, Client,
}
use curio_core.Base.{
  bytes_eq_iff, ◌||◌, ◌&&◌, bytes_eq, not, ◌≢◌, ◌∙◌, subst, codes, ◌==◌, ◌⊎◌, length, ℤ, sym, false,
  ◌∷◌, Bool-cases, ◌++◌, ◌≡◌, All, Bytes, Option, List, ℕ, arith, inr, inl, true, some, none, refl,
  [],
}

-- The wait returns the first status that is a success, if one comes before the context is done.
wait_filled-first :
    (before : List (Outcome Bytes)) (s : Bytes) (after : List (Outcome Bytes))
    → All (λ o. filled_status o ≡ none) before
    → is_filled s ≡ true
    → wait_filled (before ++ (got s ∷ after)) ≡ some s
unfolding wait_filled
wait_filled-first [] s after h e = rw e refl
wait_filled-first (o ∷ before) s after h e = rw h.0 (wait_filled-first before s after h.1 e)

one_of_two :
    (s t u : Bytes) → (not (bytes_eq s t) && not (bytes_eq s u)) ≡ false → (s ≡ t) ⊎ (s ≡ u)
one_of_two s t u h = elim (Bool-cases (bytes_eq s t)) [
  | inl e ↦ inl ((bytes_eq_iff s t).0 e)
  | inr e ↦ inr ((bytes_eq_iff s u).0 (ground (arith, e, h)))
]

not_empty : (s : Bytes) → bytes_eq s [] ≡ false → s ≢ []
not_empty s h e = absurd (ground (arith, h, (bytes_eq_iff s []).1 e))

module _ (decode_big : Bytes → Option ℕ) (hex_to_address from_hex : Bytes → Bytes) where
  -- the transaction has the fields of the request, and the client took it, signed, with its nonce
  abbrev pub IsSent : Client → ℕ → Bytes → TransactionRequest → DynamicFeeTx → Type 0
  IsSent cl chain_id from tr tx =
      (tx.chain_id ≡ chain_id)
      × (tx.to ≡ hex_to_address tr.target)
      × (tx.value ≡ parse_big decode_big hex_to_address from_hex tr.value)
      × (tx.payload ≡ from_hex tr.payload)
      × (cl.pending_nonce from ≡ some tx.nonce)
      × ((signed : Bytes) × (cl.sign tx ≡ some signed) × (cl.send_transaction signed ≡ true))

  send_signed-sent :
      (cl : Client) (tx tx' : DynamicFeeTx) (o : Option Bytes)
      → send_signed decode_big hex_to_address from_hex cl tx o ≡ sent tx'
      → (signed : Bytes) × (o ≡ some signed) × (cl.send_transaction signed ≡ true) × (tx ≡ tx')
  send_signed-sent cl tx tx' none h = absurd (ground (arith, h))
  send_signed-sent cl tx tx' (some signed) h = elim (Bool-cases (cl.send_transaction signed)) [
    | inl e ↦ (signed, refl, e, ground (arith, e, h))
    | inr e ↦ absurd (ground (arith, e, h))
  ]

  with_gas-IsSent :
      (cl : Client) (chain_id : ℕ) (from : Bytes) (nonce : ℕ) (tr : TransactionRequest)
      (tip cap : ℤ) (o : Option ℕ) (tx : DynamicFeeTx)
      → cl.pending_nonce from ≡ some nonce
      → with_gas decode_big hex_to_address from_hex cl chain_id nonce tr tip cap o ≡ sent tx
      → IsSent cl chain_id from tr tx
  with_gas-IsSent cl chain_id from nonce tr tip cap none tx k h = absurd (ground (arith, h))
  with_gas-IsSent cl chain_id from nonce tr tip cap (some gas) tx k h =
      let made : DynamicFeeTx = record {
        chain_id = chain_id;
        nonce = nonce;
        gas_tip_cap = tip;
        gas_fee_cap = cap;
        gas = gas;
        to = hex_to_address tr.target;
        value = parse_big decode_big hex_to_address from_hex tr.value;
        payload = from_hex tr.payload;
      } in
      let (signed, s, taken, same) = send_signed-sent cl made tx (cl.sign made) h in
      subst (IsSent cl chain_id from tr) same (refl, refl, refl, refl, k, (signed, s, taken))

  with_cap-IsSent :
      (cl : Client) (chain_id : ℕ) (from : Bytes) (nonce : ℕ) (tr : TransactionRequest) (tip : ℤ)
      (o : Option ℤ) (tx : DynamicFeeTx)
      → cl.pending_nonce from ≡ some nonce
      → with_cap decode_big hex_to_address from_hex cl chain_id from nonce tr tip o ≡ sent tx
      → IsSent cl chain_id from tr tx
  with_cap-IsSent cl chain_id from nonce tr tip none tx k h = absurd (ground (arith, h))
  with_cap-IsSent cl chain_id from nonce tr tip (some cap) tx k h =
      with_gas-IsSent cl chain_id from nonce tr tip cap _ tx k h

  with_tip-IsSent :
      (cl : Client) (chain_id : ℕ) (from : Bytes) (nonce : ℕ) (tr : TransactionRequest)
      (o : Option ℤ) (tx : DynamicFeeTx)
      → cl.pending_nonce from ≡ some nonce
      → with_tip decode_big hex_to_address from_hex cl chain_id from nonce tr o ≡ sent tx
      → IsSent cl chain_id from tr tx
  with_tip-IsSent cl chain_id from nonce tr none tx k h = absurd (ground (arith, h))
  with_tip-IsSent cl chain_id from nonce tr (some tip) tx k h =
      with_cap-IsSent cl chain_id from nonce tr tip _ tx k h

  with_nonce-IsSent :
      (cl : Client) (chain_id : ℕ) (from : Bytes) (tr : TransactionRequest) (o : Option ℕ)
      (tx : DynamicFeeTx)
      → cl.pending_nonce from ≡ o
      → with_nonce decode_big hex_to_address from_hex cl chain_id from tr o ≡ sent tx
      → IsSent cl chain_id from tr tx
  with_nonce-IsSent cl chain_id from tr none tx k h = absurd (ground (arith, h))
  with_nonce-IsSent cl chain_id from tr (some nonce) tx k h =
      with_tip-IsSent cl chain_id from nonce tr _ tx k h

  -- what `SignAndBroadcast` sends, it sends for a key of 32 bytes
  abbrev pub IsSentFor :
      (Bytes → Option Bytes)
      → Option Client
      → ℕ
      → Bytes
      → TransactionRequest
      → DynamicFeeTx
      → Type 0
  IsSentFor address_of client chain_id key tr tx =
      (length key ≡ 32)
      × ((from : Bytes) × (cl : Client) × (address_of key ≡ some from)
          × (client ≡ some cl)
          × IsSent cl chain_id from tr tx)

  to_ecdsa-some :
      (address_of : Bytes → Option Bytes) (key from : Bytes)
      → to_ecdsa decode_big hex_to_address from_hex address_of key ≡ some from
      → (length key ≡ 32) × (address_of key ≡ some from)
  to_ecdsa-some address_of key from h = elim (Bool-cases (length key == 32)) [
    | inl e ↦ (ground (arith, e), sym (rw e refl) ∙ h)
    | inr e ↦ absurd (ground (arith, e, h))
  ]

  with_key-IsSentFor :
      (address_of : Bytes → Option Bytes) (client : Option Client) (chain_id : ℕ) (key : Bytes)
      (tr : TransactionRequest) (o : Option Bytes) (tx : DynamicFeeTx)
      → to_ecdsa decode_big hex_to_address from_hex address_of key ≡ o
      → with_key decode_big hex_to_address from_hex client chain_id tr o ≡ sent tx
      → IsSentFor address_of client chain_id key tr tx
  with_key-IsSentFor address_of client chain_id key tr none tx k h = absurd (ground (arith, h))
  with_key-IsSentFor address_of none chain_id key tr (some from) tx k h = absurd (ground (arith, h))
  with_key-IsSentFor address_of (some cl) chain_id key tr (some from) tx k h =
      let (long, known) = to_ecdsa-some address_of key from k in
      (long, (from, cl, known, refl, with_nonce-IsSent cl chain_id from tr _ tx refl h))

  -- A transaction is sent only for a request that can be signed here and has a target and a payload,
  -- with a key of 32 bytes; it has the target and the payload of the request as the parsers read them,
  -- the value that parseBig reads from the request, which is 0 where the text does not parse, the
  -- chain's id and the pending nonce of the key's address, and what the client takes is its signed
  -- form.
  pub sign_and_broadcast-IsSentFor :
      (address_of : Bytes → Option Bytes) (client : Option Client) (chain_id : ℕ) (key : Bytes)
      (tr : TransactionRequest) (tx : DynamicFeeTx)
      → sign_and_broadcast decode_big hex_to_address from_hex address_of client chain_id key tr
        ≡ sent tx
      → ((tr.route_type ≡ []) ⊎ (tr.route_type ≡ codes "ON_CHAIN_EXECUTION"))
        × (tr.target ≢ [])
        × (tr.payload ≢ [])
        × IsSentFor address_of client chain_id key tr tx
  unfolding sign_and_broadcast
  sign_and_broadcast-IsSentFor address_of client chain_id key tr tx h =
      elim (Bool-cases (
        not (bytes_eq tr.route_type [])
        && not (bytes_eq tr.route_type (codes "ON_CHAIN_EXECUTION")))) [
          | inl e ↦ absurd (ground (arith, e, h))
          | inr e ↦ elim (Bool-cases (bytes_eq tr.target [] || bytes_eq tr.payload [])) [
            | inl f ↦ absurd (ground (arith, e, f, h))
            | inr f ↦ (
              one_of_two tr.route_type [] (codes "ON_CHAIN_EXECUTION") e,
              not_empty tr.target (ground (arith, f)),
              not_empty tr.payload (ground (arith, f)),
              with_key-IsSentFor address_of client chain_id key tr _ tx refl
                  (sym (rw (e, f) refl) ∙ h),
            )
          ]
        ]
