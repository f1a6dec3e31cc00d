-- ===== src/Admin.antt =====
-- internal/admin/admin.go: the decoder of hexadecimal text, the limit of the alert list, and the
-- transaction that `testTxHandler` sends. The sender of transactions, and what JSON holds, are arguments.
pub mod Laws
mod Tests
use curio_core.Wallet.Bootstrap.{lookup_pdp}
use curio_core.Wallet.Keys.{Keys}
use curio_core.Env.{Env, World}
use curio_core.Base.{
  ◌||◌, ◌-◌, ◌&&◌, ◌+◌, ◌==◌, ltb, pos, leb, ℤ, ◌∷◌, if◌then◌else◌, ◌*◌, Bytes, List, ℕ, suc, zero,
  arith, ap, sym, inr, inl, false, true, some, none, refl, [], Bool, Option,
}

-- `hexNibble`
abbrev pub hex_nibble : ℕ → Option ℕ
hex_nibble c =
    if leb b'0' c && leb c b'9'
    then some (c - b'0')
    else if leb b'a' c && leb c b'f'
    then some (10 + c - b'a')
    else if leb b'A' c && leb c b'F'
    then some (10 + c - b'A')
    else none

abbrev pub join_nibbles : Option ℕ → Option ℕ → Option Bytes → Option Bytes
join_nibbles none lo out = none
join_nibbles (some hi) none out = none
join_nibbles (some hi) (some lo) none = none
join_nibbles (some hi) (some lo) (some out) = some ((hi * 16 + lo) ∷ out)

-- `hexDecode`; a digit that is left over is that of an odd length
abbrev pub hex_decode : Bytes → Option Bytes
hex_decode [] = some []
hex_decode (c ∷ []) = none
hex_decode (c ∷ d ∷ s) = join_nibbles (hex_nibble c) (hex_nibble d) (hex_decode s)

-- the limit of `alertsListHandler`: the parameter is none where it is not a number
abbrev pub alerts_limit : Option ℕ → ℕ
alerts_limit none = 100
alerts_limit (some n) = if ltb 0 n && leb n 1000 then n else 100

-- what `testTxHandler` asks the sender to send
pub record TestTx : Type 0 where
  pub from : Bytes
  pub to : Bytes
  pub value : ℤ
  pub payload : Bytes

pub data TxAnswer : Type 0 where
  unavailable lookup_error no_key bad_value bad_payload : TxAnswer
  sends : TestTx → TxAnswer

-- the body of the request, with empty texts where it says nothing
pub record TxBody : Type 0 where
  pub to : Bytes
  pub value : Bytes
  pub payload : Bytes

abbrev pub trim_0x : Bytes → Bytes
trim_0x (c ∷ d ∷ s) = if c == b'0' && (d == b'x' || d == b'X') then s else c ∷ d ∷ s
trim_0x s = s

abbrev pub or_default : {A : Type 0} → A → Bytes → (Bytes → Option A) → Option A
or_default a [] read = some a
or_default a (c ∷ s) read = read (trim_0x (c ∷ s))

abbrev pub to_address : (Bytes → Bytes) → Bytes → Bytes → Bytes
to_address hex_to_address from [] = from
to_address hex_to_address from (c ∷ s) = hex_to_address (c ∷ s)

abbrev pub with_payload : Bytes → Bytes → ℤ → Option Bytes → TxAnswer
with_payload from to value none = bad_payload
with_payload from to value (some payload) =
    sends (record { from = from; to = to; value = value; payload = payload })

abbrev pub with_value : Bytes → Bytes → Bytes → Option ℤ → TxAnswer
with_value from to payload none = bad_value
with_value from to payload (some value) =
    with_payload from to value (or_default [] payload hex_decode)

abbrev pub empty_body : TxBody
empty_body = record { to = []; value = []; payload = [] }

-- a body that is not there, or is no JSON, says nothing
abbrev pub body_of : Option TxBody → TxBody
body_of none = empty_body
body_of (some body) = body

abbrev pub of_sender : (Bytes → Bytes) → (Bytes → Option ℤ) → TxBody → Bytes → TxAnswer
of_sender hex_to_address set_string_16 body from =
    with_value from (to_address hex_to_address from body.to) body.payload
      (or_default (pos 1) body.value set_string_16)

abbrev pub of_key :
    (Bytes → Bytes)
    → (Bytes → Option ℤ)
    → TxBody
    → Option Bytes × World Keys
    → TxAnswer × World Keys
of_key hex_to_address set_string_16 body (none, w) = (lookup_error, w)
of_key hex_to_address set_string_16 body (some [], w) = (no_key, w)
of_key hex_to_address set_string_16 body (some (c ∷ a), w) =
    (of_sender hex_to_address set_string_16 body (hex_to_address (c ∷ a)), w)

-- `testTxHandler` up to the call of the sender
unfoldable pub test_tx :
    (Bytes → Bytes)
    → (Bytes → Option ℤ)
    → Env
    → Bool
    → Option TxBody
    → World Keys
    → TxAnswer × World Keys
test_tx hex_to_address set_string_16 env has_sender body w =
    if has_sender
    then of_key hex_to_address set_string_16 (body_of body) (lookup_pdp env w)
    else (unavailable, w)
