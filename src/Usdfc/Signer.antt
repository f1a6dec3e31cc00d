-- ===== src/Usdfc/Signer.antt =====
-- internal/usdfcacquire/signer.go: the transaction that is signed for the source chain.
--
-- hexutil.DecodeBig, the parsers of addresses and bytes, the check of a private key, and the chain
-- client are arguments.
use curio_core.Usdfc.{TransactionRequest}
use curio_core.Amounts.Numbers.{set_string}
use curio_core.Base.{
  ◌^◌, trim_space, add_ℤ, length, ◌||◌, pos, ◌==◌, ◌/◌, ◌%◌, ◌&&◌, not, codes, if◌then◌else◌,
  has_prefix, ◌+◌, magnitude, ℤ, bytes_eq, Bytes, ℕ, false, true, some, none, [], Bool, Option,
}

abbrev pub as_big : Option ℕ → Option ℤ
as_big none = none
as_big (some n) = some (pos n)

abbrev pub is_hex : Bytes → Bool
is_hex s = has_prefix s (codes "0x") || has_prefix s (codes "0X")

-- what `SignAndBroadcast` signs
pub record DynamicFeeTx : Type 0 where
  pub chain_id : ℕ
  pub nonce : ℕ
  pub gas_tip_cap : ℤ
  pub gas_fee_cap : ℤ
  pub gas : ℕ
  pub to : Bytes
  pub value : ℤ
  pub payload : Bytes

-- the answers of the chain client: none for an error; the base fee is none where the header has none
pub record Client : Type 0 where
  pub pending_nonce : Bytes → Option ℕ
  pub suggest_gas_tip_cap : Option ℤ
  pub base_fee : Option (Option ℤ)
  pub estimate_gas : Bytes → Bytes → ℤ → Bytes → Option ℕ
  pub sign : DynamicFeeTx → Option Bytes
  pub send_transaction : Bytes → Bool

pub data SignError : Type 0 where
  bad_route no_target bad_key no_client no_nonce no_tip no_header no_estimate not_signed not_sent :
      SignError

-- the hash, or the error, and what was sent to the chain
pub data Sign : Type 0 where
  sent : DynamicFeeTx → Sign
  stopped : SignError → Sign

module _ (decode_big : Bytes → Option ℕ) (hex_to_address from_hex : Bytes → Bytes) where
  -- `parseBigOpt`
  unfoldable pub parse_big_opt : Bytes → Option ℤ
  parse_big_opt text =
      let s = trim_space text in
      if bytes_eq s [] then none else if is_hex s then as_big (decode_big s) else set_string s

  abbrev pub or_zero_big : Option ℤ → ℤ
  or_zero_big none = pos 0
  or_zero_big (some n) = n

  -- `parseBig`
  abbrev pub parse_big : Bytes → ℤ
  parse_big s = or_zero_big (parse_big_opt s)

  -- `parseUint`
  abbrev pub parse_uint : Bytes → ℕ
  parse_uint s = magnitude (parse_big s) % 2 ^ 64

  abbrev pub tip_of : Option ℤ → Client → Option ℤ
  tip_of none cl = cl.suggest_gas_tip_cap
  tip_of (some tip) cl = some tip

  -- twice the base fee, and the tip
  abbrev pub cap_of_base : ℤ → Option (Option ℤ) → Option ℤ
  cap_of_base tip none = none
  cap_of_base tip (some none) = some tip
  cap_of_base tip (some (some base)) = some (add_ℤ (add_ℤ base base) tip)

  abbrev pub fee_cap_of : Option ℤ → ℤ → Client → Option ℤ
  fee_cap_of none tip cl = cap_of_base tip cl.base_fee
  fee_cap_of (some cap) tip cl = some cap

  -- a quarter more than the estimate
  abbrev pub with_headroom : Option ℕ → Option ℕ
  with_headroom none = none
  with_headroom (some est) = some ((est + est / 4) % 2 ^ 64)

  abbrev pub gas_of : ℕ → Option ℕ → Option ℕ
  gas_of limit estimate = if limit == 0 then with_headroom estimate else some limit

  abbrev pub sent_if : DynamicFeeTx → Bool → Sign
  sent_if tx true = sent tx
  sent_if tx false = stopped not_sent

  abbrev pub send_signed : Client → DynamicFeeTx → Option Bytes → Sign
  send_signed cl tx none = stopped not_signed
  send_signed cl tx (some signed) = sent_if tx (cl.send_transaction signed)

  abbrev pub with_gas : Client → ℕ → ℕ → TransactionRequest → ℤ → ℤ → Option ℕ → Sign
  with_gas cl chain_id nonce tr tip cap none = stopped no_estimate
  with_gas cl chain_id nonce tr tip cap (some gas) =
      let tx : DynamicFeeTx = record {
        chain_id = chain_id;
        nonce = nonce;
        gas_tip_cap = tip;
        gas_fee_cap = cap;
        gas = gas;
        to = hex_to_address tr.target;
        value = parse_big tr.value;
        payload = from_hex tr.payload;
      } in
      send_signed cl tx (cl.sign tx)

  abbrev pub with_cap : Client → ℕ → Bytes → ℕ → TransactionRequest → ℤ → Option ℤ → Sign
  with_cap cl chain_id from nonce tr tip none = stopped no_header
  with_cap cl chain_id from nonce tr tip (some cap) = with_gas cl chain_id nonce tr tip cap (
      gas_of (parse_uint tr.gas_limit) (
        cl.estimate_gas from (hex_to_address tr.target) (parse_big tr.value) (from_hex tr.payload)))

  abbrev pub with_tip : Client → ℕ → Bytes → ℕ → TransactionRequest → Option ℤ → Sign
  with_tip cl chain_id from nonce tr none = stopped no_tip
  with_tip cl chain_id from nonce tr (some tip) =
      with_cap cl chain_id from nonce tr tip (fee_cap_of (parse_big_opt tr.max_fee_per_gas) tip cl)

  abbrev pub with_nonce : Client → ℕ → Bytes → TransactionRequest → Option ℕ → Sign
  with_nonce cl chain_id from tr none = stopped no_nonce
  with_nonce cl chain_id from tr (some nonce) =
      with_tip cl chain_id from nonce tr (tip_of (parse_big_opt tr.max_priority_fee_per_gas) cl)

  abbrev pub with_client : Option Client → ℕ → Bytes → TransactionRequest → Sign
  with_client none chain_id from tr = stopped no_client
  with_client (some cl) chain_id from tr = with_nonce cl chain_id from tr (cl.pending_nonce from)

  -- `toECDSA`, as the address of the key
  abbrev pub to_ecdsa : (Bytes → Option Bytes) → Bytes → Option Bytes
  to_ecdsa address_of raw = if length raw == 32 then address_of raw else none

  abbrev pub with_key : Option Client → ℕ → TransactionRequest → Option Bytes → Sign
  with_key client chain_id tr none = stopped bad_key
  with_key client chain_id tr (some from) = with_client client chain_id from tr

  -- `SignAndBroadcast`
  unfoldable pub sign_and_broadcast :
      (Bytes → Option Bytes) → Option Client → ℕ → Bytes → TransactionRequest → Sign
  sign_and_broadcast address_of client chain_id key tr =
      if not (bytes_eq tr.route_type [])
        && not (bytes_eq tr.route_type (codes "ON_CHAIN_EXECUTION"))
      then stopped bad_route
      else if bytes_eq tr.target [] || bytes_eq tr.payload []
      then stopped no_target
      else with_key client chain_id tr (to_ecdsa address_of key)
