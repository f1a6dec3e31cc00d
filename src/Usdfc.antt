-- ===== src/Usdfc.antt =====
-- internal/usdfcacquire: the requests to the Squid API (squid.go), and the wait for a fill
-- (`WaitFilled` of signer.go).
--
-- JSON is an argument. The slippage is in tenths of a percent.
pub mod Laws
pub mod Signer
mod Tests
use curio_core.Amounts.Numbers.{set_string}
use curio_core.Base.{
  lower_letter, leb, ◌^◌, ltb, trim_space, map, add_ℤ, length, ◌||◌, pos, ◌==◌, ◌/◌, ◌%◌, ◌&&◌, not,
  codes, if◌then◌else◌, has_prefix, ◌+◌, magnitude, ◌∷◌, ℤ, bytes_eq, Bytes, List, ℕ, suc, zero,
  arith, ap, sym, inr, inl, false, true, some, none, refl, [], Bool, Option,
}

pub record RouteParams : Type 0 where
  pub from_chain : Bytes
  pub from_token : Bytes
  pub from_amount : Bytes
  pub from_address : Bytes
  pub to_address : Bytes
  pub to_token : Bytes
  pub to_chain : Bytes
  pub slippage : ℕ
  pub quote_only : Bool

pub record TransactionRequest : Type 0 where
  pub route_type : Bytes
  pub target : Bytes
  pub payload : Bytes
  pub value : Bytes
  pub gas_limit : Bytes
  pub max_fee_per_gas : Bytes
  pub max_priority_fee_per_gas : Bytes

pub data AcquireError : Type 0 where
  no_integrator_id request_failed bad_status bad_json : AcquireError

pub data Outcome (A : Type 0) : Type 0 where
  got : A → Outcome A
  failed : AcquireError → Outcome A

-- a reply of the API, with what its body holds, none where it cannot be decoded
pub record HttpReply (A : Type 0) : Type 0 where
  pub status : ℕ
  pub decoded : Option A

abbrev pub usdfc_filecoin : Bytes
usdfc_filecoin = codes "0x80B98d3aa09ffff255c3ba4A241111Ff1262F045"

abbrev pub filecoin_chain_id : Bytes
filecoin_chain_id = codes "314"

abbrev pub or_text : Bytes → Bytes → Bytes
or_text [] default = default
or_text (c ∷ s) default = c ∷ s

-- the defaults of `Route`
unfoldable pub with_defaults : RouteParams → RouteParams
with_defaults p = record p {
  to_token = or_text p.to_token usdfc_filecoin;
  to_chain = or_text p.to_chain filecoin_chain_id;
  slippage = if p.slippage == 0 then 15 else p.slippage;
}

-- `HasIntegratorID`
abbrev pub has_integrator_id : Bytes → Bool
has_integrator_id id = not (bytes_eq (trim_space id) [])

abbrev pub is_success : ℕ → Bool
is_success status = not (ltb status 200 || leb 300 status)

abbrev pub decoded_or : {A : Type 0} → Option A → Outcome A
decoded_or none = failed bad_json
decoded_or (some a) = got a

abbrev pub route_reply : {A : Type 0} → Option (HttpReply A) → Outcome A
route_reply none = failed request_failed
route_reply (some r) =
    if r.status == 401
    then failed no_integrator_id
    else if is_success r.status
    then decoded_or r.decoded
    else failed bad_status

-- `Route`: what is asked for, and the outcome
unfoldable pub route :
    {A : Type 0}
    → Bytes
    → (RouteParams → Option (HttpReply A))
    → RouteParams
    → Option RouteParams × Outcome A
route integrator_id post p =
    if has_integrator_id integrator_id
    then (some (with_defaults p), route_reply (post (with_defaults p)))
    else (none, failed no_integrator_id)

abbrev pub or_no_status : Option Bytes → Bytes
or_no_status none = []
or_no_status (some s) = s

abbrev pub status_reply : Option (HttpReply Bytes) → Outcome Bytes
status_reply none = failed request_failed
status_reply (some r) =
    if is_success r.status then got (or_no_status r.decoded) else failed bad_status

-- `Status`; a body without a status is no error
unfoldable pub squid_status : Bytes → Option (HttpReply Bytes) → Outcome Bytes
squid_status integrator_id reply =
    if has_integrator_id integrator_id then status_reply reply else failed no_integrator_id

abbrev pub is_filled : Bytes → Bool
is_filled s =
    bytes_eq (map lower_letter s) (codes "success")
    || bytes_eq (map lower_letter s) (codes "partial_success")

abbrev pub filled_status : Outcome Bytes → Option Bytes
filled_status (failed e) = none
filled_status (got s) = if is_filled s then some s else none

abbrev pub or_wait : Option Bytes → Option Bytes → Option Bytes
or_wait none later = later
or_wait (some s) later = some s

-- `WaitFilled`, on the outcomes of the polls up to the one behind which the context is done; none is
-- the error of the context
unfoldable pub wait_filled : List (Outcome Bytes) → Option Bytes
wait_filled [] = none
wait_filled (o ∷ os) = or_wait (filled_status o) (wait_filled os)
