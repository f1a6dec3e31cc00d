-- ===== src/Usdfc/Tests.antt =====
-- internal/usdfcacquire: runs.
use curio_core.Usdfc.Laws.{sign_and_broadcast-IsSentFor, IsSentFor}
use curio_core.Usdfc.{
  request_failed, no_integrator_id, got, failed, TransactionRequest, wait_filled, route,
}
use curio_core.Usdfc.Signer.{sent, parse_big_opt, sign_and_broadcast, DynamicFeeTx, Client}
use curio_core.Base.{
  ◌≢◌, ◌∷◌, ◌⊎◌, pos, codes, replicate, ◌≡◌, Bytes, Option, ℕ, true, some, none, refl, [],
}

abbrev decode_big : Bytes → Option ℕ
decode_big s = some 5

abbrev same : Bytes → Bytes
same s = s

abbrev client : Client
client = record {
  pending_nonce = λ a. some 7;
  suggest_gas_tip_cap = some (pos 2);
  base_fee = some (some (pos 10));
  estimate_gas = λ from to value payload. some 100;
  sign = λ tx. some (codes "signed");
  send_transaction = λ s. true;
}

abbrev key : Bytes
key = replicate 32 1

abbrev request : TransactionRequest
request = record {
  route_type = [];
  target = codes "0xt";
  payload = codes "0xd";
  value = codes "12";
  gas_limit = [];
  max_fee_per_gas = [];
  max_priority_fee_per_gas = [];
}

abbrev priced : DynamicFeeTx
priced = record {
  chain_id = 1;
  nonce = 7;
  gas_tip_cap = pos 2;
  gas_fee_cap = pos 22;
  gas = 125;
  to = codes "0xt";
  value = pos 12;
  payload = codes "0xd";
}

sends_priced :
    sign_and_broadcast decode_big same same (λ s. some (codes "0xf")) (some client) 1 key request
    ≡ sent priced
unfolding sign_and_broadcast parse_big_opt
sends_priced = refl

sign_and_broadcast-IsSentFor_example :
    ((request.route_type ≡ []) ⊎ (request.route_type ≡ codes "ON_CHAIN_EXECUTION"))
    × (codes "0xt" ≢ [])
    × (codes "0xd" ≢ [])
    × IsSentFor decode_big same same (λ s. some (codes "0xf")) (some client) 1 key request priced
sign_and_broadcast-IsSentFor_example =
    sign_and_broadcast-IsSentFor decode_big same same (λ s. some (codes "0xf")) (some client) 1 key
      request priced sends_priced

waits_for_success :
    wait_filled (got (codes "ongoing") ∷ failed request_failed ∷ got (codes "SUCCESS") ∷ [])
    ≡ some (codes "SUCCESS")
unfolding wait_filled
waits_for_success = refl

needs_integrator :
    route {A = ℕ} []
      (λ p. none)
      (record {
        from_chain = [];
        from_token = [];
        from_amount = [];
        from_address = [];
        to_address = [];
        to_token = [];
        to_chain = [];
        slippage = 0;
        quote_only = true;
      })
    ≡ (none, failed no_integrator_id)
unfolding route
needs_integrator = refl
