-- ===== src/Dashboard/Rollup.antt =====
-- internal/dashboard/pdp_rollup.go: the projected income, and its cache.
--
-- The payment rate of a rail comes from the FilecoinPay contract: an argument, none for an error, and
-- then none for a nil rate. Times are nanoseconds since a time before any that is compared.
pub mod Laws
use curio_core.Amounts.Display.{decimal18}
use curio_core.Base.{
  pos, ◌^◌, ◌+◌, ltb, if◌then◌else◌, ◌*◌, ◌∷◌, Bytes, Bool, Option, List, ℕ, suc, zero, arith, ap,
  sym, inr, inl, false, true, some, none, refl, [], ◌≡◌,
}

pub record FinRollup : Type 0 where
  pub active_rails : ℕ
  pub rate_per_epoch : Bytes
  pub rate_per_day : Bytes
  pub rate_per_30d : Bytes
  pub fresh : Bool
  pub unavailable : Bool

abbrev pub empty_rollup : FinRollup
empty_rollup = record {
  active_rails = 0;
  rate_per_epoch = [];
  rate_per_day = [];
  rate_per_30d = [];
  fresh = false;
  unavailable = false;
}

abbrev pub epochs_per_day : ℕ
epochs_per_day = 2880

-- 45 seconds
abbrev pub fin_rollup_ttl : ℕ
fin_rollup_ttl = 45 * 10 ^ 9

abbrev pub add_rate : Option (Option ℕ) → ℕ × ℕ → ℕ × ℕ
add_rate none (active, total) = (active, total)
add_rate (some none) (active, total) = (active, total)
add_rate (some (some rate)) (active, total) = (suc active, total + rate)

unfoldable pub sum_rates : (ℕ → Option (Option ℕ)) → List ℕ → ℕ × ℕ → ℕ × ℕ
sum_rates get_rail [] acc = acc
sum_rates get_rail (r ∷ rs) acc = sum_rates get_rail rs (add_rate (get_rail r) acc)

abbrev pub project : ℕ × ℕ → FinRollup
project (active, total) = record {
  active_rails = active;
  rate_per_epoch = decimal18 (some (pos total));
  rate_per_day = decimal18 (some (pos (total * epochs_per_day)));
  rate_per_30d = decimal18 (some (pos (total * epochs_per_day * 30)));
  fresh = false;
  unavailable = false;
}

abbrev pub walk_rails : (ℕ → Option (Option ℕ)) → Bool → Option (List ℕ) → FinRollup
walk_rails get_rail bound none = record empty_rollup { unavailable = true }
walk_rails get_rail bound (some rail_ids) =
    if bound
    then project (sum_rates get_rail rail_ids (0, 0))
    else record empty_rollup { unavailable = true }

-- `wired`: there is a chain client and an address of the contract; `bound`: the contract can be bound
unfoldable pub compute_fin_rollup :
    (ℕ → Option (Option ℕ)) → Bool → Bool → Option (List ℕ) → FinRollup
compute_fin_rollup get_rail wired bound rail_ids =
    if wired then walk_rails get_rail bound rail_ids else record empty_rollup { unavailable = true }

-- `computed` is none for the zero time
pub record FinRollupCache : Type 0 where
  pub val : FinRollup
  pub computed : Option ℕ
  pub running : Bool

abbrev pub new_fin_rollup_cache : FinRollupCache
new_fin_rollup_cache = record { val = empty_rollup; computed = none; running = false }

abbrev pub is_fresh : ℕ → Option ℕ → Bool
is_fresh now none = false
is_fresh now (some computed) = ltb now (computed + fin_rollup_ttl)

-- the first locked part of `get`: an answer, or none where the caller goes on to compute
unfoldable pub enter : ℕ → FinRollupCache → Option FinRollup × FinRollupCache
enter now c =
    if is_fresh now c.computed
    then (some (record c.val { fresh = true }), c)
    else if c.running
    then (some (record c.val { fresh = false }), c)
    else (none, record c { running = true })

-- the second locked part, with the computed value
unfoldable pub finish : ℕ → FinRollup → FinRollupCache → FinRollup × FinRollupCache
finish now v c =
    (record v { fresh = true }, record c { val = v; computed = some now; running = false })
