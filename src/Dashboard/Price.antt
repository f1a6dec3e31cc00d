-- ===== src/Dashboard/Price.antt =====
-- internal/dashboard/filprice.go: `priceCache`, whose refresh is shared by the callers that ask for it
-- at one time. A rate is the text of a positive number; the fetch is an argument.
use curio_core.Base.{
  ◌+◌, head, ◌<◌, ltb, ◌⊎◌, Member, ◌&&◌, Bool-cases, if◌then◌else◌, ◌≡◌, ◌∷◌, Bytes, List, ℕ,
  arith, inr, inl, false, true, refl, [], Bool,
}

pub record PriceCache : Type 0 where
  pub usd : Bytes
  pub fetched : ℕ
  pub has_value : Bool
  pub last_err : Bytes

pub record FilPrice : Type 0 where
  pub usd : Bytes
  pub fresh : Bool
  pub as_of : ℕ
  pub err : Bytes

pub data Fetched : Type 0 where
  rate : Bytes → Fetched
  fetch_error : Bytes → Fetched

abbrev pub new_price_cache : PriceCache
new_price_cache = record { usd = []; fetched = 0; has_value = false; last_err = [] }

-- five minutes, in seconds
abbrev pub fil_price_ttl : ℕ
fil_price_ttl = 300

-- the first locked part of `Get` answers without a refresh
abbrev pub is_price_fresh : ℕ → PriceCache → Bool
is_price_fresh now p = p.has_value && ltb now (p.fetched + fil_price_ttl)

-- the refresh, where the fetch ends at a time
unfoldable pub refresh : ℕ → Fetched → PriceCache → PriceCache
refresh time (rate v) p = record { usd = v; fetched = time; has_value = true; last_err = [] }
refresh time (fetch_error e) p = record p { last_err = e }

-- the last locked part
abbrev pub snapshot : ℕ → PriceCache → FilPrice
snapshot now p =
    if p.has_value
    then record {
      usd = p.usd;
      fresh = ltb now (p.fetched + fil_price_ttl);
      as_of = p.fetched;
      err = p.last_err;
    }
    else record { usd = []; fresh = false; as_of = 0; err = p.last_err }

-- `Get`, whose refresh ends at a second time and whose answer is read at a third
unfoldable pub get_price : ℕ → ℕ → ℕ → Fetched → PriceCache → FilPrice × PriceCache
get_price now time later fetched p =
    if is_price_fresh now p
    then (record { usd = p.usd; fresh = true; as_of = p.fetched; err = [] }, p)
    else (snapshot later (refresh time fetched p), refresh time fetched p)

-- the rates that were fetched, with their times, behind any number of refreshes
abbrev pub fetched_rates : ℕ → Fetched → List (Bytes × ℕ) → List (Bytes × ℕ)
fetched_rates time (rate v) rates = (v, time) ∷ rates
fetched_rates time (fetch_error e) rates = rates

pub data Fetches : List (Bytes × ℕ) → PriceCache → Type 0 where
  unused : Fetches [] new_price_cache
  refreshed :
      {rates : List (Bytes × ℕ)} {p : PriceCache} (time : ℕ) (o : Fetched)
      → Fetches rates p
      → Fetches (fetched_rates time o rates) (refresh time o p)

stored_rate :
    {rates : List (Bytes × ℕ)} {p : PriceCache}
    → Fetches rates p
    → p.has_value ≡ true
    → Member (p.usd, p.fetched) rates
unfolding refresh
stored_rate unused h = absurd (ground (arith, h))
stored_rate (refreshed time (rate v) r) h = head
stored_rate (refreshed time (fetch_error e) r) h = stored_rate r h

-- a fresh price is a rate that was fetched not longer ago than the lifetime
abbrev pub IsCurrent : ℕ → List (Bytes × ℕ) → FilPrice → Type 0
IsCurrent now rates s =
    (s.fresh ≡ false) ⊎ (Member (s.usd, s.as_of) rates × (now < s.as_of + fil_price_ttl))

snapshot-IsCurrent :
    {rates : List (Bytes × ℕ)} {p : PriceCache} (now : ℕ)
    → Fetches rates p
    → IsCurrent now rates (snapshot now p)
snapshot-IsCurrent {p} now r = elim (Bool-cases p.has_value) [
  | inl h ↦ elim (Bool-cases (ltb now (p.fetched + fil_price_ttl))) [
    | inl l ↦ rw (h, l) (inr (stored_rate r h, ground (arith, l)))
    | inr l ↦ rw (h, l) (inl refl)
  ]
  | inr h ↦ rw h (inl refl)
]
