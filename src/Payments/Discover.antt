-- ===== src/Payments/Discover.antt =====
-- `discover`: the pages of `getRailsForPayeeAndToken`, up to a cap.
--
-- The FilecoinPay contract and the chain are outside: `Chain` says what the n-th call answers, `none`
-- for an error. Rail ids, offsets and epochs are numbers.
use curio_core.Base.{
  length-append, Bool-cases, ◌≡◌, Option-cases, ◌*◌, ◌==◌, ltb, ◌+◌, if◌then◌else◌, ◌||◌, ◌≤◌,
  length, leb, ◌∷◌, ◌++◌, Bytes, Bool, Option, List, suc, zero, arith, inr, inl, false, true, some,
  none, refl, [], ℕ,
}

pub record RailInfo : Type 0 where
  pub rail_id : ℕ
  pub terminated : Bool
  pub end_epoch : ℕ

pub record Page : Type 0 where
  pub results : List RailInfo
  pub next_offset : ℕ
  pub total : ℕ

-- what `getRail` tells of a rail
pub record RailView : Type 0 where
  pub payer : Bytes
  pub payee : Bytes
  pub token : Bytes
  pub operator : Bytes
  pub validator : Bytes
  pub lockup_period : ℕ
  pub settled_up_to : ℕ

pub record Chain : Type 0 where
  pub rails_page : ℕ → ℕ → ℕ → Option Page  -- call, offset, limit
  pub get_rail : ℕ → ℕ → Option RailView  -- call, rail
  pub block_number : ℕ → Option ℕ
  pub send_settle : ℕ → ℕ → ℕ → Option ℕ  -- call, rail, epoch: the hash of the transaction

pub data Discovery : Type 0 where
  found : List RailInfo → ℕ → Discovery
  rpc_error : ℕ → Discovery
  out_of_fuel : Discovery

abbrev pub page_size : ℕ
page_size = 200

abbrev pub is_empty : List RailInfo → Bool
is_empty [] = true
is_empty (r ∷ rs) = false

abbrev pub is_last : Page → Bool
is_last p = leb p.total p.next_offset || p.next_offset == 0 || is_empty p.results

-- the second argument counts the calls so far; the results carry the count on
unfoldable pub pages : Chain → ℕ → ℕ → ℕ → List RailInfo → Discovery
pages chain zero calls offset out = out_of_fuel
pages chain (suc fuel) calls offset out = elim (chain.rails_page calls offset page_size) [
  | none ↦ rpc_error (suc calls)
  | some p ↦
      let seen = out ++ p.results in
      let rest = pages chain fuel (suc calls) p.next_offset seen in
      if is_last p
      then found seen (suc calls)
      else if ltb (page_size * 4) (length seen)
      then found seen (suc calls)
      else rest
]

-- every page that is not the last brings a rail, and more than 800 rails end the loop
abbrev pub discover_fuel : ℕ
discover_fuel = 801

unfoldable pub discover : Chain → ℕ → Discovery
discover chain calls = pages chain discover_fuel calls 0 []

-- the loop came to an end by itself
abbrev pub has_ended : Discovery → Bool
has_ended (found rs n) = true
has_ended (rpc_error n) = true
has_ended out_of_fuel = false

page_results : (rs : List RailInfo) → is_empty rs ≡ false → 1 ≤ length rs
page_results [] h = ground (arith, h)
page_results (r ∷ rs) h = omega arith

pages-has_ended :
    (chain : Chain) (fuel calls offset : ℕ) (out : List RailInfo)
    → length out ≤ 800
    → 801 ≤ length out + fuel
    → has_ended (pages chain fuel calls offset out) ≡ true
unfolding pages
pages-has_ended chain zero calls offset out h f = ground (arith, h, f)
pages-has_ended chain (suc fuel) calls offset out h f =
    elim (Option-cases (chain.rails_page calls offset page_size)) [
      | inl e ↦ rw (pages, e) refl
      | inr (p, e) ↦
          rw (pages, e)
            (elim (Bool-cases (is_last p)) [
              | inl l ↦ rw l refl
              | inr l ↦ rw l (elim (Bool-cases (ltb (page_size * 4) (length (out ++ p.results)))) [
                | inl c ↦ rw c refl
                | inr c ↦ rw c (
                    pages-has_ended chain fuel (suc calls) p.next_offset (out ++ p.results)
                      (ground (arith, c))
                      (omega (
                        arith,
                        f,
                        length-append out p.results,
                        page_results p.results (ground (arith, l)),
                      )))
              ])
            ])
    ]

-- `discover` ends, whatever the contract answers: its fuel is enough.
pub discover-has_ended : (chain : Chain) (calls : ℕ) → has_ended (discover chain calls) ≡ true
unfolding discover
discover-has_ended chain calls =
    pages-has_ended chain discover_fuel calls 0 [] (omega arith) (omega arith)
