-- ===== src/Admin/Tests.antt =====
-- internal/admin/admin.go: runs.
use curio_core.Wallet.Bootstrap.{lookup_pdp}
use curio_core.Admin.Laws.{hex_decode_iff, AllBytes, hex_encode}
use curio_core.Env.{World, Env}
use curio_core.Admin.{pos, sends, bad_value, test_tx, hex_decode}
use curio_core.Wallet.Keys.{Keys}
use curio_core.Base.{lower_letter, map, ◌↔◌, ◌≡◌, ◌∷◌, codes, false, true, some, none, refl, []}

hex_decode_iff_example :
    (hex_decode (codes "0aF3") ≡ some (10 ∷ 243 ∷ []))
    ↔ ((map lower_letter (codes "0aF3") ≡ hex_encode (10 ∷ 243 ∷ [])) × AllBytes (10 ∷ 243 ∷ []))
hex_decode_iff_example = hex_decode_iff (codes "0aF3") (10 ∷ 243 ∷ [])

refuses_odd : hex_decode (codes "abc") ≡ none
refuses_odd = refl

abbrev quiet : Env
quiet = record { fault = λ n. false; owned = λ n. true; time = λ n. n }

abbrev keys : World Keys
keys = record {
  store = record { address = codes "0xa"; private_key = []; role = codes "pdp" } ∷ [];
  calls = 0;
}

defaults_to_self :
    (test_tx (λ s. s) (λ s. none) quiet true none keys).0
    ≡ sends (record { from = codes "0xa"; to = codes "0xa"; value = pos 1; payload = [] })
unfolding test_tx lookup_pdp
defaults_to_self = refl

refuses_value :
    (test_tx
      (λ s. s)
      (λ s. none)
      quiet
      true
      (some (record { to = []; value = codes "0xzz"; payload = [] }))
      keys).0
    ≡ bad_value
unfolding test_tx lookup_pdp
refuses_value = refl
