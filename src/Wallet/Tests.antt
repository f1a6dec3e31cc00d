-- ===== src/Wallet/Tests.antt =====
-- Two keys, and the theorems of the wallet at them.
use curio_core.Wallet.Bootstrap.Laws.{bootstrap_again}
use curio_core.Wallet.Bootstrap.{lookup_pdp, bootstrap}
use curio_core.Wallet.Laws.{wallet-WellFormedKeys}
use curio_core.Wallet.Kept.{import_then_export, delete_key_pdp}
use curio_core.Sql.{lower}
use curio_core.Wallet.Unique.{WellFormedKeys}
use curio_core.Wallet.Keys.{
  set_role, export, delete_key, import, is_pdp, decode_hex, has_address, new, Keys, Key,
  is_valid_role, ok,
}
use curio_core.Base.{
  codes, ◌∷◌, any, replicate, ◌≡◌, Bytes, Option, false, true, some, none, refl, [], ℕ,
}
use curio_core.Env.{World, Env}

abbrev calm : Env
calm = record { fault = λ n. false; owned = λ n. true; time = λ n. n }

calm_sound : (n : ℕ) → calm.fault n ≡ false
calm_sound n = refl

-- the address of a key is its first byte
abbrev first_byte : Bytes → Option Bytes
first_byte [] = none
first_byte (b ∷ bs) = some (b ∷ [])

abbrev pdp_key : Key
pdp_key = record { address = codes "0xA"; private_key = replicate 32 1; role = codes "pdp" }

abbrev backup_key : Key
backup_key = record { address = codes "0xB"; private_key = replicate 32 2; role = codes "backup" }

abbrev wallet : World Keys
wallet = record { store = pdp_key ∷ backup_key ∷ []; calls = 0 }

wallet-WellFormed : WellFormedKeys wallet.store
unfolding is_valid_role has_address lower
wallet-WellFormed = (((refl, refl), ((refl, refl), tt)), ((refl, tt), (tt, tt)))

abbrev zeros : Bytes
zeros = replicate 64 b'0'

wallet-WellFormedKeys_example :
    WellFormedKeys (new first_byte calm none (codes "pdp") wallet).1.store
    × WellFormedKeys (import first_byte calm zeros (codes "pdp") wallet).1.store
    × WellFormedKeys (delete_key calm (codes "0xB") wallet).1.store
    × WellFormedKeys (set_role calm (codes "0xB") (codes "pdp") wallet).1.store
wallet-WellFormedKeys_example =
    wallet-WellFormedKeys first_byte calm none zeros (codes "pdp") (codes "0xB") wallet tt
      wallet-WellFormed

delete_key_pdp_example : any is_pdp (delete_key calm (codes "0xA") wallet).1.store ≡ true
delete_key_pdp_example = delete_key_pdp calm (codes "0xA") wallet wallet-WellFormed.1 refl

import_then_export_example :
    let (r, w') = import first_byte calm zeros (codes "pdp") wallet in
    (r ≡ ok (0 ∷ [])) × ((export calm (0 ∷ []) w').0 ≡ ok (replicate 32 0))
unfolding is_valid_role decode_hex has_address lower
import_then_export_example =
    import_then_export first_byte calm zeros (replicate 32 0) (codes "pdp") (0 ∷ []) wallet
      calm_sound refl refl refl refl refl

abbrev no_keys : World Keys
no_keys = record { store = []; calls = 0 }

abbrev generated : Option (Bytes × Bytes)
generated = some (codes "0xC", replicate 32 3)

bootstraps : (bootstrap calm generated no_keys).0 ≡ some (codes "0xC")
unfolding bootstrap
bootstraps = refl

bootstrap_again_example :
    ((bootstrap calm none (bootstrap calm generated no_keys).1).0 ≡ some (codes "0xC"))
    × ((bootstrap calm none (bootstrap calm generated no_keys).1).1.store
        ≡ (bootstrap calm generated no_keys).1.store)
    × ((lookup_pdp calm (bootstrap calm generated no_keys).1).0 ≡ some (codes "0xC"))
bootstrap_again_example = bootstrap_again calm generated none no_keys (codes "0xC") bootstraps refl
