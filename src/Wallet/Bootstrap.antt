-- ===== src/Wallet/Bootstrap.antt =====
-- internal/ethkeys/ethkeys.go: `Bootstrap` and `LookupPDP`, on the table of the wallet.
--
-- The key that is generated is an argument, none where the generation fails, and its address is text. `LIMIT 1` without an order takes the first row of the
-- list.
pub mod Laws
use curio_core.Env.{exec, ticked, query, World, Env}
use curio_core.Wallet.Keys.{Keys, Key, is_pdp}
use curio_core.Base.{
  ◌++◌, any, if◌then◌else◌, ◌∷◌, bytes_eq, codes, Bytes, List, ℕ, suc, zero, arith, ap, sym, inr,
  inl, false, true, some, none, refl, [], Bool, Option,
}

abbrev pub pdp : Bytes
pdp = codes "pdp"

abbrev pub key_of_role : Keys → Option Bytes
key_of_role [] = none
key_of_role (k ∷ ks) =
    let rest = key_of_role ks in if bytes_eq k.role pdp then some k.address else rest

abbrev pub has_key_address : Bytes → Key → Bool
has_key_address a k = bytes_eq k.address a

-- the INSERT, where the address is the primary key: true for no error
abbrev pub insert_pdp : Env → Bytes × Bytes → World Keys → Option Bytes × World Keys
insert_pdp env (address, private_key) w =
    if any (has_key_address address) w.store
    then (none, ticked w)
    else (let (ok, w') =
          exec env
            (λ keys.
              keys ++ (record { address = address; private_key = private_key; role = pdp } ∷ []))
            w in
        (if ok then some address else none, w'))

abbrev pub generate : Env → Option (Bytes × Bytes) → World Keys → Option Bytes × World Keys
generate env none w = (none, w)
generate env (some key) w = insert_pdp env key w

abbrev pub probe :
    Env → Option (Bytes × Bytes) → Option (Option Bytes) → World Keys → Option Bytes × World Keys
probe env generated none w = (none, w)
probe env generated (some (some address)) w = (some address, w)
probe env generated (some none) w = generate env generated w

-- none for an error
unfoldable pub bootstrap : Env → Option (Bytes × Bytes) → World Keys → Option Bytes × World Keys
bootstrap env generated w = let (row, w') = query env key_of_role w in probe env generated row w'

abbrev pub or_no_address : Option (Option Bytes) → Option Bytes
or_no_address none = none
or_no_address (some none) = some []
or_no_address (some (some address)) = some address

unfoldable pub lookup_pdp : Env → World Keys → Option Bytes × World Keys
lookup_pdp env w = let (row, w') = query env key_of_role w in (or_no_address row, w')
