-- ===== src/Wallet/Keys.antt =====
-- internal/wallet/wallet.go: `Get`, `New`, `Import`, `Export`, `Delete`, `SetRole`.
--
-- secp256k1 is outside: `address_of` is the address, as text, of a private key, `none` for a key that
-- `crypto.ToECDSA` refuses; `New` takes the key that was generated. An address is its text.
-- `TrimSpace` is that of ASCII text.
use curio_core.Sql.{delete, update, lower}
use curio_core.Base.{
  find, drop, ◌%◌, count_if, ◌++◌, ◌+◌, ltb, length, ◌==◌, has_prefix, ◌-◌, not, leb, ◌*◌, bytes_eq,
  if◌then◌else◌, ◌||◌, ◌∷◌, codes, ◌&&◌, Bytes, Bool, Option, List, false, true, some, none, [], ℕ,
}
use curio_core.Env.{exec, query, World, Env}

pub record Key : Type 0 where
  pub address : Bytes
  pub private_key : Bytes
  pub role : Bytes

abbrev pub Keys : Type 0
Keys = List Key

pub data WalletError : Type 0 where
  db_failed bad_role key_exists not_found bad_hex bad_length bad_key last_pdp no_key : WalletError

pub data Result (A : Type 0) : Type 0 where
  ok : A → Result A
  err : WalletError → Result A

abbrev pub between : ℕ → ℕ → ℕ → Bool
between a b c = leb a c && leb c b

abbrev pub is_role_char : ℕ → Bool
is_role_char c =
    between b'a' b'z' c || between b'A' b'Z' c || between b'0' b'9' c || c == b'_' || c == b'-'

abbrev pub all_chars : (ℕ → Bool) → Bytes → Bool
all_chars p [] = true
all_chars p (c ∷ s) = p c && all_chars p s

-- `validateRole`
unfoldable pub is_valid_role : Bytes → Bool
is_valid_role role = not (bytes_eq role []) && leb (length role) 32 && all_chars is_role_char role

abbrev pub is_space : ℕ → Bool
is_space c = between 9 13 c || c == 32

abbrev pub trim_left : Bytes → Bytes
trim_left [] = []
trim_left (c ∷ s) = let rest = trim_left s in if is_space c then rest else c ∷ s

-- without the spaces at the end
abbrev pub cons_unless_space : ℕ → Bytes → Bytes
cons_unless_space c [] = if is_space c then [] else c ∷ []
cons_unless_space c (d ∷ s) = c ∷ d ∷ s

abbrev pub trim_right : Bytes → Bytes
trim_right [] = []
trim_right (c ∷ s) = cons_unless_space c (trim_right s)

abbrev pub trim_prefix : Bytes → Bytes → Bytes
trim_prefix s p = if has_prefix s p then drop (length p) s else s

abbrev pub hex_value : ℕ → Option ℕ
hex_value c =
    if between b'0' b'9' c
    then some (c - b'0')
    else if between b'a' b'f' c
    then some (c - b'a' + 10)
    else if between b'A' b'F' c
    then some (c - b'A' + 10)
    else none

abbrev pub cons_byte : Option ℕ → Option ℕ → Option Bytes → Option Bytes
cons_byte (some h) (some l) (some bs) = some ((h * 16 + l) ∷ bs)
cons_byte _ _ _ = none

-- hex.DecodeString of an even number of digits
abbrev pub hex_pairs : Bytes → Option Bytes
hex_pairs [] = some []
hex_pairs (c ∷ []) = none
hex_pairs (c ∷ d ∷ s) = cons_byte (hex_value c) (hex_value d) (hex_pairs s)

-- `decodeHex`
unfoldable pub decode_hex : Bytes → Option Bytes
decode_hex s =
    let digits = trim_prefix (trim_prefix (trim_right (trim_left s)) (codes "0x")) (codes "0X") in
    if length digits % 2 == 0 then hex_pairs digits else none

-- `lower(address) = lower(…)`
unfoldable pub has_address : Bytes → Key → Bool
has_address a k = bytes_eq (lower k.address) (lower a)

abbrev pub is_pdp : Key → Bool
is_pdp k = bytes_eq k.role (codes "pdp")

-- `Get`: the row, if there is one, or `none` for an error
unfoldable pub get : Env → Bytes → World Keys → Option (Option Key) × World Keys
get env a w = query env (find (has_address a)) w

abbrev pub answered : {A : Type 0} → A → Bool × World Keys → Result A × World Keys
answered a (true, w) = (ok a, w)
answered a (false, w) = (err db_failed, w)

abbrev pub insert_new : Env → Key → Option (Option Key) × World Keys → Result Bytes × World Keys
insert_new env k (none, w) = (err db_failed, w)
insert_new env k (some (some old), w) = (err key_exists, w)
insert_new env k (some none, w) = answered k.address (exec env (λ keys. keys ++ (k ∷ [])) w)

-- `insertKey`, and the address that `New` and `Import` return behind it
unfoldable pub insert_key : Env → Bytes → Bytes → Bytes → World Keys → Result Bytes × World Keys
insert_key env address key role w =
    insert_new env (record { address = address; private_key = key; role = role })
      (get env address w)

module _ (address_of : Bytes → Option Bytes) where
  abbrev pub insert_with :
      Env → Bytes → Bytes → Option Bytes → World Keys → Result Bytes × World Keys
  insert_with env key role none w = (err bad_key, w)
  insert_with env key role (some address) w = insert_key env address key role w

  -- `New`, with the key that was generated, or `none` for an error
  unfoldable pub new : Env → Option Bytes → Bytes → World Keys → Result Bytes × World Keys
  new env generated role w =
      if is_valid_role role
      then (elim generated [
        | none ↦ (err no_key, w)
        | some key ↦ insert_with env key role (address_of key) w
      ])
      else (err bad_role, w)

  abbrev pub import_key : Env → Bytes → Option Bytes → World Keys → Result Bytes × World Keys
  import_key env role none w = (err bad_hex, w)
  import_key env role (some key) w =
      if length key == 32 then insert_with env key role (address_of key) w else (err bad_length, w)

  -- `Import`
  unfoldable pub import : Env → Bytes → Bytes → World Keys → Result Bytes × World Keys
  import env text role w =
      if is_valid_role role then import_key env role (decode_hex text) w else (err bad_role, w)

abbrev pub exported : Option (Option Key) → Result Bytes
exported none = err db_failed
exported (some none) = err not_found
exported (some (some k)) = if length k.private_key == 32 then ok k.private_key else err bad_length

-- `Export`
unfoldable pub export : Env → Bytes → World Keys → Result Bytes × World Keys
export env a w = let (row, w') = get env a w in (exported row, w')

-- the statement, which says how many rows it removed
abbrev pub remove_rows : Env → Bytes → World Keys → Result Bool × World Keys
remove_rows env a w =
    answered (ltb 0 (count_if (has_address a) w.store)) (exec env (delete (has_address a)) w)

abbrev pub is_other_pdp : Bytes → Key → Bool
is_other_pdp a k = is_pdp k && not (has_address a k)

abbrev pub remove_unless_last : Env → Bytes → Option ℕ → World Keys → Result Bool × World Keys
remove_unless_last env a none w = (err db_failed, w)
remove_unless_last env a (some others) w =
    if others == 0 then (err last_pdp, w) else remove_rows env a w

abbrev pub delete_found : Env → Bytes → Option (Option Key) × World Keys → Result Bool × World Keys
delete_found env a (none, w) = (err db_failed, w)
delete_found env a (some none, w) = (ok false, w)
delete_found env a (some (some k), w) =
    let (others, w') = query env (count_if (is_other_pdp a)) w in
    if is_pdp k then remove_unless_last env a others w' else remove_rows env a w

-- `Delete`: was a row removed?
unfoldable pub delete_key : Env → Bytes → World Keys → Result Bool × World Keys
delete_key env a w = delete_found env a (get env a w)

abbrev pub with_role : Bytes → Key → Key
with_role role k = record k { role = role }

abbrev pub set_found :
    Env → Bytes → Bytes → Option (Option Key) × World Keys → Result Bool × World Keys
set_found env a role (none, w) = (err db_failed, w)
set_found env a role (some none, w) = (err not_found, w)
set_found env a role (some (some k), w) =
    answered true (exec env (update (has_address a) (with_role role)) w)

-- `SetRole`; a success returns nothing, here true
unfoldable pub set_role : Env → Bytes → Bytes → World Keys → Result Bool × World Keys
set_role env a role w =
    if is_valid_role role then set_found env a role (get env a w) else (err bad_role, w)
