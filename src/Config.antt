-- ===== src/Config.antt =====
-- internal/config/firstrun.go. The TOML codec is an argument: what it makes of a bundle, and of a text.
pub mod Laws
pub mod Setup
mod Tests
use curio_core.Env.{exec, query, World, Env}
use curio_core.Base.{
  trim_space, lower_letter, not, if◌then◌else◌, bytes_eq, ◌∷◌, any, map, codes, Bytes, List, ℕ, suc,
  zero, arith, ap, sym, inr, inl, false, true, some, none, refl, [], Bool, Option,
}

pub record PdpSection : Type 0 where
  pub market_address : Bytes
  pub wallet_address : Bytes
  pub miner_id : Bytes

-- a row of harmony_config
pub record Layer : Type 0 where
  pub title : Bytes
  pub config : Bytes

abbrev pub default_layer_name : Bytes
default_layer_name = codes "default"

pub data Field : Type 0 where
  market_field wallet_field miner_field : Field

abbrev pub required_fields : List Field
required_fields = market_field ∷ wallet_field ∷ miner_field ∷ []

abbrev pub empty_bundle : PdpSection
empty_bundle = record { market_address = []; wallet_address = []; miner_id = [] }

abbrev pub is_blank : Bytes → Bool
is_blank s = bytes_eq (trim_space s) []

abbrev pub if_blank : Bytes → Field → List Field → List Field
if_blank s f fs = if is_blank s then f ∷ fs else fs

unfoldable pub missing_fields : PdpSection → List Field
missing_fields cfg =
    if_blank cfg.market_address market_field
      (if_blank cfg.wallet_address wallet_field (if_blank cfg.miner_id miner_field []))

abbrev pub is_empty : List Field → Bool
is_empty [] = true
is_empty (f ∷ fs) = false

pub record FirstRunStatus : Type 0 where
  pub needs_setup : Bool
  pub missing : List Field

abbrev pub status_of : List Field → FirstRunStatus
status_of missing = record { needs_setup = not (is_empty missing); missing = missing }

-- `SELECT config FROM harmony_config WHERE title = ?`, where the title is the primary key
abbrev pub read_config : List Layer → Option Bytes
read_config [] = none
read_config (l ∷ ls) =
    let rest = read_config ls in if bytes_eq l.title default_layer_name then some l.config else rest

-- `INSERT … ON CONFLICT(title) DO UPDATE`
abbrev pub put_config : Bytes → List Layer → List Layer
put_config body [] = record { title = default_layer_name; config = body } ∷ []
put_config body (l ∷ ls) =
    let rest = l ∷ put_config body ls in
    if bytes_eq l.title default_layer_name then record l { config = body } ∷ ls else rest

-- strings.ToLower, and the names of the fields
abbrev pub lower_text : Bytes → Bytes
lower_text = map lower_letter

abbrev pub one_of : Bytes → List Bytes → Bool
one_of s names = any (bytes_eq s) names

abbrev pub field_of : Bytes → Option Field
field_of name =
    if one_of name
      (codes "pdp.miner-id" ∷ codes "miner_id" ∷ codes "minerid" ∷ codes "miner-id" ∷ [])
    then some miner_field
    else if one_of name (codes "pdp.wallet" ∷ codes "wallet_address" ∷ codes "wallet" ∷ [])
    then some wallet_field
    else if one_of name (codes "pdp.market" ∷ codes "market_address" ∷ codes "market" ∷ [])
    then some market_field
    else none

abbrev pub with_field : Field → Bytes → PdpSection → PdpSection
with_field market_field value cfg = record cfg { market_address = value }
with_field wallet_field value cfg = record cfg { wallet_address = value }
with_field miner_field value cfg = record cfg { miner_id = value }

abbrev pub get_field : Field → PdpSection → Bytes
get_field market_field cfg = cfg.market_address
get_field wallet_field cfg = cfg.wallet_address
get_field miner_field cfg = cfg.miner_id

module _ (encode : PdpSection → Option Bytes) (decode : Bytes → Option PdpSection) (env : Env) where
  unfoldable pub decode_bundle : Bytes → Option PdpSection
  decode_bundle blob = if is_blank blob then some empty_bundle else decode blob

  abbrev pub status_of_bundle : Option PdpSection → Option FirstRunStatus
  status_of_bundle none = none
  status_of_bundle (some cfg) = some (status_of (missing_fields cfg))

  abbrev pub status_of_row : Option Bytes → Option FirstRunStatus
  status_of_row none = some (status_of required_fields)
  status_of_row (some blob) = status_of_bundle (decode_bundle blob)

  abbrev pub status_of_read : Option (Option Bytes) → Option FirstRunStatus
  status_of_read none = none
  status_of_read (some row) = status_of_row row

  -- `Status`, none for an error
  unfoldable pub status : World (List Layer) → Option FirstRunStatus × World (List Layer)
  status w = let (row, w') = query env read_config w in (status_of_read row, w')

  abbrev pub write_body : Option Bytes → World (List Layer) → Bool × World (List Layer)
  write_body none w = (false, w)
  write_body (some body) w = exec env (put_config body) w

  -- `WriteDefaultLayer`, true for no error
  unfoldable pub write_default_layer : PdpSection → World (List Layer) → Bool × World (List Layer)
  write_default_layer cfg w = write_body (encode cfg) w

  -- `UpsertDefaultLayer`, with `validateBundle`
  unfoldable pub upsert_default_layer : PdpSection → World (List Layer) → Bool × World (List Layer)
  upsert_default_layer cfg w =
      if is_empty (missing_fields cfg) then write_body (encode cfg) w else (false, w)

  abbrev pub bundle_of_row : Option Bytes → Option PdpSection
  bundle_of_row none = some empty_bundle
  bundle_of_row (some blob) = decode_bundle blob

  abbrev pub bundle_of_read : Option (Option Bytes) → Option PdpSection
  bundle_of_read none = none
  bundle_of_read (some row) = bundle_of_row row

  -- `ReadDefaultLayer`
  unfoldable pub read_default_layer : World (List Layer) → Option PdpSection × World (List Layer)
  read_default_layer w = let (row, w') = query env read_config w in (bundle_of_read row, w')

  abbrev pub write_field :
      Option Field → Bytes → PdpSection → World (List Layer) → Bool × World (List Layer)
  write_field none value cfg w = (false, w)
  write_field (some f) value cfg w = write_default_layer (with_field f value cfg) w

  abbrev pub set_in :
      Bytes → Bytes → Option PdpSection × World (List Layer) → Bool × World (List Layer)
  set_in field value (none, w) = (false, w)
  set_in field value (some cfg, w) =
      write_field (field_of (lower_text (trim_space field))) (trim_space value) cfg w

  -- `SetField`
  unfoldable pub set_field : Bytes → Bytes → World (List Layer) → Bool × World (List Layer)
  set_field field value w = set_in field value (read_default_layer w)
