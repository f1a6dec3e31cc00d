-- ===== src/Config/Tests.antt =====
-- internal/config/firstrun.go: runs, with a codec that writes the lengths of two values in front.
use curio_core.Config.Setup.{
  method_post, serve_http_inner, api_path, setup_path, to_inner, redirect, method_get,
  is_setup_path, serve_http, Request, Handler,
}
use curio_core.Config.Laws.{set_field_then_read, upsert_then_status}
use curio_core.Config.{
  FirstRunStatus, decode_bundle, with_field, empty_bundle, required_fields, is_blank, lower_text,
  missing_fields, write_default_layer, Layer, read_default_layer, status, upsert_default_layer,
  World, PdpSection, Env, set_field, field_of, Field,
}
use curio_core.Base.{
  ◌⊎◌, trim_right, subst, is_space, trim_space, ◌++◌, ◌∷◌, keep_byte, codes, ◌≡◌, length, bytes_eq,
  take, drop, Bytes, Option, List, ap, false, true, some, none, refl, [],
}

abbrev quiet : Env
quiet = record { fault = λ n. false; owned = λ n. true; time = λ n. 0 }

abbrev text_of : PdpSection → Bytes
text_of c =
    b'x'
    ∷ length c.market_address
    ∷ length c.wallet_address
    ∷ (c.market_address ++ (c.wallet_address ++ c.miner_id))

abbrev encode : PdpSection → Option Bytes
encode c = some (text_of c)

abbrev tail_of : Bytes → Bytes
tail_of [] = []
tail_of (c ∷ s) = s

abbrev unwrapped : Option Bytes → Bytes
unwrapped none = []
unwrapped (some s) = s

abbrev decode : Bytes → Option PdpSection
decode (x ∷ m ∷ n ∷ s) = some (record {
  market_address = take m s;
  wallet_address = take n (drop m s);
  miner_id = drop n (drop m s);
})
decode s = none

take_front : (s t : Bytes) → take (length s) (s ++ t) ≡ s
take_front [] t = refl
take_front (c ∷ s) t = ap (λ u. c ∷ u) (take_front s t)

drop_front : (s t : Bytes) → drop (length s) (s ++ t) ≡ t
drop_front [] t = refl
drop_front (c ∷ s) t = drop_front s t

decode-encode : (c : PdpSection) (body : Bytes) → encode c ≡ some body → decode body ≡ some c
decode-encode c body e =
    let same : text_of c ≡ body = ap unwrapped e in
    subst (λ b. decode b ≡ some c) same
      (rw
        (
          take_front c.market_address (c.wallet_address ++ c.miner_id),
          drop_front c.market_address (c.wallet_address ++ c.miner_id),
          take_front c.wallet_address c.miner_id,
          drop_front c.wallet_address c.miner_id,
        )
        refl)

kept_x : (s : Bytes) → bytes_eq (keep_byte is_space b'x' s) [] ≡ false
kept_x [] = refl
kept_x (c ∷ s) = refl

encode_shows : (c : PdpSection) (body : Bytes) → encode c ≡ some body → is_blank body ≡ false
encode_shows c body e =
    let same : text_of c ≡ body = ap unwrapped e in
    subst (λ b. is_blank b ≡ false) same (kept_x (trim_right is_space (tail_of (text_of c))))

abbrev cfg : PdpSection
cfg = record { market_address = codes "0xa"; wallet_address = codes "0xb"; miner_id = codes "f01" }

abbrev fresh : World (List Layer)
fresh = record { store = []; calls = 0 }

upserts : (upsert_default_layer encode decode quiet cfg fresh).0 ≡ true
unfolding upsert_default_layer missing_fields
upserts = refl

upsert_then_status_example :
    (status encode decode quiet (upsert_default_layer encode decode quiet cfg fresh).1).0
    ≡ some (record { needs_setup = false; missing = [] })
upsert_then_status_example =
    upsert_then_status encode decode quiet decode-encode encode_shows cfg fresh upserts refl

reads_nothing : (read_default_layer encode decode quiet fresh).0 ≡ some empty_bundle
unfolding read_default_layer
reads_nothing = refl

sets_miner : (set_field encode decode quiet (codes " PDP.Miner-ID") (codes "f02 ") fresh).0 ≡ true
unfolding set_field read_default_layer write_default_layer
sets_miner = refl

set_field_then_read_example :
    (f : Field) × (field_of (lower_text (trim_space (codes " PDP.Miner-ID"))) ≡ some f)
    × ((read_default_layer encode decode quiet
          (set_field encode decode quiet (codes " PDP.Miner-ID") (codes "f02 ") fresh).1).0
        ≡ some (with_field f (trim_space (codes "f02 ")) empty_bundle))
set_field_then_read_example =
    set_field_then_read encode decode quiet decode-encode encode_shows (codes " PDP.Miner-ID")
      (codes "f02 ") empty_bundle fresh reads_nothing sets_miner refl

missing_on_fresh :
    (status encode decode quiet fresh).0
    ≡ some (record { needs_setup = true; missing = required_fields })
unfolding status
missing_on_fresh = refl

abbrev configured : World (List Layer)
configured = (upsert_default_layer encode decode quiet cfg fresh).1

abbrev front : Handler
front = record { has_inner = true; disable_first_run_redirect = false }

abbrev get : Bytes → Request
get path = record { path = path; method = method_get; form = none }

reaches_inner : (serve_http encode decode quiet front (get (codes "/")) configured).0 ≡ to_inner
unfolding serve_http status upsert_default_layer missing_fields decode_bundle
reaches_inner = refl

serve_http_inner_example :
    (is_setup_path (codes "/") ≡ false)
    × ((false ≡ true)
        ⊎ ((st : FirstRunStatus) × ((status encode decode quiet configured).0 ≡ some st)
            × (st.needs_setup ≡ false)))
serve_http_inner_example =
    serve_http_inner encode decode quiet front (get (codes "/")) configured reaches_inner

redirects_to_setup :
    (serve_http encode decode quiet front (get (codes "/")) fresh).0 ≡ redirect setup_path
unfolding serve_http status
redirects_to_setup = refl

submits :
    (serve_http encode decode quiet front
      (record { path = api_path; method = method_post; form = some cfg })
      fresh).0
    ≡ redirect (codes "/")
unfolding serve_http status upsert_default_layer missing_fields decode_bundle
submits = refl
