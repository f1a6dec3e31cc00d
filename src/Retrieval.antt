-- ===== src/Retrieval.antt =====
-- internal/retrieval/retrieval.go: `handleGetPiece`.
--
-- `cid.Decode` is `decode`, and the text of a CID is `show`. http.ServeContent, which cuts the bytes to
-- the range that the request asks for, is left out: the answer holds what it serves from.
pub mod Laws
mod Tests
use curio_core.Sql.{order_by}
use curio_core.Env.{query, World, Env}
use curio_core.Stash.Reader.{refused, read_piece, opened, ReadResult}
use curio_core.Stash.Park.{Park, Piece}
use curio_core.Stash.Custore.{Url}
use curio_core.Base.{
  take, trim_space, if◌then◌else◌, keep, ◌&&◌, ◌∷◌, bytes_eq, Bytes, List, ℕ, suc, zero, arith, ap,
  sym, inr, inl, false, true, some, none, refl, [], Bool, Option,
}

pub data Response : Type 0 where
  bad_request not_found internal_error : Response
  served : Bytes → Bytes → Response

-- `SELECT id, piece_raw_size … ORDER BY id ASC LIMIT 1`
abbrev pub is_of : Bytes → Piece → Bool
is_of cid p = bytes_eq p.piece_cid cid && p.complete

abbrev pub lowest : List Piece → Option Piece
lowest [] = none
lowest (p ∷ ps) = some p

unfoldable pub lookup_piece : Bytes → Park → Option Piece
lookup_piece cid park = lowest (order_by (λ p. p.id) (keep (is_of cid) park.pieces))

module _ (parse : Bytes → Option Url) (decode : Bytes → Option ℕ) (show : ℕ → Bytes)
    (cwd : Option Bytes) (stash_dir : Bytes) where
  -- a section of the file, of the size of the piece, with the entity tag
  abbrev pub serve : ℕ → Bytes → ReadResult × World Park → Response × World Park
  serve size cid (opened f, w) = (served cid (take size f.content), w)
  serve size cid (refused e, w) = (internal_error, w)

  abbrev pub get_found : Env → ℕ → Option Piece → World Park → Response × World Park
  get_found env pc none w = (not_found, w)
  get_found env pc (some p) w =
      serve p.piece_raw_size (show pc)
        (read_piece parse decode cwd stash_dir env p.id p.piece_raw_size (some pc) w)

  abbrev pub get_row : Env → ℕ → Option (Option Piece) → World Park → Response × World Park
  get_row env pc none w = (internal_error, w)
  get_row env pc (some o) w = get_found env pc o w

  abbrev pub get_cid : Env → Option ℕ → World Park → Response × World Park
  get_cid env none w = (bad_request, w)
  get_cid env (some pc) w =
      let (row, w') = query env (lookup_piece (show pc)) w in get_row env pc row w'

  unfoldable pub handle_get_piece : Env → Bytes → World Park → Response × World Park
  handle_get_piece env param w =
      if bytes_eq (trim_space param) []
      then (bad_request, w)
      else get_cid env (decode (trim_space param)) w
