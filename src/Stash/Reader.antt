-- ===== src/Stash/Reader.antt =====
-- internal/localpiecepark: `ReadPiece`, which opens the stash file of a piece.
--
-- `cid.Decode` is the parameter `decode`, and a CID is a number; nothing is assumed of it. The
-- package's copy of `stashPathFromCustoreURL` has the text of the one of parkcomplete.
pub mod Laws
use curio_core.Base.{
  ℕ, suc, Bool, true, false, not, ◌||◌, ◌&&◌, ◌==◌, Option, none, some, List, [], ◌∷◌, find, keep,
  Bytes, bytes_eq, if◌then◌else◌, Bool-cases, Option-cases, Member, head, tail, All, All-keep, ap,
  subst, inl, inr, ◌≡◌, refl, sym, ◌∙◌, arith,
}
use curio_core.Env.{Env, World, ticked, query}
use curio_core.Sql.{order_by}
use curio_core.Sql.Order.{All-order_by}
use curio_core.Stash.Path.{FilePath}
use curio_core.Stash.Custore.{Url, Resolved, ok, err, stash_path_from_custore_url}
use curio_core.Stash.Files.{File, Files, lookup}
use curio_core.Stash.Park.{Piece, Ref, Park}

pub data ReadError : Type 0 where
  lookup_failed not_complete no_ref size_mismatch bad_db_cid cid_mismatch not_resolved not_opened :
      ReadError

pub data ReadResult : Type 0 where
  opened : File → ReadResult
  refused : ReadError → ReadResult

-- the row of the query: the piece, and the URL of its first ref
pub record Found : Type 0 where
  pub piece : Piece
  pub data_url : Bytes

-- the ref of lowest `ref_id`; NULL, when there is none, cannot be scanned into a string
abbrev pub first_url : Piece → List Ref → Option Found
first_url p [] = none
first_url p (r ∷ rs) = some (record { piece = p; data_url = r.data_url })

abbrev pub with_url : Option Piece → List Ref → Option Found
with_url none refs = none
with_url (some p) refs =
    first_url p (order_by (λ r. r.ref_id) (keep (λ r. r.piece_id == p.id) refs))

unfoldable pub find_row : ℕ → Park → Option Found
find_row id park = with_url (find (λ p. p.id == id) park.pieces) park.refs

abbrev pub or_lookup_failed : Option (Option Found) → Option Found
or_lookup_failed none = none
or_lookup_failed (some o) = o

module _ (parse : Bytes → Option Url) (decode : Bytes → Option ℕ) (cwd : Option Bytes)
    (stash_dir : Bytes) where
  -- `pc`, when it is defined, is the CID of the row
  abbrev pub cid_error : Option ℕ → Bytes → Option ReadError
  cid_error none db = none
  cid_error (some pc) db = elim (decode db) [
    | none ↦ some bad_db_cid
    | some c ↦ if c == pc then none else some cid_mismatch
  ]

  -- the checks of the row, in their order; a size of 0 asks for none
  unfoldable pub row_error : Found → ℕ → Option ℕ → Option ReadError
  row_error f size pc =
      if not f.piece.complete
      then some not_complete
      else if bytes_eq f.data_url []
      then some no_ref
      else if not (size == 0) && not (size == f.piece.piece_raw_size)
      then some size_mismatch
      else cid_error pc f.piece.piece_cid

  -- os.Open
  abbrev pub open_path : Env → Resolved → World Park → ReadResult × World Park
  open_path env (err e) w = (refused not_resolved, w)
  open_path env (ok path) w =
      if env.fault w.calls
      then (refused not_opened, ticked w)
      else elim (lookup path w.store.files) [
        | none ↦ (refused not_opened, ticked w)
        | some f ↦ (opened f, ticked w)
      ]

  abbrev pub open_row : Env → Found → Option ReadError → World Park → ReadResult × World Park
  open_row env f (some e) w = (refused e, w)
  open_row env f none w =
      open_path env (stash_path_from_custore_url parse cwd f.data_url stash_dir) w

  abbrev pub read_found : Env → Option Found → ℕ → Option ℕ → World Park → ReadResult × World Park
  read_found env none size pc w = (refused lookup_failed, w)
  read_found env (some f) size pc w = open_row env f (row_error f size pc) w

  unfoldable pub read_piece : Env → ℕ → ℕ → Option ℕ → World Park → ReadResult × World Park
  read_piece env id size pc w =
      let (row, w') = query env (find_row id) w in read_found env (or_lookup_failed row) size pc w'
