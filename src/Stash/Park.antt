-- ===== src/Stash/Park.antt =====
-- The tables `parked_pieces` and `parked_piece_refs`, next to the files of the stash.
use curio_core.Base.{ℕ, Bool, Option, List, Bytes, codes, ◌==◌, ◌&&◌}
use curio_core.Sql.{like_prefix}
use curio_core.Stash.Files.{Files}

pub record Piece : Type 0 where
  pub id : ℕ
  pub piece_cid : Bytes
  pub piece_raw_size : ℕ
  pub complete : Bool
  pub long_term : Bool
  pub integrity_missing_at : Option ℕ

pub record Ref : Type 0 where
  pub ref_id : ℕ
  pub piece_id : ℕ
  pub data_url : Bytes

pub record Park : Type 0 where
  pub pieces : List Piece
  pub refs : List Ref
  pub files : Files

-- a row of the join: the piece, and the URL of one of its refs
pub record Candidate : Type 0 where
  pub piece_id : ℕ
  pub data_url : Bytes

-- `data_url LIKE 'custore://%'`
abbrev pub is_custore_url : Bytes → Bool
is_custore_url url = like_prefix (codes "custore://") url

abbrev pub is_custore_ref : ℕ → Ref → Bool
is_custore_ref piece r = (r.piece_id == piece) && is_custore_url r.data_url
