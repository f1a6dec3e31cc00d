-- ===== src/Retrieval/Tests.antt =====
-- internal/retrieval/retrieval.go: a run, on a piece of three bytes in a file of four.
use curio_core.Stash.Files.{lookup}
use curio_core.Stash.Path.{path_eq}
use curio_core.Stash.Path.{rel_text, rel_elements, clean, rel, abs}
use curio_core.Stash.Park.{Park}
use curio_core.Stash.Reader.{row_error, find_row, read_piece}
use curio_core.Retrieval.Laws.{handle_get_piece-IsServed, IsServed}
use curio_core.Retrieval.{served, not_found, lookup_piece, handle_get_piece}
use curio_core.Stash.Custore.{stash_path_from_custore_url, custore, Url}
use curio_core.Env.{World, Env}
use curio_core.Base.{
  drop, ◌∷◌, has_prefix, ◌≡◌, if◌then◌else◌, codes, length, replicate, trim_space, Bytes, Option, ℕ,
  false, true, some, none, refl, [],
}

abbrev quiet : Env
quiet = record { fault = λ n. false; owned = λ n. true; time = λ n. n }

abbrev parse_custore : Bytes → Option Url
parse_custore s =
    if has_prefix s (codes "custore://")
    then some (record { scheme = custore; path = drop 10 s })
    else none

abbrev decode_cid : Bytes → Option ℕ
decode_cid s = some (length s)

abbrev show_cid : ℕ → Bytes
show_cid n = replicate n b'c'

abbrev root : Option Bytes
root = some (codes "/")

abbrev dir : Bytes
dir = codes "/s"

abbrev park : World Park
park = record {
  store = record {
    pieces =
        record {
          id = 1;
          piece_cid = codes "c";
          piece_raw_size = 3;
          complete = true;
          long_term = true;
          integrity_missing_at = none;
        }
        ∷ [];
    refs = record { ref_id = 1; piece_id = 1; data_url = codes "custore:///s/a.tmp" } ∷ [];
    files =
        record {
          path = record { rooted = true; elements = codes "s" ∷ codes "a.tmp" ∷ [] };
          is_dir = false;
          content = codes "abcd";
          mod_time = 5;
        }
        ∷ [];
  };
  calls = 0;
}

serves :
    (handle_get_piece parse_custore decode_cid show_cid root dir quiet (codes "c ") park).0
    ≡ served (codes "c") (codes "abc")
unfolding handle_get_piece lookup_piece read_piece find_row row_error stash_path_from_custore_url
    abs rel clean rel_elements rel_text lookup path_eq
serves = refl

handle_get_piece-IsServed_example :
    (pc : ℕ) × (decode_cid (trim_space (codes "c ")) ≡ some pc)
    × (codes "c" ≡ show_cid pc)
    × IsServed parse_custore decode_cid show_cid root dir pc (codes "abc") park.store
handle_get_piece-IsServed_example =
    handle_get_piece-IsServed parse_custore decode_cid show_cid root dir quiet (codes "c ") park
      (codes "c") (codes "abc") serves

misses :
    (handle_get_piece parse_custore decode_cid show_cid root dir quiet (codes "cc") park).0
    ≡ not_found
unfolding handle_get_piece lookup_piece
misses = refl
