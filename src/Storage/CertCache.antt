-- ===== src/Storage/CertCache.antt =====
-- internal/acmecache/cache.go: certificates by key, in the table `autocert_cache`.
pub mod Refines
use curio_core.Sql.{delete, update}
use curio_core.Base.{
  zero, ap, sym, true, refl, bytes_eq_iff, Bool-cases, ◌∷◌, ◌&&◌, ◌++◌, bytes_eq, if◌then◌else◌,
  find, any, ◌≡◌, Bytes, Bool, Option, List, suc, arith, inr, inl, false, some, none, [], ℕ,
}
use curio_core.Env.{query, exec, World, Env}

pub record CertRow : Type 0 where
  pub k : Bytes
  pub v : Bytes

abbrev pub Certs : Type 0
Certs = List CertRow

abbrev pub has_key : Bytes → CertRow → Bool
has_key key r = bytes_eq r.k key

abbrev pub set_value : Bytes → CertRow → CertRow
set_value val r = record r { v = val }

-- `INSERT … ON CONFLICT(k) DO UPDATE SET v = excluded.v`
unfoldable pub put_row : Bytes → Bytes → Certs → Certs
put_row key val rows =
    if any (has_key key) rows
    then update (has_key key) (set_value val) rows
    else rows ++ (record { k = key; v = val } ∷ [])

-- the answer of `Get`
pub data Cached : Type 0 where
  get_failed cache_miss : Cached
  hit : Bytes → Cached

abbrev pub value_of : Option (Option CertRow) → Cached
value_of none = get_failed
value_of (some none) = cache_miss
value_of (some (some r)) = hit r.v

-- `Get`
unfoldable pub get_cert : Env → Bytes → World Certs → Cached × World Certs
get_cert env key w = let (r, w') = query env (find (has_key key)) w in (value_of r, w')

-- `Put`; true when there is no error
unfoldable pub put_cert : Env → Bytes → Bytes → World Certs → Bool × World Certs
put_cert env key val w = exec env (put_row key val) w

-- `Delete`; true when there is no error
unfoldable pub delete_cert : Env → Bytes → World Certs → Bool × World Certs
delete_cert env key w = exec env (delete (has_key key)) w

-- the value under a key
abbrev pub cert_at : Bytes → Certs → Cached
cert_at key rows = value_of (some (find (has_key key) rows))

cert_at-update :
    (key val other : Bytes) (rows : Certs)
    → cert_at other (update (has_key key) (set_value val) rows)
      ≡ (if bytes_eq key other && any (has_key key) rows then hit val else cert_at other rows)
cert_at-update key val other [] = ground arith
cert_at-update key val other (r ∷ rows) = ground (
  arith,
  cert_at-update key val other rows,
  bytes_eq_iff key other,
  bytes_eq_iff r.k key,
  bytes_eq_iff r.k other,
)

cert_at-append :
    (r : CertRow) (other : Bytes) (rows : Certs)
    → any (has_key r.k) rows ≡ false
    → cert_at other (rows ++ (r ∷ []))
      ≡ (if bytes_eq r.k other then hit r.v else cert_at other rows)
cert_at-append r other [] h = ground arith
cert_at-append r other (x ∷ rows) h = ground (
  arith,
  h,
  cert_at-append r other rows,
  bytes_eq_iff r.k other,
  bytes_eq_iff x.k other,
  bytes_eq_iff x.k r.k,
)

pub cert_at-put :
    (key val other : Bytes) (rows : Certs)
    → cert_at other (put_row key val rows)
      ≡ (if bytes_eq key other then hit val else cert_at other rows)
unfolding put_row
cert_at-put key val other rows = elim (Bool-cases (any (has_key key) rows)) [
  | inl e ↦ rw e (ground (arith, e, cert_at-update key val other rows))
  | inr e ↦ rw e (cert_at-append (record { k = key; v = val }) other rows e)
]

pub cert_at-delete :
    (key other : Bytes) (rows : Certs)
    → cert_at other (delete (has_key key) rows)
      ≡ (if bytes_eq key other then cache_miss else cert_at other rows)
cert_at-delete key other [] = ground arith
cert_at-delete key other (r ∷ rows) = ground (
  arith,
  cert_at-delete key other rows,
  bytes_eq_iff key other,
  bytes_eq_iff r.k key,
  bytes_eq_iff r.k other,
)

-- Where no call fails, `Get` returns what was last `Put` under its key, a miss after a `Delete` of it,
-- and for another key what it would have returned before.
pub get_after_put_delete :
    (env : Env) (key val other : Bytes) (w : World Certs)
    → ((n : ℕ) → env.fault n ≡ false)
    → ((get_cert env other (put_cert env key val w).1).0
        ≡ (if bytes_eq key other then hit val else (get_cert env other w).0))
      × ((get_cert env other (delete_cert env key w).1).0
          ≡ (if bytes_eq key other then cache_miss else (get_cert env other w).0))
unfolding get_cert put_cert delete_cert
get_after_put_delete env key val other w sound =
    rw (sound w.calls, sound (suc w.calls))
      (cert_at-put key val other w.store, cert_at-delete key other w.store)
