-- ===== src/Wallet/Kept.antt =====
-- The last pdp key stays, and an imported key can be exported.
use curio_core.Sql.{delete, lower}
use curio_core.Wallet.Unique.{answered-store, UniqueKeys}
use curio_core.Wallet.Keys.{
  decode_hex, is_valid_role, export, insert_key, import, remove_unless_last, is_other_pdp, is_pdp,
  get, delete_key, has_address, Key, Keys,
}
use curio_core.Wallet.Keys.{ok}
use curio_core.Base.{
  length, Option-cases, ◌==◌, bytes_eq_iff, Bool-cases, ◌∷◌, ◌++◌, count_if, any, All, find,
  bytes_eq_refl, ◌≡◌, Bytes, Option, suc, arith, ap, inr, inl, false, true, some, none, refl, [], ℕ,
}
use curio_core.Env.{ticked, exec, World, Env}

delete-none :
    (a : Bytes) (ks : Keys) → All (λ x. has_address a x ≡ false) ks → delete (has_address a) ks ≡ ks
delete-none a [] h = refl
delete-none a (k ∷ ks) h = rw (h.0, delete-none a ks h.1) refl

-- another pdp key stays
others_stay :
    (a : Bytes) (ks : Keys)
    → (count_if (is_other_pdp a) ks == 0) ≡ false
    → any is_pdp (delete (has_address a) ks) ≡ true
others_stay a [] h = ground (arith, h)
others_stay a (k ∷ ks) h = ground (arith, h, others_stay a ks)

same_address :
    (a : Bytes) (k : Key) (ks : Keys)
    → has_address a k ≡ true
    → All (λ x. has_address k.address x ≡ false) ks
    → All (λ x. has_address a x ≡ false) ks
unfolding has_address
same_address a k [] e h = tt
same_address a k (x ∷ ks) e h = (
  ground (
    arith,
    e,
    h.0,
    bytes_eq_iff (lower k.address) (lower a),
    bytes_eq_iff (lower x.address) (lower a),
    bytes_eq_iff (lower x.address) (lower k.address),
  ),
  same_address a k ks e h.1,
)

-- where the key of that address is none of pdp, the pdp keys stay
pdp_stay :
    (a : Bytes) (k : Key) (ks : Keys)
    → UniqueKeys ks
    → find (has_address a) ks ≡ some k
    → is_pdp k ≡ false
    → any is_pdp ks ≡ true
    → any is_pdp (delete (has_address a) ks) ≡ true
pdp_stay a k [] u f n h = ground (arith, h)
pdp_stay a k (x ∷ ks) u f n h = elim (Bool-cases (has_address a x)) [
  | inl e ↦
      let same : x ≡ k = ground (arith, f, e) in
      rw (e, delete-none a ks (same_address a x ks e u.0)) (ground (arith, h, n, ap is_pdp same))
  | inr e ↦
      let rest : find (has_address a) ks ≡ some k = ground (arith, f, e) in
      rw e (elim (Bool-cases (is_pdp x)) [
        | inl p ↦ rw p refl
        | inr p ↦ rw p (pdp_stay a k ks u.1 rest n (ground (arith, h, p)))
      ])
]

exec_pdp :
    (env : Env) (f : Keys → Keys) (w : World Keys)
    → any is_pdp w.store ≡ true
    → any is_pdp (f w.store) ≡ true
    → any is_pdp (exec env f w).1.store ≡ true
exec_pdp env f w h g = elim (Bool-cases (env.fault w.calls)) [ inl e ↦ rw e h | inr e ↦ rw e g ]

remove_unless_last_pdp :
    (env : Env) (a : Bytes) (w : World Keys)
    → any is_pdp w.store ≡ true
    → any is_pdp (remove_unless_last env a (some (count_if (is_other_pdp a) w.store)) w).1.store
      ≡ true
remove_unless_last_pdp env a w h = elim (Bool-cases (count_if (is_other_pdp a) w.store == 0)) [
  | inl e ↦ rw e h
  | inr e ↦
      rw (e, answered-store) (exec_pdp env (delete (has_address a)) w h (others_stay a w.store e))
]

-- `Delete` leaves a pdp key where there was one, whatever fails, if no two keys have one address.
pub delete_key_pdp :
    (env : Env) (a : Bytes) (w : World Keys)
    → UniqueKeys w.store
    → any is_pdp w.store ≡ true
    → any is_pdp (delete_key env a w).1.store ≡ true
unfolding delete_key get
delete_key_pdp env a w u h = elim (Bool-cases (env.fault w.calls)) [
  | inl f ↦ rw f h
  | inr f ↦ elim (Option-cases (find (has_address a) w.store)) [
    | inl e ↦ rw (f, e) h
    | inr (k, e) ↦ elim (Bool-cases (is_pdp k)) [
      | inr r ↦
          rw (f, e, r, answered-store)
            (exec_pdp env (delete (has_address a)) (ticked w) h (pdp_stay a k w.store u e r h))
      | inl r ↦ elim (Bool-cases (env.fault (suc w.calls))) [
        | inl g ↦ rw (f, e, r, g) h
        | inr g ↦ rw (f, e, r, g) (remove_unless_last_pdp env a (ticked (ticked w)) h)
      ]
    ]
  ]
]

find-append_new :
    (a : Bytes) (k : Key) (ks : Keys)
    → find (has_address a) ks ≡ none
    → has_address a k ≡ true
    → find (has_address a) (ks ++ (k ∷ [])) ≡ some k
find-append_new a k [] n e = ground (arith, e)
find-append_new a k (x ∷ ks) n e = ground (arith, n, e, find-append_new a k ks)

has_address_refl : (k : Key) → has_address k.address k ≡ true
unfolding has_address
has_address_refl k = bytes_eq_refl (lower k.address)

-- Where no call fails, a key of 32 bytes that `Import` takes under a valid role and an address that no
-- key has is stored under that address, and `Export` then gives these bytes.
pub import_then_export :
    (address_of : Bytes → Option Bytes) (env : Env) (text key role a : Bytes) (w : World Keys)
    → ((n : ℕ) → env.fault n ≡ false)
    → is_valid_role role ≡ true
    → decode_hex text ≡ some key
    → (length key == 32) ≡ true
    → address_of key ≡ some a
    → find (has_address a) w.store ≡ none
    → let (r, w') = import address_of env text role w in (r ≡ ok a) × ((export env a w').0 ≡ ok key)
unfolding import insert_key get export
import_then_export address_of env text key role a w sound v d l o n =
    let k : Key = record { address = a; private_key = key; role = role } in
    rw
      (
        v,
        d,
        l,
        o,
        sound w.calls,
        n,
        sound (suc w.calls),
        sound (suc (suc w.calls)),
        find-append_new a k w.store n (has_address_refl k),
        l,
      )
      (refl, refl)
