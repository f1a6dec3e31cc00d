-- ===== src/Wallet/Laws.antt =====
-- The operations keep one key for each address, of 32 bytes and with a valid role.
use curio_core.Sql.{update, delete}
use curio_core.Wallet.Unique.{
  find-none, UniqueKeys-append, UniqueKeys-with_role, IsSound-with_role, UniqueKeys-delete, IsSound,
  All-delete, exec-WellFormedKeys, answered-store, WellFormedKeys,
}
use curio_core.Wallet.Keys.{
  is_other_pdp, with_role, is_pdp, Key, has_address, insert_with, import_key, decode_hex,
  remove_unless_last, remove_rows, is_valid_role, Keys, get, import, set_role, new, insert_key,
  delete_key,
}
use curio_core.Base.{
  All-append, ◌∷◌, count_if, ◌++◌, ==_iff, find, ◌==◌, Option-cases, ◌≡◌, Bool-cases, length,
  OnSome, Bytes, Option, suc, inr, inl, true, some, none, [], ℕ,
}
use curio_core.Env.{ticked, World, Env}

insert_key-WellFormedKeys :
    (env : Env) (address key role : Bytes) (w : World Keys)
    → length key ≡ 32
    → is_valid_role role ≡ true
    → WellFormedKeys w.store
    → WellFormedKeys (insert_key env address key role w).1.store
unfolding insert_key get
insert_key-WellFormedKeys env address key role w l v h = elim (Bool-cases (env.fault w.calls)) [
  | inl f ↦ rw f h
  | inr f ↦ elim (Option-cases (find (has_address address) w.store)) [
    | inr (old, e) ↦ rw (f, e) h
    | inl e ↦
        let k : Key = record { address = address; private_key = key; role = role } in
        rw (f, e, answered-store)
          (exec-WellFormedKeys env (λ keys. keys ++ (k ∷ [])) (ticked w) h
            (
              All-append IsSound w.store (k ∷ []) h.0 ((l, v), tt),
              UniqueKeys-append w.store k h.1 (find-none address w.store e),
            ))
  ]
]

remove_rows-WellFormedKeys :
    (env : Env) (a : Bytes) (w : World Keys)
    → WellFormedKeys w.store
    → WellFormedKeys (remove_rows env a w).1.store
remove_rows-WellFormedKeys env a w h = rw answered-store (
    exec-WellFormedKeys env (delete (has_address a)) w h (
      All-delete (has_address a) IsSound w.store h.0,
      UniqueKeys-delete (has_address a) w.store h.1,
    ))

remove_unless_last-WellFormedKeys :
    (env : Env) (a : Bytes) (o : Option ℕ) (w : World Keys)
    → WellFormedKeys w.store
    → WellFormedKeys (remove_unless_last env a o w).1.store
remove_unless_last-WellFormedKeys env a none w h = h
remove_unless_last-WellFormedKeys env a (some n) w h = elim (Bool-cases (n == 0)) [
  | inl e ↦ rw e h
  | inr e ↦ rw e (remove_rows-WellFormedKeys env a w h)
]

delete_key-WellFormedKeys :
    (env : Env) (a : Bytes) (w : World Keys)
    → WellFormedKeys w.store
    → WellFormedKeys (delete_key env a w).1.store
unfolding delete_key get
delete_key-WellFormedKeys env a w h = elim (Bool-cases (env.fault w.calls)) [
  | inl f ↦ rw f h
  | inr f ↦ elim (Option-cases (find (has_address a) w.store)) [
    | inl e ↦ rw (f, e) h
    | inr (k, e) ↦ elim (Bool-cases (is_pdp k)) [
      | inr r ↦ rw (f, e, r) (remove_rows-WellFormedKeys env a (ticked w) h)
      | inl r ↦ elim (Bool-cases (env.fault (suc w.calls))) [
        | inl g ↦ rw (f, e, r, g) h
        | inr g ↦
            rw (f, e, r, g)
              (remove_unless_last-WellFormedKeys env a (some (count_if (is_other_pdp a) w.store))
                (ticked (ticked w)) h)
      ]
    ]
  ]
]

set_role-WellFormedKeys :
    (env : Env) (a role : Bytes) (w : World Keys)
    → WellFormedKeys w.store
    → WellFormedKeys (set_role env a role w).1.store
unfolding set_role get
set_role-WellFormedKeys env a role w h = elim (Bool-cases (is_valid_role role)) [
  | inr v ↦ rw v h
  | inl v ↦ elim (Bool-cases (env.fault w.calls)) [
    | inl f ↦ rw (v, f) h
    | inr f ↦ elim (Option-cases (find (has_address a) w.store)) [
      | inl e ↦ rw (v, f, e) h
      | inr (k, e) ↦
          rw (v, f, e, answered-store)
            (exec-WellFormedKeys env (update (has_address a) (with_role role)) (ticked w) h (
              IsSound-with_role (has_address a) role v w.store h.0,
              UniqueKeys-with_role (has_address a) role w.store h.1,
            ))
    ]
  ]
]

module _ (address_of : Bytes → Option Bytes) (env : Env) where
  insert_with-WellFormedKeys :
      (key role : Bytes) (o : Option Bytes) (w : World Keys)
      → length key ≡ 32
      → is_valid_role role ≡ true
      → WellFormedKeys w.store
      → WellFormedKeys (insert_with address_of env key role o w).1.store
  insert_with-WellFormedKeys key role none w l v h = h
  insert_with-WellFormedKeys key role (some a) w l v h =
      insert_key-WellFormedKeys env a key role w l v h

  new-WellFormedKeys :
      (generated : Option Bytes) (role : Bytes) (w : World Keys)
      → OnSome (λ key. length key ≡ 32) generated
      → WellFormedKeys w.store
      → WellFormedKeys (new address_of env generated role w).1.store
  unfolding new
  new-WellFormedKeys none role w l h = elim (Bool-cases (is_valid_role role)) [
    | inl v ↦ rw v h
    | inr v ↦ rw v h
  ]
  new-WellFormedKeys (some key) role w l h = elim (Bool-cases (is_valid_role role)) [
    | inl v ↦ rw v (insert_with-WellFormedKeys key role (address_of key) w l v h)
    | inr v ↦ rw v h
  ]

  import_key-WellFormedKeys :
      (role : Bytes) (o : Option Bytes) (w : World Keys)
      → is_valid_role role ≡ true
      → WellFormedKeys w.store
      → WellFormedKeys (import_key address_of env role o w).1.store
  import_key-WellFormedKeys role none w v h = h
  import_key-WellFormedKeys role (some key) w v h = elim (Bool-cases (length key == 32)) [
    | inl l ↦
        rw l (
          insert_with-WellFormedKeys key role (address_of key) w ((==_iff (length key) 32).0 l) v h)
    | inr l ↦ rw l h
  ]

  import-WellFormedKeys :
      (text role : Bytes) (w : World Keys)
      → WellFormedKeys w.store
      → WellFormedKeys (import address_of env text role w).1.store
  unfolding import
  import-WellFormedKeys text role w h = elim (Bool-cases (is_valid_role role)) [
    | inl v ↦ rw v (import_key-WellFormedKeys role (decode_hex text) w v h)
    | inr v ↦ rw v h
  ]

  -- Whatever fails, `New`, `Import`, `Delete` and `SetRole` keep one key for each address, each of 32
  -- bytes and with a valid role, if generated keys have 32 bytes.
  pub wallet-WellFormedKeys :
      (generated : Option Bytes) (text role a : Bytes) (w : World Keys)
      → OnSome (λ key. length key ≡ 32) generated
      → WellFormedKeys w.store
      → WellFormedKeys (new address_of env generated role w).1.store
        × WellFormedKeys (import address_of env text role w).1.store
        × WellFormedKeys (delete_key env a w).1.store
        × WellFormedKeys (set_role env a role w).1.store
  wallet-WellFormedKeys generated text role a w l h = (
    new-WellFormedKeys generated role w l h,
    import-WellFormedKeys text role w h,
    delete_key-WellFormedKeys env a w h,
    set_role-WellFormedKeys env a role w h,
  )
