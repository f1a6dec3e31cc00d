-- ===== src/Wallet/Unique.antt =====
-- What the statements on keys keep: one key for each address, of 32 bytes and with a valid role.
use curio_core.Sql.{lower, update, delete}
use curio_core.Wallet.Keys.{answered, with_role, is_valid_role, Keys, Key, has_address}
use curio_core.Base.{
  ◌∙◌, All-append, Bool-cases, ◌++◌, bytes_eq_iff, ◌∷◌, find, All, length, ◌≡◌, Bytes, Bool, arith,
  inr, inl, false, true, none, refl, [],
}
use curio_core.Env.{exec, World, Env}

abbrev pub IsSound : Key → Type 0
IsSound k = (length k.private_key ≡ 32) × (is_valid_role k.role ≡ true)

abbrev pub UniqueKeys : Keys → Type 0
UniqueKeys [] = Unit
UniqueKeys (k ∷ ks) = All (λ x. has_address k.address x ≡ false) ks × UniqueKeys ks

abbrev pub WellFormedKeys : Keys → Type 0
WellFormedKeys ks = All IsSound ks × UniqueKeys ks

has_address-sym : (k x : Key) → has_address k.address x ≡ has_address x.address k
unfolding has_address
has_address-sym k x = ground (
  arith,
  bytes_eq_iff (lower x.address) (lower k.address),
  bytes_eq_iff (lower k.address) (lower x.address),
)

pub find-none :
    (a : Bytes) (ks : Keys) → find (has_address a) ks ≡ none → All (λ x. has_address a x ≡ false) ks
find-none a [] h = tt
find-none a (k ∷ ks) h = elim (Bool-cases (has_address a k)) [
  | inl e ↦ ground (arith, h, e)
  | inr e ↦ (e, find-none a ks (ground (arith, h, e)))
]

pub UniqueKeys-append :
    (ks : Keys) (k : Key)
    → UniqueKeys ks
    → All (λ x. has_address k.address x ≡ false) ks
    → UniqueKeys (ks ++ (k ∷ []))
UniqueKeys-append [] k u n = (tt, tt)
UniqueKeys-append (x ∷ ks) k u n = (
  All-append (λ y. has_address x.address y ≡ false) ks (k ∷ []) u.0 (has_address-sym x k ∙ n.0, tt),
  UniqueKeys-append ks k u.1 n.1,
)

module _ (p : Key → Bool) where
  pub All-delete : (P : Key → Type 0) (ks : Keys) → All P ks → All P (delete p ks)
  All-delete P [] h = tt
  All-delete P (k ∷ ks) h = elim (Bool-cases (p k)) [
    | inl e ↦ rw e (All-delete P ks h.1)
    | inr e ↦ rw e (h.0, All-delete P ks h.1)
  ]

  pub UniqueKeys-delete : (ks : Keys) → UniqueKeys ks → UniqueKeys (delete p ks)
  UniqueKeys-delete [] h = tt
  UniqueKeys-delete (k ∷ ks) h = elim (Bool-cases (p k)) [
    | inl e ↦ rw e (UniqueKeys-delete ks h.1)
    | inr e ↦
        rw e (All-delete (λ x. has_address k.address x ≡ false) ks h.0, UniqueKeys-delete ks h.1)
  ]

  module _ (role : Bytes) where
    All-with_role :
        (a : Bytes) (ks : Keys)
        → All (λ x. has_address a x ≡ false) ks
        → All (λ x. has_address a x ≡ false) (update p (with_role role) ks)
    unfolding has_address
    All-with_role a [] h = tt
    All-with_role a (k ∷ ks) h = elim (Bool-cases (p k)) [
      | inl e ↦ rw e (h.0, All-with_role a ks h.1)
      | inr e ↦ rw e (h.0, All-with_role a ks h.1)
    ]

    pub UniqueKeys-with_role :
        (ks : Keys) → UniqueKeys ks → UniqueKeys (update p (with_role role) ks)
    UniqueKeys-with_role [] h = tt
    UniqueKeys-with_role (k ∷ ks) h = elim (Bool-cases (p k)) [
      | inl e ↦ rw e (All-with_role k.address ks h.0, UniqueKeys-with_role ks h.1)
      | inr e ↦ rw e (All-with_role k.address ks h.0, UniqueKeys-with_role ks h.1)
    ]

    pub IsSound-with_role :
        is_valid_role role ≡ true
        → (ks : Keys) → All IsSound ks
        → All IsSound (update p (with_role role) ks)
    IsSound-with_role v [] h = tt
    IsSound-with_role v (k ∷ ks) h = elim (Bool-cases (p k)) [
      | inl e ↦ rw e ((h.0.0, v), IsSound-with_role v ks h.1)
      | inr e ↦ rw e (h.0, IsSound-with_role v ks h.1)
    ]

pub exec-WellFormedKeys :
    (env : Env) (f : Keys → Keys) (w : World Keys)
    → WellFormedKeys w.store
    → WellFormedKeys (f w.store)
    → WellFormedKeys (exec env f w).1.store
exec-WellFormedKeys env f w h g = elim (Bool-cases (env.fault w.calls)) [
  | inl e ↦ rw e h
  | inr e ↦ rw e g
]

pub answered-store : {A : Type 0} (a : A) (r : Bool × World Keys) → (answered a r).1 ≡ r.1
answered-store a (true, w) = refl
answered-store a (false, w) = refl
