-- ===== src/Wallet/Bootstrap/Laws.antt =====
-- internal/ethkeys/ethkeys.go: the key stays the same from one start to the next.
use curio_core.Wallet.Bootstrap.{
  ticked, probe, bootstrap, lookup_pdp, has_key_address, pdp, insert_pdp, key_of_role, World, Key,
  Env, Keys,
}
use curio_core.Base.{
  subst, Option, ap, sym, false, true, ◌∙◌, bytes_eq, ◌∷◌, any, Bool-cases, ◌++◌, ◌≡◌, Bytes, arith,
  inr, inl, some, none, refl, [],
}

key_of_role-append :
    (keys : Keys) (k : Key)
    → key_of_role keys ≡ none
    → k.role ≡ pdp
    → key_of_role (keys ++ (k ∷ [])) ≡ some k.address
key_of_role-append [] k h e = rw e refl
key_of_role-append (x ∷ keys) k h e = elim (Bool-cases (bytes_eq x.role pdp)) [
  | inl y ↦ absurd (ground (arith, y, h))
  | inr y ↦ rw y (key_of_role-append keys k (ground (arith, y, h)) e)
]

insert_pdp-key :
    (env : Env) (key : Bytes × Bytes) (w : World Keys) (address : Bytes)
    → key_of_role w.store ≡ none
    → (insert_pdp env key w).0 ≡ some address
    → key_of_role (insert_pdp env key w).1.store ≡ some address
insert_pdp-key env (a, s) w address n h = elim (Bool-cases (any (has_key_address a) w.store)) [
  | inl e ↦ absurd (ground (arith, e, h))
  | inr e ↦ elim (Bool-cases (env.fault w.calls)) [
    | inl f ↦ absurd (ground (arith, e, f, h))
    | inr f ↦
        rw (e, f)
          (key_of_role-append w.store (record { address = a; private_key = s; role = pdp }) n refl
            ∙ ground (arith, e, f, h))
  ]
]

probe-key :
    (env : Env) (generated : Option (Bytes × Bytes)) (o : Option Bytes) (w : World Keys)
    → (address : Bytes) → key_of_role w.store ≡ o
    → (probe env generated (some o) w).0 ≡ some address
    → key_of_role (probe env generated (some o) w).1.store ≡ some address
probe-key env generated (some a) w address k h = k ∙ h
probe-key env none none w address k h = absurd (ground (arith, h))
probe-key env (some key) none w address k h = insert_pdp-key env key w address k h

bootstrap_ok :
    (env : Env) (generated : Option (Bytes × Bytes)) (w : World Keys)
    → env.fault w.calls ≡ false
    → bootstrap env generated w ≡ probe env generated (some (key_of_role w.store)) (ticked w)
unfolding bootstrap
bootstrap_ok env generated w f = rw f refl

bootstrap_fails :
    (env : Env) (generated : Option (Bytes × Bytes)) (w : World Keys)
    → env.fault w.calls ≡ true
    → bootstrap env generated w ≡ (none, ticked w)
unfolding bootstrap
bootstrap_fails env generated w f = rw f refl

bootstrap-key :
    (env : Env) (generated : Option (Bytes × Bytes)) (w : World Keys) (address : Bytes)
    → (bootstrap env generated w).0 ≡ some address
    → key_of_role (bootstrap env generated w).1.store ≡ some address
bootstrap-key env generated w address h = elim (Bool-cases (env.fault w.calls)) [
  | inl f ↦ absurd (
      ground (
        arith,
        sym (ap (λ (r : Option Bytes × World Keys). r.0) (bootstrap_fails env generated w f)) ∙ h,
      ))
  | inr f ↦
      let same = bootstrap_ok env generated w f in
      subst (λ (r : Option Bytes × World Keys). key_of_role r.1.store ≡ some address) (sym same)
        (probe-key env generated (key_of_role w.store) (ticked w) address refl
          (sym (ap (λ (r : Option Bytes × World Keys). r.0) same) ∙ h))
]

-- Where a start returns an address, the next one returns the same address and leaves the table as it
-- is, whatever key it would generate, and the look-up finds this address, if its query does not fail.
pub bootstrap_again :
    (env : Env) (generated other : Option (Bytes × Bytes)) (w : World Keys) (address : Bytes)
    → (bootstrap env generated w).0 ≡ some address
    → env.fault (bootstrap env generated w).1.calls ≡ false
    → ((bootstrap env other (bootstrap env generated w).1).0 ≡ some address)
      × ((bootstrap env other (bootstrap env generated w).1).1.store
          ≡ (bootstrap env generated w).1.store)
      × ((lookup_pdp env (bootstrap env generated w).1).0 ≡ some address)
unfolding lookup_pdp
bootstrap_again env generated other w address h f =
    let v = (bootstrap env generated w).1 in
    let found = bootstrap-key env generated w address h in
    let same = bootstrap_ok env other v f in
    (
      ap (λ (r : Option Bytes × World Keys). r.0) same ∙ rw found refl,
      ap (λ (r : Option Bytes × World Keys). r.1.store) same ∙ rw found refl,
      rw (f, found) refl,
    )
