-- ===== src/Serve/Laws.antt =====
-- internal/httpserve/serve.go: what is bound behind `Build`.
use curio_core.Serve.{
  build_valid, config_error, BuildError, after_admin, after_public, is_port_443, listen, after_acme,
  built, refused, World, Built, Env, Servers, ServeConfig, build,
}
use curio_core.Base.{
  subst, ◌&&◌, drop, Bool-cases, ◌⊎◌, not, bytes_eq, ◌≡◌, ◌∷◌, Bytes, Option, List, suc, arith, ap,
  sym, inr, inl, false, true, some, none, refl, [],
}

abbrev pub with_acme : Option Bytes → List Bytes → List Bytes
with_acme none bound = bound
with_acme (some a) bound = a ∷ bound

abbrev pub listeners : Servers → List Bytes → List Bytes
listeners s before = with_acme s.acme (s.public ∷ s.admin ∷ before)

-- an error leaves what was bound before; otherwise the listeners of the servers are bound besides, TLS
-- is on exactly with a domain, and without it the public port is not that of HTTPS
abbrev pub IsBuilt :
    (Bytes → Option Bytes) → ServeConfig → List Bytes → Built × World (List Bytes) → Type 0
IsBuilt port_of cfg before (refused e, w) = w.store ≡ before
IsBuilt port_of cfg before (built s, w) =
    (w.store ≡ listeners s before)
    × (s.tls_active ≡ not (bytes_eq s.domain []))
    × ((s.tls_active ≡ true) ⊎ (is_port_443 (port_of s.public) ≡ false))

after_acme-IsBuilt :
    (port_of : Bytes → Option Bytes) (env : Env) (cfg : ServeConfig) (before : List Bytes)
    (w : World (List Bytes))
    → w.store ≡ cfg.public_listen ∷ cfg.admin_listen ∷ before
    → bytes_eq cfg.public_tls_domain [] ≡ false
    → IsBuilt port_of cfg before (after_acme cfg (listen env cfg.acme_http_challenge_addr w))
after_acme-IsBuilt port_of env cfg before w k d = elim (Bool-cases (env.fault w.calls)) [
  | inl f ↦ rw f (ap (λ b. drop 1 (drop 1 b)) k)
  | inr f ↦ rw f (ap (λ b. cfg.acme_http_challenge_addr ∷ b) k, refl, inl (ground (arith, d)))
]

after_public-IsBuilt :
    (port_of : Bytes → Option Bytes) (env : Env) (cfg : ServeConfig) (before : List Bytes)
    (w : World (List Bytes))
    → w.store ≡ cfg.admin_listen ∷ before
    → (bytes_eq cfg.public_tls_domain [] && is_port_443 (port_of cfg.public_listen)) ≡ false
    → IsBuilt port_of cfg before (after_public env cfg (listen env cfg.public_listen w))
after_public-IsBuilt port_of env cfg before w k p = elim (Bool-cases (env.fault w.calls)) [
  | inl f ↦ rw f (ap (drop 1) k)
  | inr f ↦ elim (Bool-cases (bytes_eq cfg.public_tls_domain [])) [
    | inl d ↦
        rw (f, d) (ap (λ b. cfg.public_listen ∷ b) k, ap not (sym d), inr (ground (arith, d, p)))
    | inr d ↦ elim (Bool-cases (bytes_eq cfg.acme_http_challenge_addr [])) [
      | inl a ↦ rw (f, d, a) (ap (λ b. cfg.public_listen ∷ b) k, ap not (sym d), inl refl)
      | inr a ↦ acme_next f d a
    ]
  ]
]
  where
    bound : World (List Bytes)
    bound = record { store = cfg.public_listen ∷ w.store; calls = suc w.calls }

    next :
        env.fault w.calls ≡ false
        → bytes_eq cfg.public_tls_domain [] ≡ false
        → bytes_eq cfg.acme_http_challenge_addr [] ≡ false
        → after_public env cfg (listen env cfg.public_listen w)
          ≡ after_acme cfg (listen env cfg.acme_http_challenge_addr bound)
    next f d a = rw (f, d, a) refl

    acme_next :
        env.fault w.calls ≡ false
        → bytes_eq cfg.public_tls_domain [] ≡ false
        → bytes_eq cfg.acme_http_challenge_addr [] ≡ false
        → IsBuilt port_of cfg before (after_public env cfg (listen env cfg.public_listen w))
    acme_next f d a =
        subst (IsBuilt port_of cfg before) (sym (next f d a))
          (after_acme-IsBuilt port_of env cfg before bound (ap (λ b. cfg.public_listen ∷ b) k) d)

after_admin-IsBuilt :
    (port_of : Bytes → Option Bytes) (env : Env) (cfg : ServeConfig) (w : World (List Bytes))
    → (bytes_eq cfg.public_tls_domain [] && is_port_443 (port_of cfg.public_listen)) ≡ false
    → IsBuilt port_of cfg w.store (after_admin env cfg (listen env cfg.admin_listen w))
after_admin-IsBuilt port_of env cfg w p = elim (Bool-cases (env.fault w.calls)) [
  | inl f ↦ rw f refl
  | inr f ↦ rw f (
      after_public-IsBuilt port_of env cfg w.store
        (record { store = cfg.admin_listen ∷ w.store; calls = suc w.calls }) refl p)
]

valid_port :
    (port_of : Bytes → Option Bytes) (cfg : ServeConfig)
    → config_error port_of cfg ≡ none
    → (bytes_eq cfg.public_tls_domain [] && is_port_443 (port_of cfg.public_listen)) ≡ false
unfolding config_error
valid_port port_of cfg h = ground (arith, h)

-- Whatever fails, an error of `Build` leaves the listeners that were bound before and no other; without
-- an error those of the servers are bound besides, TLS is on exactly where there is a domain, and where
-- it is off the public address has not the port of HTTPS.
pub build-IsBuilt :
    (port_of : Bytes → Option Bytes) (env : Env) (cfg : ServeConfig) (w : World (List Bytes))
    → IsBuilt port_of cfg w.store (build port_of env cfg w)
unfolding build
build-IsBuilt port_of env cfg w = checked (config_error port_of cfg) refl
  where
    checked :
        (o : Option BuildError)
        → config_error port_of cfg ≡ o
        → IsBuilt port_of cfg w.store (build_valid env cfg o w)
    checked (some e) q = refl
    checked none q = after_admin-IsBuilt port_of env cfg w (valid_port port_of cfg q)
