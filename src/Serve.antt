-- ===== src/Serve.antt =====
-- internal/httpserve/serve.go: `Build`, which binds the listeners, and `shutdown`.
--
-- The store is the list of the addresses that are bound; each call of net.Listen is one of the
-- numbered calls. `port_of` is the port that net.SplitHostPort finds, none for an error.
pub mod Laws
mod Tests
use curio_core.Env.{exec, Env, World}
use curio_core.Base.{
  ◌&&◌, ◌++◌, ◌==◌, ◌||◌, drop, codes, if◌then◌else◌, cut, not, bytes_eq, ◌∷◌, Bytes, List, ℕ, suc,
  zero, arith, ap, sym, inr, inl, false, true, some, none, refl, [], Bool, Option,
}

pub record ServeConfig : Type 0 where
  pub admin_listen : Bytes
  pub public_listen : Bytes
  pub public_tls_domain : Bytes
  pub acme_http_challenge_addr : Bytes
  pub has_admin_handler : Bool
  pub has_public_handler : Bool
  pub has_cache : Bool

-- the listeners by their addresses
pub record Servers : Type 0 where
  pub admin : Bytes
  pub public : Bytes
  pub acme : Option Bytes
  pub tls_active : Bool
  pub domain : Bytes

pub data BuildError : Type 0 where
  no_admin_handler no_public_handler no_admin_address no_public_address : BuildError
  plain_https no_cache admin_listen_failed public_listen_failed acme_listen_failed : BuildError

pub data Built : Type 0 where
  built : Servers → Built
  refused : BuildError → Built

-- net.Listen
abbrev pub listen : Env → Bytes → World (List Bytes) → Bool × World (List Bytes)
listen env address = exec env (λ bound. address ∷ bound)

-- Close of the listener that was bound last
abbrev pub close_last : World (List Bytes) → World (List Bytes)
close_last w = record w { store = drop 1 w.store }

abbrev pub servers_of : ServeConfig → Option Bytes → Servers
servers_of cfg acme = record {
  admin = cfg.admin_listen;
  public = cfg.public_listen;
  acme = acme;
  tls_active = not (bytes_eq cfg.public_tls_domain []);
  domain = cfg.public_tls_domain;
}

abbrev pub after_acme : ServeConfig → Bool × World (List Bytes) → Built × World (List Bytes)
after_acme cfg (true, w) = (built (servers_of cfg (some cfg.acme_http_challenge_addr)), w)
after_acme cfg (false, w) = (refused acme_listen_failed, close_last (close_last w))

abbrev pub after_public : Env → ServeConfig → Bool × World (List Bytes) → Built × World (List Bytes)
after_public env cfg (false, w) = (refused public_listen_failed, close_last w)
after_public env cfg (true, w) =
    if bytes_eq cfg.public_tls_domain [] || bytes_eq cfg.acme_http_challenge_addr []
    then (built (servers_of cfg none), w)
    else after_acme cfg (listen env cfg.acme_http_challenge_addr w)

abbrev pub after_admin : Env → ServeConfig → Bool × World (List Bytes) → Built × World (List Bytes)
after_admin env cfg (false, w) = (refused admin_listen_failed, w)
after_admin env cfg (true, w) = after_public env cfg (listen env cfg.public_listen w)

-- `isPort443`
abbrev pub is_port_443 : Option Bytes → Bool
is_port_443 none = false
is_port_443 (some port) = bytes_eq port (codes "443") || bytes_eq port (codes "https")

-- the validation
unfoldable pub config_error : (Bytes → Option Bytes) → ServeConfig → Option BuildError
config_error port_of cfg =
    if not cfg.has_admin_handler
    then some no_admin_handler
    else if not cfg.has_public_handler
    then some no_public_handler
    else if bytes_eq cfg.admin_listen []
    then some no_admin_address
    else if bytes_eq cfg.public_listen []
    then some no_public_address
    else if bytes_eq cfg.public_tls_domain [] && is_port_443 (port_of cfg.public_listen)
    then some plain_https
    else if not (bytes_eq cfg.public_tls_domain []) && not cfg.has_cache
    then some no_cache
    else none

abbrev pub build_valid :
    Env → ServeConfig → Option BuildError → World (List Bytes) → Built × World (List Bytes)
build_valid env cfg (some e) w = (refused e, w)
build_valid env cfg none w = after_admin env cfg (listen env cfg.admin_listen w)

-- `Build`
unfoldable pub build :
    (Bytes → Option Bytes) → Env → ServeConfig → World (List Bytes) → Built × World (List Bytes)
build port_of env cfg w = build_valid env cfg (config_error port_of cfg) w

-- `PublicURL`
abbrev pub public_url : Servers → Bytes
public_url s =
    if s.tls_active
    then codes "https://" ++ (s.domain ++ (b'/' ∷ []))
    else codes "http://" ++ (s.public ++ (b'/' ∷ []))

-- `stripPort`
abbrev pub strip_port : Bytes → Bytes
strip_port hostport = (cut (λ c. c == b':') hostport).0

abbrev pub or_host : Bytes → Bytes → Bytes
or_host [] host = strip_port host
or_host (c ∷ domain) host = c ∷ domain

-- the target of `redirectToHTTPS`
abbrev pub https_target : Bytes → Bytes → Bytes → Bytes
https_target domain host uri = codes "https://" ++ (or_host domain host ++ uri)

abbrev pub first_error : Option Bytes → Option Bytes → Option Bytes
first_error none e = e
first_error (some x) e = some x

-- `shutdown`, on the servers that are there in their order, with the error of each; the first one
-- stays, and each server is shut down whatever the others return
abbrev pub shut_down : List (Option Bytes) → Option Bytes
shut_down [] = none
shut_down (e ∷ es) = first_error e (shut_down es)
