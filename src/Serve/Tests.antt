-- ===== src/Serve/Tests.antt =====
-- internal/httpserve/serve.go: runs.
use curio_core.Serve.Laws.{build-IsBuilt, IsBuilt}
use curio_core.Env.{World, Env}
use curio_core.Serve.{
  plain_https, acme_listen_failed, refused, config_error, ServeConfig, build, https_target,
}
use curio_core.Base.{◌≡◌, ◌∷◌, codes, ◌==◌, cut, Bytes, Option, List, true, refl, []}

abbrev port_of : Bytes → Option Bytes
port_of a = (cut (λ c. c == b':') a).1

abbrev config : ServeConfig
config = record {
  admin_listen = codes "lo:1";
  public_listen = codes "0:443";
  public_tls_domain = codes "d";
  acme_http_challenge_addr = codes ":80";
  has_admin_handler = true;
  has_public_handler = true;
  has_cache = true;
}

-- the third address is taken
abbrev taken : Env
taken = record { fault = λ n. n == 2; owned = λ n. true; time = λ n. n }

abbrev nothing_bound : World (List Bytes)
nothing_bound = record { store = codes "old" ∷ []; calls = 0 }

build-IsBuilt_example :
    IsBuilt port_of config (codes "old" ∷ []) (build port_of taken config nothing_bound)
build-IsBuilt_example = build-IsBuilt port_of taken config nothing_bound

closes_all :
    build port_of taken config nothing_bound
    ≡ (refused acme_listen_failed, record { store = codes "old" ∷ []; calls = 3 })
unfolding build config_error
closes_all = refl

refuses_plain_https :
    (build port_of taken (record config { public_tls_domain = [] }) nothing_bound).0
    ≡ refused plain_https
unfolding build config_error
refuses_plain_https = refl

redirects : https_target [] (codes "h:80") (codes "/p") ≡ codes "https://h/p"
redirects = refl
