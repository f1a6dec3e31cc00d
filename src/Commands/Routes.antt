-- ===== src/Commands/Routes.antt =====
-- cmd/curio-core/main.go and internal/pdpwire/pdpwire.go: which handler serves a path.
use curio_core.Base.{
  drop, take, ◌++◌, length, has_prefix, ◌==◌, not, ltb, ◌||◌, codes, bytes_eq, if◌then◌else◌, ◌∷◌,
  Bytes, false, true, [], Bool,
}

pub data Handler : Type 0 where
  public_mux admin_mux inner : Handler

-- `hasPathPrefix`
abbrev pub next_is_slash : Bytes → Bool
next_is_slash [] = false
next_is_slash (c ∷ s) = c == b'/'

abbrev pub has_path_prefix : Bytes → Bytes → Bool
has_path_prefix p pfx =
    if ltb (length p) (length pfx)
    then false
    else if not (bytes_eq (take (length pfx) p) pfx)
    then false
    else if length p == length pfx
    then true
    else next_is_slash (drop (length pfx) p)

-- `isChiPath`
unfoldable pub is_chi_path : Bytes → Bool
is_chi_path p =
    has_path_prefix p (codes "/pdp")
    || has_path_prefix p (codes "/admin")
    || has_path_prefix p (codes "/piece")

-- `FallbackHandler`, whose router serves the paths of both muxes
unfoldable pub fallback_handler : Bytes → Handler
fallback_handler p = if is_chi_path p then public_mux else inner

-- `p == pfx || strings.HasPrefix(p, pfx + "/")`
abbrev pub is_below : Bytes → Bytes → Bool
is_below p pfx = bytes_eq p pfx || has_prefix p (pfx ++ (b'/' ∷ []))

-- `adminFallback`
unfoldable pub admin_fallback : Bytes → Handler
admin_fallback p = if is_below p (codes "/admin") then admin_mux else inner

-- `combinedRouter`
unfoldable pub combined_router : Bytes → Handler
combined_router p =
    if is_below p (codes "/pdp") || is_below p (codes "/piece")
    then public_mux
    else if is_below p (codes "/admin")
    then admin_mux
    else inner

abbrev pub is_inner : Handler → Bool
is_inner public_mux = false
is_inner admin_mux = false
is_inner inner = true
