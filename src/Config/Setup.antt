-- ===== src/Config/Setup.antt =====
-- internal/setupweb/setupweb.go: the handler in front of the pages, on the configuration.
--
-- A reply is what the handler does; the HTML of the form is left out.
use curio_core.Config.{
  empty_bundle, upsert_default_layer, status, Layer, World, Env, PdpSection, Field, FirstRunStatus,
}
use curio_core.Base.{
  ◌∙◌, Bool-cases, ◌⊎◌, ◌≢◌, ◌≡◌, arith, ap, sym, inr, inl, refl, ◌&&◌, ◌||◌, not, trim_space,
  codes, bytes_eq, if◌then◌else◌, Bytes, List, false, true, some, none, Bool, Option,
}

pub data Method : Type 0 where
  method_get method_post other_method : Method

-- the form is none where it cannot be parsed
pub record Request : Type 0 where
  pub path : Bytes
  pub method : Method
  pub form : Option PdpSection

pub record SetupPageData : Type 0 where
  pub missing : List Field
  pub values : PdpSection
  pub has_error : Bool
  pub already_configured : Bool

pub data Reply : Type 0 where
  probe_failed bad_form to_inner placeholder : Reply
  page : SetupPageData → Reply
  not_allowed : Method → Reply
  redirect : Bytes → Reply

pub record Handler : Type 0 where
  pub has_inner : Bool
  pub disable_first_run_redirect : Bool

abbrev pub is_get : Method → Bool
is_get method_get = true
is_get method_post = false
is_get other_method = false

abbrev pub is_post : Method → Bool
is_post method_get = false
is_post method_post = true
is_post other_method = false

abbrev pub setup_path : Bytes
setup_path = codes "/setup"

abbrev pub api_path : Bytes
api_path = codes "/api/setup"

-- `methodFor`
abbrev pub method_for : Bytes → Method
method_for path = if bytes_eq path setup_path then method_get else method_post

-- `renderSetup`
abbrev pub render_setup : FirstRunStatus → Bool → PdpSection → Reply
render_setup st has_error values = page (record {
  missing = st.missing;
  values = values;
  has_error = has_error;
  already_configured = not st.needs_setup;
})

abbrev pub trimmed : PdpSection → PdpSection
trimmed form = record {
  market_address = trim_space form.market_address;
  wallet_address = trim_space form.wallet_address;
  miner_id = trim_space form.miner_id;
}

abbrev pub is_setup_path : Bytes → Bool
is_setup_path path = bytes_eq path setup_path || bytes_eq path api_path

module _ (encode : PdpSection → Option Bytes) (decode : Bytes → Option PdpSection) (env : Env) where
  abbrev pub target_of : Option FirstRunStatus → Reply
  target_of none = redirect (codes "/")
  target_of (some st) = if st.needs_setup then redirect setup_path else redirect (codes "/")

  abbrev pub after_upsert :
      FirstRunStatus → PdpSection → Bool × World (List Layer) → Reply × World (List Layer)
  after_upsert st cfg (false, w) = (render_setup st true cfg, w)
  after_upsert st cfg (true, w) =
      let (post, w') = status encode decode env w in (target_of post, w')

  -- `submitSetup`
  abbrev pub submit_setup :
      FirstRunStatus → Option PdpSection → World (List Layer) → Reply × World (List Layer)
  submit_setup st none w = (bad_form, w)
  submit_setup st (some form) w =
      after_upsert st (trimmed form) (upsert_default_layer encode decode env (trimmed form) w)

  abbrev pub fall_through : Handler → FirstRunStatus → Reply
  fall_through h st =
      if st.needs_setup && not h.disable_first_run_redirect
      then redirect setup_path
      else if h.has_inner
      then to_inner
      else placeholder

  abbrev pub serve_status :
      Handler → Request → Option FirstRunStatus × World (List Layer) → Reply × World (List Layer)
  serve_status h r (none, w) = (probe_failed, w)
  serve_status h r (some st, w) =
      let submitted = submit_setup st r.form w in
      if bytes_eq r.path setup_path && is_get r.method
      then (render_setup st false empty_bundle, w)
      else if bytes_eq r.path api_path && is_post r.method
      then submitted
      else if is_setup_path r.path
      then (not_allowed (method_for r.path), w)
      else (fall_through h st, w)

  -- `ServeHTTP`
  unfoldable pub serve_http : Handler → Request → World (List Layer) → Reply × World (List Layer)
  serve_http h r w = serve_status h r (status encode decode env w)

  after_upsert-outside :
      (st : FirstRunStatus) (cfg : PdpSection) (r : Bool × World (List Layer))
      → (after_upsert st cfg r).0 ≢ to_inner
  after_upsert-outside st cfg (false, w) h = absurd (ground (arith, h))
  after_upsert-outside st cfg (true, w) h = target_outside (status encode decode env w).0 h
    where
      target_outside : (o : Option FirstRunStatus) → target_of o ≢ to_inner
      target_outside none k = absurd (ground (arith, k))
      target_outside (some post) k = absurd (ground (arith, k))

  submit_setup-outside :
      (st : FirstRunStatus) (form : Option PdpSection) (w : World (List Layer))
      → (submit_setup st form w).0 ≢ to_inner
  submit_setup-outside st none w h = absurd (ground (arith, h))
  submit_setup-outside st (some form) w h =
      after_upsert-outside st (trimmed form)
        (upsert_default_layer encode decode env (trimmed form) w) h

  fall_through_inner :
      (h : Handler) (st : FirstRunStatus)
      → fall_through h st ≡ to_inner
      → (h.disable_first_run_redirect ≡ true) ⊎ (st.needs_setup ≡ false)
  fall_through_inner h st e = ground (arith, e)

  serve_status_inner :
      (h : Handler) (r : Request) (q : Option FirstRunStatus × World (List Layer))
      → (serve_status h r q).0 ≡ to_inner
      → (is_setup_path r.path ≡ false)
        × ((h.disable_first_run_redirect ≡ true)
            ⊎ ((st : FirstRunStatus) × (q.0 ≡ some st) × (st.needs_setup ≡ false)))
  serve_status_inner h r (none, w) e = absurd (ground (arith, e))
  serve_status_inner h r (some st, w) e =
      elim (Bool-cases (bytes_eq r.path setup_path && is_get r.method)) [
        | inl a ↦ absurd (ground (arith, e, a))
        | inr a ↦ elim (Bool-cases (bytes_eq r.path api_path && is_post r.method)) [
          | inl b ↦ absurd (
              submit_setup-outside st r.form w
                (sym (ap (λ (x : Reply × World (List Layer)). x.0) (posted a b)) ∙ e))
          | inr b ↦ elim (Bool-cases (is_setup_path r.path)) [
            | inl c ↦ absurd (
                ground
                  (arith, sym (ap (λ (x : Reply × World (List Layer)). x.0) (wrong a b c)) ∙ e))
            | inr c ↦ (
              c,
              elim (fall_through_inner h st
                  (sym (ap (λ (x : Reply × World (List Layer)). x.0) (fell a b c)) ∙ e)) [
                    | inl d ↦ inl d
                    | inr k ↦ inr (st, refl, k)
                  ],
            )
          ]
        ]
      ]
    where
      posted :
          (bytes_eq r.path setup_path && is_get r.method) ≡ false
          → (bytes_eq r.path api_path && is_post r.method) ≡ true
          → serve_status h r (some st, w) ≡ submit_setup st r.form w
      posted a b = rw (a, b) refl

      wrong :
          (bytes_eq r.path setup_path && is_get r.method) ≡ false
          → (bytes_eq r.path api_path && is_post r.method) ≡ false
          → is_setup_path r.path ≡ true
          → serve_status h r (some st, w) ≡ (not_allowed (method_for r.path), w)
      wrong a b c = rw (a, b, c) refl

      fell :
          (bytes_eq r.path setup_path && is_get r.method) ≡ false
          → (bytes_eq r.path api_path && is_post r.method) ≡ false
          → is_setup_path r.path ≡ false
          → serve_status h r (some st, w) ≡ (fall_through h st, w)
      fell a b c = rw (a, b, c) refl

  -- A request reaches the inner handler only if its path is none of the two of the setup, and if the
  -- redirect is disabled or the configuration was read and no setup is needed.
  pub serve_http_inner :
      (h : Handler) (r : Request) (w : World (List Layer))
      → (serve_http h r w).0 ≡ to_inner
      → (is_setup_path r.path ≡ false)
        × ((h.disable_first_run_redirect ≡ true)
            ⊎ ((st : FirstRunStatus) × ((status encode decode env w).0 ≡ some st)
                × (st.needs_setup ≡ false)))
  unfolding serve_http
  serve_http_inner h r w e = serve_status_inner h r (status encode decode env w) e
