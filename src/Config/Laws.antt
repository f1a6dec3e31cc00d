-- ===== src/Config/Laws.antt =====
-- internal/config/firstrun.go: what is written is what is read, and a complete bundle ends the setup.
use curio_core.Config.{
  status_of, status_of_bundle, missing_fields, with_field, default_layer_name, is_empty, lower_text,
  status, write_body, field_of, write_field, set_in, write_default_layer, upsert_default_layer,
  set_field, World, read_default_layer, Field, decode_bundle, is_blank, put_config, Env, Layer,
  PdpSection, read_config,
}
use curio_core.Base.{
  ◌∙◌, trim_space, bytes_eq, Bool-cases, ◌∷◌, ◌≡◌, Bytes, Option, List, suc, arith, ap, inr, inl,
  false, true, some, none, refl, [],
}

read-put_config : (body : Bytes) (ls : List Layer) → read_config (put_config body ls) ≡ some body
read-put_config body [] = refl
read-put_config body (l ∷ ls) = elim (Bool-cases (bytes_eq l.title default_layer_name)) [
  | inl e ↦ rw (e, e) refl
  | inr e ↦ rw (e, e) (read-put_config body ls)
]

-- the codec reads what it writes, and writes no blank text
module _ (encode : PdpSection → Option Bytes) (decode : Bytes → Option PdpSection) (env : Env)
    (reads_back : (cfg : PdpSection) (body : Bytes)
      → encode cfg ≡ some body
      → decode body ≡ some cfg)
    (shows : (cfg : PdpSection) (body : Bytes)
      → encode cfg ≡ some body
      → is_blank body ≡ false) where
  decode_bundle-body :
      (cfg : PdpSection) (body : Bytes)
      → encode cfg ≡ some body
      → decode_bundle encode decode env body ≡ some cfg
  unfolding decode_bundle
  decode_bundle-body cfg body e = rw (shows cfg body e) (reads_back cfg body e)

  write_body-stored :
      (o : Option Bytes) (w : World (List Layer))
      → (write_body encode decode env o w).0 ≡ true
      → (body : Bytes) × (o ≡ some body)
        × ((write_body encode decode env o w).1
            ≡ record { store = put_config body w.store; calls = suc w.calls })
  write_body-stored none w h = absurd (ground (arith, h))
  write_body-stored (some body) w h = elim (Bool-cases (env.fault w.calls)) [
    | inl f ↦ absurd (ground (arith, f, h))
    | inr f ↦ (body, refl, rw f refl)
  ]

  read_stored :
      (cfg : PdpSection) (body : Bytes) (w w' : World (List Layer))
      → encode cfg ≡ some body
      → w' ≡ record { store = put_config body w.store; calls = suc w.calls }
      → env.fault (suc w.calls) ≡ false
      → (read_default_layer encode decode env w').0 ≡ some cfg
  unfolding read_default_layer
  read_stored cfg body w w' e same f =
      rw (same, f, read-put_config body w.store) (decode_bundle-body cfg body e)

  pub write_then_read :
      (cfg : PdpSection) (w : World (List Layer))
      → (write_default_layer encode decode env cfg w).0 ≡ true
      → env.fault (suc w.calls) ≡ false
      → (read_default_layer encode decode env (write_default_layer encode decode env cfg w).1).0
        ≡ some cfg
  unfolding write_default_layer
  write_then_read cfg w h f =
      let (body, e, same) = write_body-stored (encode cfg) w h in
      read_stored cfg body w (write_body encode decode env (encode cfg) w).1 e same f

  is_empty-nothing : (fs : List Field) → is_empty fs ≡ true → fs ≡ []
  is_empty-nothing [] h = refl
  is_empty-nothing (f ∷ fs) h = absurd (ground (arith, h))

  status_stored :
      (cfg : PdpSection) (body : Bytes) (w w' : World (List Layer))
      → encode cfg ≡ some body
      → w' ≡ record { store = put_config body w.store; calls = suc w.calls }
      → env.fault (suc w.calls) ≡ false
      → missing_fields cfg ≡ []
      → (status encode decode env w').0 ≡ some (record { needs_setup = false; missing = [] })
  unfolding status
  status_stored cfg body w w' e same f m =
      rw (same, f, read-put_config body w.store)
        (ap (status_of_bundle encode decode env) (decode_bundle-body cfg body e)
          ∙ ap (λ fs. some (status_of fs)) m)

  -- Where an upsert returns no error, the next status that can read says that no setup is needed.
  pub upsert_then_status :
      (cfg : PdpSection) (w : World (List Layer))
      → (upsert_default_layer encode decode env cfg w).0 ≡ true
      → env.fault (suc w.calls) ≡ false
      → (status encode decode env (upsert_default_layer encode decode env cfg w).1).0
        ≡ some (record { needs_setup = false; missing = [] })
  unfolding upsert_default_layer
  upsert_then_status cfg w h f = elim (Bool-cases (is_empty (missing_fields cfg))) [
    | inl k ↦
        let wrote : (write_body encode decode env (encode cfg) w).0 ≡ true = ground (arith, k, h) in
        let (body, e, same) = write_body-stored (encode cfg) w wrote in
        rw k (
          status_stored cfg body w (write_body encode decode env (encode cfg) w).1 e same f
            (is_empty-nothing (missing_fields cfg) k))
    | inr k ↦ absurd (ground (arith, k, h))
  ]

  write_field_reads :
      (o : Option Field) (value : Bytes) (cfg : PdpSection) (w : World (List Layer))
      → (write_field encode decode env o value cfg w).0 ≡ true
      → env.fault (suc w.calls) ≡ false
      → (f : Field) × (o ≡ some f)
        × ((read_default_layer encode decode env (write_field encode decode env o value cfg w).1).0
            ≡ some (with_field f value cfg))
  write_field_reads none value cfg w h f = absurd (ground (arith, h))
  write_field_reads (some field) value cfg w h f =
      (field, refl, write_then_read (with_field field value cfg) w h f)

  set_in_reads :
      (field value : Bytes) (cfg : PdpSection) (r : Option PdpSection × World (List Layer))
      → r.0 ≡ some cfg
      → (set_in encode decode env field value r).0 ≡ true
      → env.fault (suc r.1.calls) ≡ false
      → (f : Field) × (field_of (lower_text (trim_space field)) ≡ some f)
        × ((read_default_layer encode decode env (set_in encode decode env field value r).1).0
            ≡ some (with_field f (trim_space value) cfg))
  set_in_reads field value cfg (none, w) e h f = absurd (ground (arith, e))
  set_in_reads field value cfg (some old, w) e h f =
      let (k, named, read) =
        write_field_reads (field_of (lower_text (trim_space field))) (trim_space value) old w h f in
      let same : old ≡ cfg = ground (arith, e) in
      (k, named, read ∙ ap (λ c. some (with_field k (trim_space value) c)) same)

  read_calls :
      (w : World (List Layer)) → (read_default_layer encode decode env w).1.calls ≡ suc w.calls
  unfolding read_default_layer
  read_calls w = elim (Bool-cases (env.fault w.calls)) [ inl f ↦ rw f refl | inr f ↦ rw f refl ]

  -- Where a field is set without an error, its name is a known one, and the bundle that is read next is
  -- the one before, with this field as it was given but for white space.
  pub set_field_then_read :
      (field value : Bytes) (cfg : PdpSection) (w : World (List Layer))
      → (read_default_layer encode decode env w).0 ≡ some cfg
      → (set_field encode decode env field value w).0 ≡ true
      → env.fault (suc (suc w.calls)) ≡ false
      → (f : Field) × (field_of (lower_text (trim_space field)) ≡ some f)
        × ((read_default_layer encode decode env (set_field encode decode env field value w).1).0
            ≡ some (with_field f (trim_space value) cfg))
  unfolding set_field
  set_field_then_read field value cfg w e h f =
      set_in_reads field value cfg (read_default_layer encode decode env w) e h
        (ap (λ n. env.fault (suc n)) (read_calls w) ∙ f)
