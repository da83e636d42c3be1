-- ===== src/Config/Runtime/Reloads.antt =====
-- The configuration over the life of the server: its start and any reloads.
-- refreshable.MapValidated is an interface.
use witchcraft_go_server.Base.{
  ◌≡◌, ◌∙◌, refl, ap, Bool, true, false, ◌&&◌, ◌⊎◌, inl, inr, Option, none, some, List, [], ◌∷◌,
  if◌then◌else◌, map_option,
}
use witchcraft_go_server.Config.Runtime.{
  ValidationOptions, LoadError, unmarshal_failed, validation_failed, Action, Loader, load_config,
  unmarshalled, validated, handle_validation_error, unmarshal_fn, invalid,
}

-- A validated refreshable that a function is mapped over: it starts with the function's first
-- result, holds the last value without an error, and the error of the last call.
pub record Validated (R E V : Type 0) : Type 0 where
  pub start : R → V
  pub current : V → R
  pub validation : V → Option E
  pub update : E ⊎ R → V → V
  pub current-start : (r : R) → current (start r) ≡ r
  pub validation-start : (r : R) → validation (start r) ≡ none
  pub current-update_error : (e : E) (v : V) → current (update (inl e) v) ≡ current v
  pub validation-update_error : (e : E) (v : V) → validation (update (inl e) v) ≡ some e
  pub current-update : (r : R) (v : V) → current (update (inr r) v) ≡ r
  pub validation-update : (r : R) (v : V) → validation (update (inr r) v) ≡ none

-- What a reload, or with `true` the start, makes of a configuration that does not validate.
abbrev pub refuses : Bool → Option ValidationOptions → Bool
refuses is_startup none = true
refuses true (some o) = o.fail_startup_on_error
refuses false (some o) = o.reject_invalid_reload

module _ {Bytes R Err V : Type 0} (ops : Validated R (LoadError Err) V)
    (decrypt : Bytes → Bytes × Bool) (unmarshal unmarshal_strict : Bytes → Err ⊎ R)
    (validator : Option (R → Option Err)) (opts : Option ValidationOptions) where
  -- MapValidated at the start: none is the error.
  unfoldable pub started : (LoadError Err ⊎ R) × List Action × Loader Err → Option (V × Loader Err)
  started (inl e, acts, l) = none
  started (inr cfg, acts, l) = some (ops.start cfg, l)

  unfoldable pub start_config : Bytes → Option (V × Loader Err)
  unfolding started
  start_config bytes = started (
      load_config decrypt unmarshal unmarshal_strict validator opts bytes
        (record { is_startup = true; last_error = none }))

  unfoldable pub reload : Bytes → V × Loader Err → V × Loader Err
  reload bytes (v, l) =
      let (r, acts, l') = load_config decrypt unmarshal unmarshal_strict validator opts bytes l in
      (ops.update r v, l')

  unfoldable pub reloads : List Bytes → V × Loader Err → V × Loader Err
  unfolding reload
  reloads [] s = s
  reloads (b ∷ bs) s = reloads bs (reload b s)

  -- What the bytes say: an error, or a configuration.
  abbrev pub parsed : Bytes → Err ⊎ R
  parsed bytes = unmarshal_fn decrypt unmarshal unmarshal_strict validator opts (decrypt bytes).0

  abbrev pub problem : R → Option Err
  problem = invalid decrypt unmarshal unmarshal_strict validator opts

  -- The configuration that bytes bring, or the error that refuses them.
  abbrev pub judged : Bool → R → Option Err → LoadError Err ⊎ R
  judged is_startup cfg none = inr cfg
  judged is_startup cfg (some e) =
      if refuses is_startup opts then inl (validation_failed e) else inr cfg

  abbrev pub verdict_of : Bool → Err ⊎ R → LoadError Err ⊎ R
  verdict_of is_startup (inl e) = inl (unmarshal_failed e)
  verdict_of is_startup (inr cfg) = judged is_startup cfg (problem cfg)

  abbrev pub verdict : Bool → Bytes → LoadError Err ⊎ R
  verdict is_startup bytes = verdict_of is_startup (parsed bytes)

  -- What Validate found in the last configuration that could be read.
  abbrev pub finding : Option (LoadError Err) → Err ⊎ R → Option (LoadError Err)
  finding d (inl e) = d
  finding d (inr cfg) = map_option validation_failed (problem cfg)

  abbrev pub kept : R → LoadError Err ⊎ R → R
  kept d (inl e) = d
  kept d (inr cfg) = cfg

  abbrev pub refusal : LoadError Err ⊎ R → Option (LoadError Err)
  refusal (inl e) = some e
  refusal (inr cfg) = none

  abbrev pub last_accepted : R → List Bytes → R
  last_accepted d [] = d
  last_accepted d (b ∷ bs) = last_accepted (kept d (verdict false b)) bs

  abbrev pub last_refusal : Option (LoadError Err) → List Bytes → Option (LoadError Err)
  last_refusal d [] = d
  last_refusal d (b ∷ bs) = last_refusal (refusal (verdict false b)) bs

  abbrev pub last_finding : Option (LoadError Err) → List Bytes → Option (LoadError Err)
  last_finding d [] = d
  last_finding d (b ∷ bs) = last_finding (finding d (parsed b)) bs

  -- The result of a call of the mapped function, and the loader after it.
  Judged :
      Bool
      → Err ⊎ R
      → Option (LoadError Err)
      → (LoadError Err ⊎ R) × List Action × Loader Err
      → Type 0
  Judged is_startup p d (r, acts, l) =
      (r ≡ verdict_of is_startup p) × (l.is_startup ≡ false) × (l.last_error ≡ finding d p)

  handle-refuses :
      (is_startup : Bool) (o : Option ValidationOptions) (cfg : R) (e : LoadError Err)
      → (handle_validation_error decrypt unmarshal unmarshal_strict validator o cfg e is_startup).0
        ≡ (if refuses is_startup o then inl e else inr cfg)
  unfolding handle_validation_error
  handle-refuses is_startup none cfg e = refl
  handle-refuses true (some o) cfg e = by_flag o.fail_startup_on_error
    where
      by_flag :
          (b : Bool)
          → (if true && b then inl e else (if false then inl e else inr cfg))
            ≡ (if b then inl e else inr cfg)
      by_flag true = refl
      by_flag false = refl
  handle-refuses false (some o) cfg e = refl

  validated-Judged :
      (is_startup : Bool) (cfg : R) (d : Option (LoadError Err)) (e : Option Err)
      → problem cfg ≡ e
      → Judged is_startup (inr cfg) d (
          validated decrypt unmarshal unmarshal_strict validator opts is_startup cfg e
            (record { is_startup = false; last_error = d }))
  unfolding validated Judged handle_validation_error
  validated-Judged is_startup cfg d none h = rw h (refl, refl, refl)
  validated-Judged is_startup cfg d (some e) h =
      rw h ((handle-refuses is_startup opts cfg (validation_failed e), refl, refl))

  unmarshalled-Judged :
      (is_startup : Bool) (p : Err ⊎ R) (d : Option (LoadError Err))
      → Judged is_startup p d (
          unmarshalled decrypt unmarshal unmarshal_strict validator opts is_startup p
            (record { is_startup = false; last_error = d }))
  unfolding unmarshalled Judged
  unmarshalled-Judged is_startup (inl e) d = (refl, refl, refl)
  unmarshalled-Judged is_startup (inr cfg) d = validated-Judged is_startup cfg d (problem cfg) refl

  load_config-Judged :
      (bytes : Bytes) (l : Loader Err)
      → Judged l.is_startup
          (parsed bytes)
          l.last_error
          (load_config decrypt unmarshal unmarshal_strict validator opts bytes l)
  unfolding load_config Judged
  load_config-Judged bytes l = unmarshalled-Judged l.is_startup (parsed bytes) l.last_error

  current-kept :
      (r : LoadError Err ⊎ R) (v : V) → ops.current (ops.update r v) ≡ kept (ops.current v) r
  current-kept (inl e) v = ops.current-update_error e v
  current-kept (inr cfg) v = ops.current-update cfg v

  validation-refusal : (r : LoadError Err ⊎ R) (v : V) → ops.validation (ops.update r v) ≡ refusal r
  validation-refusal (inl e) v = ops.validation-update_error e v
  validation-refusal (inr cfg) v = ops.validation-update cfg v

  reload-verdict :
      (b : Bytes) (v : V) (l : Loader Err)
      → l.is_startup ≡ false
      → let (v1, l1) = reload b (v, l) in
        (ops.current v1 ≡ kept (ops.current v) (verdict false b))
        × (ops.validation v1 ≡ refusal (verdict false b))
        × (l1.is_startup ≡ false)
        × (l1.last_error ≡ finding l.last_error (parsed b))
  unfolding reload Judged
  reload-verdict b v l h =
      let (r, s, f) = load_config-Judged b l in
      let p = r ∙ ap (λ u. verdict_of u (parsed b)) h in
      (
        ap (λ q. ops.current (ops.update q v)) p ∙ current-kept (verdict false b) v,
        ap (λ q. ops.validation (ops.update q v)) p ∙ validation-refusal (verdict false b) v,
        s,
        f,
      )

  -- The state after the start, from the verdict and the finding.
  abbrev pub begun : LoadError Err ⊎ R → Option (LoadError Err) → Option (V × Loader Err)
  begun (inl e) d = none
  begun (inr cfg) d = some (ops.start cfg, record { is_startup = false; last_error = d })

  started-begun :
      (q : LoadError Err ⊎ R) (acts : List Action) (l : Loader Err) (d : Option (LoadError Err))
      → l.is_startup ≡ false
      → l.last_error ≡ d
      → started (q, acts, l) ≡ begun q d
  unfolding started
  started-begun (inl e) acts l d s f = refl
  started-begun (inr cfg) acts l d s f =
      ap (λ b. some (ops.start cfg, record { is_startup = b; last_error = l.last_error })) s
      ∙ ap (λ m. some (ops.start cfg, record { is_startup = false; last_error = m })) f

  -- The server starts with a configuration exactly when its bytes can be read and it validates or
  -- need not; what Validate found in it is remembered for the check of the validation.
  pub start_config-verdict :
      (bytes : Bytes)
      → start_config bytes ≡ begun (verdict true bytes) (finding none (parsed bytes))
  unfolding start_config Judged
  start_config-verdict bytes =
      let l : Loader Err = record { is_startup = true; last_error = none } in
      let t = load_config decrypt unmarshal unmarshal_strict validator opts bytes l in
      let (r, s, f) = load_config-Judged bytes l in
      ap (λ q. started (q, t.1, t.2)) r
      ∙ started-begun (verdict true bytes) t.1 t.2 (finding none (parsed bytes)) s f

  -- Over any reloads, from a state in which the server has started: the current configuration is
  -- the last one that was accepted, or the first; the check of reloads has the error of the last
  -- reload, if that was refused; and the check of the validation has what Validate found in the
  -- last bytes that could be read, refused or not.
  pub reloads-verdicts :
      (bs : List Bytes) (v : V) (l : Loader Err)
      → l.is_startup ≡ false
      → let (v', l') = reloads bs (v, l) in
        (ops.current v' ≡ last_accepted (ops.current v) bs)
        × (ops.validation v' ≡ last_refusal (ops.validation v) bs)
        × (l'.last_error ≡ last_finding l.last_error bs)
  unfolding reloads
  reloads-verdicts [] v l h = (refl, refl, refl)
  reloads-verdicts (b ∷ bs) v l h =
      let (v1, l1) = reload b (v, l) in
      let (c, n, s, f) = reload-verdict b v l h in
      let (cs, ns, fs) = reloads-verdicts bs v1 l1 s in
      (
        cs ∙ ap (λ d. last_accepted d bs) c,
        ns ∙ ap (λ d. last_refusal d bs) n,
        fs ∙ ap (λ d. last_finding d bs) f,
      )
