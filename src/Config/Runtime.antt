-- ===== src/Config/Runtime.antt =====
-- The runtime configuration: the function that initRuntimeConfig maps over the bytes, with
-- handleRuntimeValidationError, and the two checks that report on it.
pub mod Reloads
pub mod Source
use witchcraft_go_server.Base.{
  ℕ, Bool, true, false, not, ◌&&◌, ◌⊎◌, inl, inr, Option, none, some, List, [], ◌∷◌, ◌++◌, String,
  if◌then◌else◌,
}
use witchcraft_go_server.Health.{HealthState, healthy, error}

-- RuntimeConfigValidationOptions
pub record ValidationOptions : Type 0 where
  pub strict_unmarshaling : Bool
  pub log_on_failure : Bool
  pub metric_on_failure : Bool
  pub health_check_on_failure : Option HealthState
  pub fail_startup_on_error : Bool
  pub reject_invalid_reload : Bool

pub data LoadError (Err : Type 0) : Type 0 where
  unmarshal_failed validation_failed : Err → LoadError Err

pub data Action : Type 0 where
  warn_decrypt warn_validation count_failure : Action

-- isStartup and lastValidationErr
pub record Loader (Err : Type 0) : Type 0 where
  pub is_startup : Bool
  pub last_error : Option (LoadError Err)

-- The encrypted values of the bytes: `provider` is what the provider of the key loads, if there is
-- one.
pub data DecryptError (Err : Type 0) : Type 0 where
  no_provider no_key : DecryptError Err
  key_failed decrypt_failed : Err → DecryptError Err

module _ {Bytes Key Err : Type 0} (contains_encrypted : Bytes → Bool)
    (decrypt_nodes : Key → Bytes → Err ⊎ Bytes) where
  with_nodes : Bytes → Err ⊎ Bytes → Bytes × Option (DecryptError Err)
  with_nodes bytes (inl e) = (bytes, some (decrypt_failed e))
  with_nodes bytes (inr plain) = (plain, none)

  with_key : Bytes → Err ⊎ Option Key → Bytes × Option (DecryptError Err)
  unfolding with_nodes
  with_key bytes (inl e) = (bytes, some (key_failed e))
  with_key bytes (inr none) = (bytes, some no_key)
  with_key bytes (inr (some key)) = with_nodes bytes (decrypt_nodes key bytes)

  unfoldable pub decrypt_config_bytes :
      Option (Err ⊎ Option Key) → Bytes → Bytes × Option (DecryptError Err)
  unfolding with_key
  decrypt_config_bytes none bytes =
      if not (contains_encrypted bytes) then (bytes, none) else (bytes, some no_provider)
  decrypt_config_bytes (some loaded) bytes =
      if not (contains_encrypted bytes) then (bytes, none) else with_key bytes loaded

-- The bytes' decryption with its error, the two ways to unmarshal, and the configuration's
-- Validate, if it has one.
module _ {Bytes R Err : Type 0} (decrypt : Bytes → Bytes × Bool)
    (unmarshal unmarshal_strict : Bytes → Err ⊎ R) (validator : Option (R → Option Err)) where
  abbrev pub unmarshal_fn : Option ValidationOptions → Bytes → Err ⊎ R
  unmarshal_fn none bytes = unmarshal bytes
  unmarshal_fn (some o) bytes =
      if o.strict_unmarshaling then unmarshal_strict bytes else unmarshal bytes

  -- What Validate finds, if validation is enabled.
  abbrev pub invalid : Option ValidationOptions → R → Option Err
  invalid none cfg = none
  invalid (some o) cfg = elim validator [ none ↦ none | some validate ↦ validate cfg ]

  -- handleRuntimeValidationError
  unfoldable pub handle_validation_error :
      Option ValidationOptions → R → LoadError Err → Bool → (LoadError Err ⊎ R) × List Action
  handle_validation_error none cfg e is_startup = (inl e, [])
  handle_validation_error (some o) cfg e is_startup = (
    (if is_startup && o.fail_startup_on_error
        then inl e
        else (if not is_startup && o.reject_invalid_reload then inl e else inr cfg)),
    (if o.log_on_failure then warn_validation ∷ [] else [])
        ++ (if o.metric_on_failure then count_failure ∷ [] else []),
  )

  validated :
      Option ValidationOptions
      → Bool
      → R
      → Option Err
      → Loader Err
      → (LoadError Err ⊎ R) × List Action × Loader Err
  unfolding handle_validation_error
  validated opts is_startup cfg none l = (inr cfg, [], record l { last_error = none })
  validated opts is_startup cfg (some e) l =
      let (r, acts) = handle_validation_error opts cfg (validation_failed e) is_startup in
      (r, acts, record l { last_error = some (validation_failed e) })

  unmarshalled :
      Option ValidationOptions
      → Bool
      → Err ⊎ R
      → Loader Err
      → (LoadError Err ⊎ R) × List Action × Loader Err
  unfolding validated
  unmarshalled opts is_startup (inl e) l = (inl (unmarshal_failed e), [], l)
  unmarshalled opts is_startup (inr cfg) l = validated opts is_startup cfg (invalid opts cfg) l

  -- The function that is mapped over the bytes.
  unfoldable pub load_config :
      Option ValidationOptions → Bytes → Loader Err → (LoadError Err ⊎ R) × List Action × Loader Err
  unfolding unmarshalled
  load_config opts bytes l =
      let (plain, failed) = decrypt bytes in
      let (r, acts, l') =
        unmarshalled opts l.is_startup (unmarshal_fn opts plain)
          (record l { is_startup = false }) in
      (r, (if failed then warn_decrypt ∷ [] else []) ++ acts, l')

-- The state that configValidationHealthCheckSource reports.
abbrev pub validation_state : {Err : Type 0} → HealthState → Loader Err → HealthState
validation_state s l = elim l.last_error [ none ↦ healthy | some e ↦ s ]

-- validatingRefreshableHealthCheckSource: the state and the errors in its parameters.
unfoldable pub reload_errors : {Err : Type 0} → List (Option Err) → List Err
reload_errors [] = []
reload_errors (none ∷ vs) = reload_errors vs
reload_errors (some e ∷ vs) = e ∷ reload_errors vs

unfoldable pub reload_status : {Err : Type 0} → List (Option Err) → HealthState × List Err
unfolding reload_errors
reload_status vs = elim (reload_errors vs) [ [] ↦ (healthy, []) | e ∷ es ↦ (error, e ∷ es) ]
