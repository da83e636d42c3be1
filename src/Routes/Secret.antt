-- ===== src/Routes/Secret.antt =====
-- getSecretRefreshable of witchcraft/server_routes.go: where the secret of the diagnostics comes
-- from, which is decided once, from the configuration that Start sees.
use text.Mathlib.Text.{◌==◌ as str_eq}
use text.Mathlib.TextEquality.{eq_iff}
use witchcraft_go_server.Base.{
  Bool, true, not, ◌&&◌, Option, none, some, String, if◌then◌else◌, ◌≡◌, ◌≢◌, refl, arith, ◌∙◌, ap,
}
use witchcraft_go_server.Diagnostics.Resource.{is_admitted}

-- config.DiagnosticsConfig
pub record DiagnosticsConfig : Type 0 where
  pub debug_shared_secret : String
  pub debug_shared_secret_file : String

-- What the refreshable of the secret follows.
pub data SecretSource : Type 0 where
  no_secret from_config : SecretSource
  from_file : String → SecretSource

-- `readable`: whether the file refreshable of a path validates. `none` is an error.
unfoldable pub get_secret_refreshable : (String → Bool) → DiagnosticsConfig → Option SecretSource
get_secret_refreshable readable cfg =
    if str_eq cfg.debug_shared_secret "" && str_eq cfg.debug_shared_secret_file ""
    then some no_secret
    else if not (str_eq cfg.debug_shared_secret "")
    then some from_config
    else if readable cfg.debug_shared_secret_file
    then some (from_file cfg.debug_shared_secret_file)
    else none

-- The current value of the refreshable, when `now` is the configuration and `read` what the files
-- hold.
unfoldable pub current_secret : (String → String) → SecretSource → DiagnosticsConfig → String
current_secret read no_secret now = ""
current_secret read from_config now = now.debug_shared_secret
current_secret read (from_file path) now = read path

-- The secret in force, from the configuration at the start and the one of now.
unfoldable pub in_force : (String → String) → DiagnosticsConfig → DiagnosticsConfig → String
in_force read start now =
    if not (str_eq start.debug_shared_secret "")
    then now.debug_shared_secret
    else if str_eq start.debug_shared_secret_file ""
    then ""
    else read start.debug_shared_secret_file

-- After any reload, the secret in force is: that of the configuration of now, if there was one at
-- the start; else what the file named at the start holds; else none.
pub get_secret_refreshable-in_force :
    (readable : String → Bool) (read : String → String) (start now : DiagnosticsConfig)
    (src : SecretSource)
    → get_secret_refreshable readable start ≡ some src
    → current_secret read src now ≡ in_force read start now
unfolding get_secret_refreshable current_secret in_force
get_secret_refreshable-in_force readable read start now no_secret h = ground arith
get_secret_refreshable-in_force readable read start now from_config h = ground arith
get_secret_refreshable-in_force readable read start now (from_file p) h = ground arith

in_force-moved :
    (read : String → String) (start now : DiagnosticsConfig)
    → start.debug_shared_secret ≢ ""
    → in_force read start now ≡ now.debug_shared_secret
unfolding in_force
in_force-moved read start now h = ground (arith, eq_iff start.debug_shared_secret "")

no_secret-is_admitted :
    (equal : String → String → Bool) (token : Option String) → is_admitted equal "" token ≡ true
unfolding is_admitted
no_secret-is_admitted equal none = refl
no_secret-is_admitted equal (some t) = refl

-- A server that starts with a secret in its configuration admits every request to the diagnostics,
-- with any token or none, once a reload has left the secret empty, even if the reload has moved the
-- secret to a file.
pub reload-is_admitted :
    (readable : String → Bool) (read : String → String) (equal : String → String → Bool)
    (start now : DiagnosticsConfig) (src : SecretSource) (token : Option String)
    → get_secret_refreshable readable start ≡ some src
    → start.debug_shared_secret ≢ ""
    → now.debug_shared_secret ≡ ""
    → is_admitted equal (current_secret read src now) token ≡ true
reload-is_admitted readable read equal start now src token h k e =
    ap (λ secret. is_admitted equal secret token)
      (get_secret_refreshable-in_force readable read start now src h
        ∙ in_force-moved read start now k
        ∙ e)
    ∙ no_secret-is_admitted equal token
