-- ===== src/Discovery.antt =====
-- The configuration of clients: witchcraft/service_discovery.go. A client's configuration, the
-- merge of two and the client's parameters are those of conjure-go-runtime's httpclient, and are
-- parameters here. An empty list or map of a configuration stands for the nil one too; the merge is
-- a function, so the metric tags that it writes into the map of its first argument are not seen by
-- others that hold that map. The lock makes each operation one step.
pub mod Precedence
mod Tests
use text.Mathlib.Text.{◌==◌ as str_eq}
use Prim.Native.String.{◌++◌ as str_append}
use witchcraft_go_server.Base.{
  Bool, true, false, not, ◌⊎◌, inl, inr, Option, none, some, List, [], ◌∷◌, ◌++◌, String,
  if◌then◌else◌,
}

-- httpclient.ServicesConfig; `none` is the nil map.
pub record ServicesConfig (C : Type 0) : Type 0 where
  pub default : C
  pub services : Option (List (String × C))

-- serviceDiscovery; a function of default parameters fails or gives a service's parameters.
pub record ServiceDiscovery (C P Err : Type 0) : Type 0 where
  pub extra : Option (ServicesConfig C)
  pub default_params : List (String → Err ⊎ List P)
  pub service_params : Option (List (String × List P))
  pub user_agent : String

unfoldable pub lookup : {A : Type 0} → String → List (String × A) → Option A
lookup k [] = none
lookup k ((j, a) ∷ m) = if str_eq j k then some a else lookup k m

-- A write at a key.
unfoldable pub put : {A : Type 0} → String → A → List (String × A) → List (String × A)
put k a [] = (k, a) ∷ []
put k a ((j, b) ∷ m) = if str_eq j k then (j, a) ∷ m else (j, b) ∷ put k a m

-- A read at a key, with the zero value where there is none.
abbrev pub or_zero : {A : Type 0} → A → Option A → A
or_zero zero none = zero
or_zero zero (some a) = a

abbrev pub get : {A : Type 0} → A → String → Option (List (String × A)) → A
get zero k none = zero
get zero k (some m) = or_zero zero (lookup k m)

module _ {C : Type 0} (zero : C) (merge : C → C → C) where
  with_default : C → Option (ServicesConfig C) → ServicesConfig C
  with_default d none = record { default = d; services = none }
  with_default d (some e) = record e { default = merge d e.default }

  unfoldable pub with_default_config :
      {P Err : Type 0} → C → ServiceDiscovery C P Err → ServiceDiscovery C P Err
  unfolding with_default
  with_default_config d s = record s { extra = some (with_default d s.extra) }

  over_existing : C → Option C → C
  over_existing cfg none = cfg
  over_existing cfg (some existing) = merge cfg existing

  in_services : String → C → Option (List (String × C)) → List (String × C)
  unfolding over_existing put
  in_services name cfg none = (name, cfg) ∷ []
  in_services name cfg (some m) = put name (over_existing cfg (lookup name m)) m

  with_service : String → C → Option (ServicesConfig C) → ServicesConfig C
  unfolding in_services
  with_service name cfg none = record { default = zero; services = some ((name, cfg) ∷ []) }
  with_service name cfg (some e) = record e { services = some (in_services name cfg e.services) }

  unfoldable pub with_service_config :
      {P Err : Type 0} → String → C → ServiceDiscovery C P Err → ServiceDiscovery C P Err
  unfolding with_service
  with_service_config name cfg s = record s { extra = some (with_service name cfg s.extra) }

  -- `client_config` is ServicesConfig.ClientConfig, and `set_name` sets the service's name.
  config_with :
      (ServicesConfig C → String → C)
      → (String → C → C)
      → ServicesConfig C
      → String
      → Option (ServicesConfig C)
      → C
  config_with client_config set_name services name none = client_config services name
  config_with client_config set_name services name (some e) = set_name name (
      merge (merge (get zero name e.services) (get zero name services.services))
        (merge e.default services.default))

  unfoldable pub service_config :
      {P Err : Type 0}
      → (ServicesConfig C → String → C)
      → (String → C → C)
      → ServicesConfig C
      → String
      → ServiceDiscovery C P Err
      → C
  unfolding config_with
  service_config client_config set_name services name s =
      config_with client_config set_name services name s.extra

unfoldable pub with_default_params :
    {C P Err : Type 0}
    → (String → Err ⊎ List P)
    → ServiceDiscovery C P Err
    → ServiceDiscovery C P Err
with_default_params f s = record s { default_params = s.default_params ++ (f ∷ []) }

unfoldable pub with_service_params :
    {C P Err : Type 0} → String → List P → ServiceDiscovery C P Err → ServiceDiscovery C P Err
unfolding put
with_service_params name ps s = record s {
  service_params = some (elim s.service_params [
    | none ↦ put name ps []
    | some m ↦ put name (or_zero [] (lookup name m) ++ ps) m
  ]);
}

unfoldable pub with_user_agent :
    {C P Err : Type 0} → String → ServiceDiscovery C P Err → ServiceDiscovery C P Err
with_user_agent agent s = record s { user_agent = agent }

-- The loop over the default parameters, with the filter of the two kinds of client.
abbrev pub followed_by : {P Err : Type 0} → Err ⊎ List P → Err ⊎ List P → Err ⊎ List P
followed_by (inl e) rest = inl e
followed_by (inr ps) (inl e) = inl e
followed_by (inr ps) (inr qs) = inr (ps ++ qs)

unfoldable pub defaults_for :
    {P Err : Type 0} → String → List (String → Err ⊎ List P) → Err ⊎ List P
defaults_for name [] = inr []
defaults_for name (f ∷ fs) = followed_by (f name) (defaults_for name fs)

-- The parameters of NewClient; `user_agent_param` is httpclient.WithUserAgent.
unfoldable pub client_params :
    {C P Err : Type 0} → (String → P) → String → List P → ServiceDiscovery C P Err → Err ⊎ List P
unfolding defaults_for
client_params user_agent_param name additional s =
    followed_by (inr (user_agent_param s.user_agent ∷ [])) (
      followed_by (defaults_for name s.default_params)
        (inr (get [] name s.service_params ++ additional)))

-- userAgent, from the product's name and version.
unfoldable pub default_user_agent : String → String → String
default_user_agent name version =
    if str_eq name ""
    then "witchcraft-go-server"
    else (if str_eq version "" then name else str_append name (str_append "/" version))

-- filterHTTPParams, given which parameters are also those of an HTTP client, and the parameters of
-- NewHTTPClient.
filter_http_params : {P H : Type 0} → (P → Option H) → List P → List H
filter_http_params as_http [] = []
filter_http_params as_http (p ∷ ps) =
    let rest = filter_http_params as_http ps in elim (as_http p) [ none ↦ rest | some h ↦ h ∷ rest ]

abbrev map_error : {P H Err : Type 0} → (List P → List H) → Err ⊎ List P → Err ⊎ List H
map_error f (inl e) = inl e
map_error f (inr ps) = inr (f ps)

http_defaults_for :
    {P H Err : Type 0} → (P → Option H) → String → List (String → Err ⊎ List P) → Err ⊎ List H
unfolding filter_http_params
http_defaults_for as_http name [] = inr []
http_defaults_for as_http name (f ∷ fs) =
    followed_by (map_error (filter_http_params as_http) (f name))
      (http_defaults_for as_http name fs)

unfoldable pub http_client_params :
    {C P H Err : Type 0}
    → (P → Option H)
    → (String → H)
    → String
    → List H
    → ServiceDiscovery C P Err
    → Err ⊎ List H
unfolding http_defaults_for filter_http_params
http_client_params as_http user_agent_param name additional s =
    followed_by (inr (user_agent_param s.user_agent ∷ [])) (
      followed_by (http_defaults_for as_http name s.default_params)
        (inr (filter_http_params as_http (get [] name s.service_params) ++ additional)))
