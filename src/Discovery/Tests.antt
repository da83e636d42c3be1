-- ===== src/Discovery/Tests.antt =====
-- A client's configuration at concrete injections; a configuration is a name and one field that may
-- be set.
use witchcraft_go_server.Base.{ℕ, ◌≡◌, refl, Option, none, some, List, [], ◌∷◌, String, inr}
use witchcraft_go_server.Discovery.{
  ServicesConfig, ServiceDiscovery, get, client_params, with_default_params, with_service_params,
  lookup, defaults_for, put,
}
use witchcraft_go_server.Discovery.Precedence.{Injection, default_of, service_of}

-- A client's configuration: its name, which a merge does not affect, and one field.
abbrev Config : Type 0
Config = String × Option ℕ

abbrev zero_config : Config
zero_config = ("", none)

abbrev preferred : Option ℕ → Option ℕ → Option ℕ
preferred none d = d
preferred (some a) d = some a

abbrev merge : Config → Config → Config
merge (n, a) (m, d) = (n, preferred a d)

abbrev named : String → Config → Config
named name (n, c) = (name, c)

abbrev client_config : ServicesConfig Config → String → Config
client_config services name =
    named name (merge (get zero_config name services.services) services.default)

abbrev empty_discovery : ServiceDiscovery Config ℕ ℕ
empty_discovery = record {
  extra = none;
  default_params = [];
  service_params = none;
  user_agent = "agent";
}

abbrev runtime : ServicesConfig Config
runtime = record { default = ("any", some 1); services = some (("users", ("", none)) ∷ []) }

abbrev injections : List (Injection Config)
injections =
    service_of "items" ("i", some 3)
    ∷ default_of ("d", some 2)
    ∷ service_of "users" ("u", none)
    ∷ []

-- The user agent, the default parameters, the service's, and those of the call, in this order.
in_order :
    client_params
      (λ a. 0)
      "users"
      (9 ∷ [])
      (with_service_params "users" (5 ∷ []) (
        with_default_params
          (λ n. inr (2 ∷ []))
          (with_default_params (λ n. inr (1 ∷ [])) empty_discovery)))
    ≡ inr (0 ∷ 1 ∷ 2 ∷ 5 ∷ 9 ∷ [])
unfolding client_params with_service_params with_default_params lookup put defaults_for
in_order = refl
