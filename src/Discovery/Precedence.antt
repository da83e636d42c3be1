-- ===== src/Discovery/Precedence.antt =====
-- Which configuration and which parameters a client gets.
use text.Mathlib.Text.{◌==◌ as str_eq}
use witchcraft_go_server.Base.{◌≡◌, Option, none, some, List, [], ◌∷◌, String, if◌then◌else◌}
use witchcraft_go_server.Discovery.{
  ServicesConfig, ServiceDiscovery, get, with_default_config, with_service_config,
}

-- The two calls that inject configuration.
pub data Injection (C : Type 0) : Type 0 where
  default_of : C → Injection C
  service_of : String → C → Injection C

module _ {C : Type 0} (zero : C) (merge : C → C → C) (merge_zero : (a : C) → merge a zero ≡ a) where
  -- All that was injected as default, and for a service, the latest over the earlier.
  abbrev pub all_defaults : List (Injection C) → C
  all_defaults [] = zero
  all_defaults (default_of d ∷ is) = merge d (all_defaults is)
  all_defaults (service_of name cfg ∷ is) = all_defaults is

  abbrev pub all_for : String → List (Injection C) → C
  all_for name [] = zero
  all_for name (default_of d ∷ is) = all_for name is
  all_for name (service_of n cfg ∷ is) =
      let rest = all_for name is in if str_eq n name then merge cfg rest else rest

  abbrev pub extra_default : Option (ServicesConfig C) → C
  extra_default none = zero
  extra_default (some e) = e.default

  abbrev pub extra_for : String → Option (ServicesConfig C) → C
  extra_for name none = zero
  extra_for name (some e) = get zero name e.services

module _ {C : Type 0} (zero : C) (merge : C → C → C) (client_config : ServicesConfig C → String → C)
    (set_name : String → C → C) (merge_zero : (a : C) → merge a zero ≡ a)
    (zero_merge : (n : String) (a : C) → set_name n (merge zero a) ≡ set_name n a)
    (name_kept : (n : String) (a d : C) → set_name n (merge a d) ≡ merge (set_name n a) d)
    (name_ignored : (n : String) (a d : C) → merge a (set_name n d) ≡ merge a d)
    (client_config_merges : (services : ServicesConfig C) (name : String)
      → client_config services name
        ≡ set_name name (merge (get zero name services.services) services.default)) where
  -- The calls, the latest first.
  unfoldable pub injected :
      {P Err : Type 0} → List (Injection C) → ServiceDiscovery C P Err → ServiceDiscovery C P Err
  injected [] s = s
  injected (default_of d ∷ is) s = with_default_config zero merge d (injected is s)
  injected (service_of name cfg ∷ is) s = with_service_config zero merge name cfg (injected is s)
