-- ===== src/Loggers/Levels.antt =====
-- The level of the logging block: UnmarshalYAML of LoggerConfig in config/runtime.go, and the service
-- logger that gets it. YAML is a parameter, and so is strings.ToLower.
use witchcraft_go_server.Base.{
  Bool, Option, none, some, List, [], ◌∷◌, String, ◌≡◌, ◌⊎◌, inl, inr, refl, ap,
}
use witchcraft_go_server.Loggers.Service.{
  Level, Service, ServiceCall, entry, new_level, run_service,
}

pub record LoggerConfig : Type 0 where
  pub level : String

-- UnmarshalYAML: the configuration after the call, and its error; `cfg` is what YAML unmarshals to.
unfoldable pub unmarshal_yaml :
    {Err : Type 0}
    → (String → String)
    → Err ⊎ LoggerConfig
    → LoggerConfig
    → LoggerConfig × Option Err
unmarshal_yaml to_lower (inl e) c = (c, some e)
unmarshal_yaml to_lower (inr cfg) c = (record { level = to_lower cfg.level }, none)

-- A line, or a reload with the logging block of the file, if there is one that unmarshals.
pub data FileCall : Type 0 where
  logged : Level → String → FileCall
  reloaded : Option LoggerConfig → FileCall

module _ (to_lower : String → String) where
  -- The calls on the service logger, with the configurations as they are unmarshalled.
  unfoldable pub service_calls : List FileCall → List ServiceCall
  unfolding unmarshal_yaml
  service_calls [] = []
  service_calls (logged l msg ∷ cs) = entry l msg ∷ service_calls cs
  service_calls (reloaded none ∷ cs) = new_level none ∷ service_calls cs
  service_calls (reloaded (some cfg) ∷ cs) =
      new_level
        (some ((unmarshal_yaml {Err = String} to_lower (inr cfg) (record { level = "" })).0.level))
      ∷ service_calls cs

  -- The same calls with all levels in lower case.
  unfoldable pub in_lower_case : List FileCall → List FileCall
  in_lower_case [] = []
  in_lower_case (logged l msg ∷ cs) = logged l msg ∷ in_lower_case cs
  in_lower_case (reloaded none ∷ cs) = reloaded none ∷ in_lower_case cs
  in_lower_case (reloaded (some cfg) ∷ cs) =
      reloaded (some (record { level = to_lower cfg.level })) ∷ in_lower_case cs

  service_calls-lower :
      (cs : List FileCall)
      → ((s : String) → to_lower (to_lower s) ≡ to_lower s)
      → service_calls (in_lower_case cs) ≡ service_calls cs
  unfolding service_calls in_lower_case
  service_calls-lower [] h = refl
  service_calls-lower (logged l msg ∷ cs) h = ap (λ rs. entry l msg ∷ rs) (service_calls-lower cs h)
  service_calls-lower (reloaded none ∷ cs) h =
      ap (λ rs. new_level none ∷ rs) (service_calls-lower cs h)
  service_calls-lower (reloaded (some cfg) ∷ cs) h =
      rw (h cfg.level)
        (ap (λ rs. new_level (some (to_lower cfg.level)) ∷ rs) (service_calls-lower cs h))

  -- The case of the letters of the configured levels makes no difference to the service log: the
  -- logger has the same level, lines and marks as if every level were written in lower case.
  pub run_service-case :
      (enabled : String → Level → Bool) (cs : List FileCall) (s : Service)
      → ((l : String) → to_lower (to_lower l) ≡ to_lower l)
      → run_service enabled (service_calls (in_lower_case cs)) s
        ≡ run_service enabled (service_calls cs) s
  run_service-case enabled cs s h = ap (λ rs. run_service enabled rs s) (service_calls-lower cs h)
