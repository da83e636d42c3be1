-- ===== src/Health.antt =====
-- The health data that the components exchange: the states, results and statuses of
-- witchcraft-go-health, a vendored library, as far as the code names them.
use witchcraft_go_server.Base.{ℕ, Bool, List, String, ◌==◌}

pub data HealthState : Type 0 where
  healthy deferring suspended repairing warning error terminal : HealthState

abbrev pub severity : HealthState → ℕ
severity healthy = 0
severity deferring = 1
severity suspended = 2
severity repairing = 3
severity warning = 4
severity error = 5
severity terminal = 6

abbrev pub same_health : HealthState → HealthState → Bool
same_health a b = severity a == severity b

-- A map from check types to what a check reports, as an association list.
abbrev pub Checks : Type 0 → Type 0
Checks A = List (String × A)
