-- ===== src/DependencyHealth/Check.antt =====
-- The report of healthcheck.go: HealthStatus over what the hosts of all services answer.
pub mod Meaning
use witchcraft_go_server.Base.{
  ℕ, Bool, true, false, not, ◌&&◌, Option, none, some, List, [], ◌∷◌, ◌++◌, ◌==◌, String, length,
  sort, if◌then◌else◌,
}
use witchcraft_go_server.Health.{HealthState, healthy, warning}
use witchcraft_go_server.DependencyHealth.Hosts.{Services}

-- The three texts of the message.
pub data Message : Type 0 where
  all_healthy service_failed service_impaired : Message

-- What a HostStatus answers to IsActive and IsHealthy.
pub record HostView : Type 0 where
  pub active : Bool
  pub well : Bool

pub record CheckResult : Type 0 where
  pub state : HealthState
  pub message : Message
  pub params : List (String × List String)

-- The loop of collectServiceStatus: the healthy and the unhealthy hosts among the active ones.
collect_hosts : List (String × HostView) → List String → List String → List String × List String
collect_hosts [] up down = (up, down)
collect_hosts ((host, v) ∷ hosts) up down =
    collect_hosts hosts (if v.active && v.well then up ++ (host ∷ []) else up)
      (if v.active && not v.well then down ++ (host ∷ []) else down)

unfoldable pub collect_service_status : List (String × HostView) → List String × List String
unfolding collect_hosts
collect_service_status hosts = let (up, down) = collect_hosts hosts [] [] in (sort up, sort down)

-- The variables of the loop of HealthStatus.
pub record Acc : Type 0 where
  pub message : Message
  pub params : List (String × List String)
  pub contains_unhealthy : Bool

abbrev is_empty : List String → Bool
is_empty [] = true
is_empty (s ∷ ss) = false

-- One round of the loop, given the healthy and the unhealthy hosts of a service.
note_service : String → List String × List String → Acc → Acc
note_service service (up, down) a = if is_empty down then a else record {
  message = service_impaired;
  params = a.params ++ ((service, down) ∷ []);
  contains_unhealthy = if is_empty up then true else a.contains_unhealthy;
}

note_services : Services HostView → Acc → Acc
unfolding note_service collect_service_status
note_services [] a = a
note_services ((service, hosts) ∷ ss) a =
    note_services ss (note_service service (collect_service_status hosts) a)

finish : Acc → CheckResult
finish a =
    if a.contains_unhealthy
    then record { state = warning; message = service_failed; params = a.params }
    else record { state = healthy; message = a.message; params = a.params }

-- `none` is the empty status, without the check.
unfoldable pub health_status : Services HostView → Option CheckResult
unfolding note_services finish
health_status [] = none
health_status (s ∷ ss) = some (
    finish (
      note_services (s ∷ ss)
        (record { message = all_healthy; params = []; contains_unhealthy = false })))
