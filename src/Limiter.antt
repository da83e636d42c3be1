-- ===== src/Limiter.antt =====
-- The limit on requests in flight: witchcraft/ratelimit/middleware.go. Each atomic action of a
-- request that passes through `ServeHTTP` is one step, so any number of requests interleave.
pub mod Runs
pub mod Bound
pub mod Recovery
pub mod Methods
mod Tests
use witchcraft_go_server.Base.{
  ℕ, ◌+◌, ◌-◌, Bool, true, false, not, Option, none, some, ltb, leb, if◌then◌else◌,
}
use witchcraft_go_server.Base.Int.{ℤ, pos_part}
use witchcraft_go_server.Health.{HealthState, healthy, repairing, same_health}

-- `max_in_flight` is the current value of the refreshable limit. `health` is the health component,
-- if there is one, with the state that it reports. `current` is an int64 that starts at 0; that a
-- decrement never meets 0 is `Bound.current_exact`.
pub record Limiter : Type 0 where
  pub max_in_flight : ℤ
  pub health : Option HealthState
  pub current : ℕ

-- NewInFlightRequestLimitMiddleware
abbrev pub new_limiter : ℤ → Bool → Limiter
new_limiter n has_health = record {
  max_in_flight = n;
  health = if has_health then some healthy else none;
  current = 0;
}

-- max(l.Limit.Current(), 0)
abbrev pub limit : Limiter → ℕ
limit l = pos_part l.max_in_flight

-- Where a request stands. The number is what the request's own atomic add returned.
pub data Pc : Type 0 where
  arrived : Bool → Pc  -- whether the limiter matches the request
  counted : ℕ → Pc  -- increment, at the test of the limit
  throttling : Pc  -- increment, at the read of the health state
  reporting : Pc  -- increment, at SetHealth
  rejected : Pc  -- about to answer 429
  passed : Pc  -- in `next`, not matched
  running : Pc  -- in `next`, counted
  leaving : Bool → Pc  -- at the deferred decrement; whether it was throttled
  left : Bool → ℕ → Pc  -- decrement, at the test of the limit
  checking : Bool → Pc  -- decrement, at the read of the health state
  recovering : Bool → Pc  -- decrement, at Healthy
  answered : Bool → Pc  -- returned; whether with 429

abbrev pub reports : Option HealthState → HealthState → Bool
reports none h = true
reports (some g) h = same_health g h

abbrev pub set_health : Option HealthState → HealthState → Option HealthState
set_health none h = none
set_health (some g) h = some h

-- One atomic action of a request. `none` is a request that has been answered.
unfoldable pub request_step : Pc → Limiter → Option (Pc × Limiter)
request_step (arrived false) l = some (passed, l)
request_step (arrived true) l = some (counted (l.current + 1), record l { current = l.current + 1 })
request_step (counted c) l = some (if leb c (limit l) then running else throttling, l)
request_step throttling l = some (if reports l.health repairing then rejected else reporting, l)
request_step reporting l = some (rejected, record l { health = set_health l.health repairing })
request_step rejected l = some (leaving true, l)
request_step passed l = some (answered false, l)
request_step running l = some (leaving false, l)
request_step (leaving t) l = some (left t (l.current - 1), record l { current = l.current - 1 })
request_step (left t c) l = some (if ltb c (limit l) then checking t else answered t, l)
request_step (checking t) l =
    some (if reports l.health healthy then answered t else recovering t, l)
request_step (recovering t) l = some (answered t, record l { health = set_health l.health healthy })
request_step (answered t) l = none
