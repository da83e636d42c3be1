-- ===== src/Startup/Action.antt =====
-- Go's control flow as an action: a body that returns, returns an error or panics, and a stack of
-- deferred functions.
use witchcraft_go_server.Base.{ℕ, Bool, Option, List, ◌∷◌, ◌++◌, [], String, if◌then◌else◌}

pub data Error : Type 0 where
  call_error : String → Error
  wrapped : String → Error → Error
  panic_recovered shut_down_before_start : Error

-- What a panic carries: a value that is an error, or another.
pub data Recovered : Type 0 where
  error_value : Error → Recovered
  other_value : Recovered

-- The functions that Start defers, less the two that handle its error.
pub data Cleanup : Type 0 where
  reset_state cancel_ctx stop_metrics : Cleanup
  unsubscribe_level unsubscribe_audit_config unsubscribe_audit_update : Cleanup
  init_cleanup shut_down_management : Cleanup

pub data Phase : Type 0 where
  start_state install metrics runtime debug_routes tracer init add_routes : Phase
  new_management_server new_app_server set_running serve : Phase

pub data Loggers : Type 0 where
  default_loggers : Bool → Loggers
  wrapped_loggers : Bool → String → String → Loggers

-- The sources of health. The check of 500s is a pointer: `none` is nil, and `some` has whether the
-- check is always healthy.
pub data Source : Type 0 where
  user config : ℕ → Source
  endpoint_500s : Option Bool → Source
  service_dependencies server_status : Source

pub data Event : Type 0 where
  completed : Phase → Event
  deferred released : Cleanup → Event
  using : Loggers → Event
  serving_health : List Source → Event
  logged logged_panic : Error → Event

-- The fields of the server that the pipeline changes, with the deferred functions, the last one
-- first, and what has happened.
pub record World : Type 0 where
  pub loggers : Option Loggers  -- s.svcLogger
  pub sources : List Source  -- s.healthCheckSources
  pub stack : List Cleanup
  pub events : List Event

-- How a call into the rest of the program ends.
pub data Attempt (A : Type 0) : Type 0 where
  returns : A → Attempt A
  fails : Error → Attempt A
  panics : Recovered → Attempt A

abbrev pub Action : Type 0 → Type 0
Action A = World → Attempt A × World

abbrev pub record_event : Event → World → World
record_event e w = record w { events = w.events ++ (e ∷ []) }

abbrev pub pure : {A : Type 0} → A → Action A
pure a w = (returns a, w)

-- What follows a call: an error or a panic ends the body.
abbrev pub proceed : {A B : Type 0} → (A → Action B) → Attempt A → World → Attempt B × World
proceed f (returns a) w = f a w
proceed f (fails e) w = (fails e, w)
proceed f (panics p) w = (panics p, w)

infixl 5 ◌>>=◌ ◌>>◌
unfoldable pub ◌>>=◌ : {A B : Type 0} → Action A → (A → Action B) → Action B
◌>>=◌ m f w = let (r, w') = m w in proceed f r w'

abbrev pub ◌>>◌ : {A B : Type 0} → Action A → Action B → Action B
m >> k = m >>= λ _. k

-- A call whose error, if it returns one, is returned by the body.
unfoldable pub call : {A : Type 0} → Phase → Attempt A → Action A
call p (returns a) w = (returns a, record_event (completed p) w)
call p (fails e) w = (fails e, w)
call p (panics r) w = (panics r, w)

abbrev pub defer_call : Cleanup → Action (Unit {0})
defer_call c w = (returns tt, record (record_event (deferred c) w) { stack = c ∷ w.stack })

abbrev pub modify : (World → World) → Action (Unit {0})
modify f w = (returns tt, f w)

abbrev pub when : Bool → Action (Unit {0}) → Action (Unit {0})
when c m w = if c then m w else (returns tt, w)
