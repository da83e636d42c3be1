-- ===== src/Diagnostics/Handlers.antt =====
-- The handlers of the server: witchcraft/internal/wdebug/handlers.go.
use text.Mathlib.Text.{◌==◌ as str_eq}
use witchcraft_go_server.Base.{Bool, true, Option, none, some, List, [], ◌∷◌, String, if◌then◌else◌}

pub data ContentType : Type 0 where
  plain binary json : ContentType
  media_type : String → ContentType

pub data Failure : Type 0 where
  write_failed : String → Failure
  conflict : String → Failure
  context_error : Failure

-- A DiagnosticHandler. `write_diagnostic` is what writing it returns: `none` is nil.
pub record Handler : Type 0 where
  pub type_name : String
  pub content_type : ContentType
  pub safe_loggable : Bool
  pub extension : String
  pub write_diagnostic : Option Failure

-- What the runtime does for the handlers: whether a profile is written, whether the CPU profile or
-- the tracer starts, and whether the request's context ends within the minute.
pub record Runtime : Type 0 where
  pub writes : String → Bool
  pub starts : String → Bool
  pub context_done : Bool

abbrev pub write_to : Runtime → String → String → Option Failure
write_to r what message = if r.writes what then none else some (write_failed message)

-- The two handlers that run for a minute; what they have started is stopped either way.
abbrev pub for_a_minute : Runtime → String → String → Option Failure
for_a_minute r what message =
    if r.starts what
    then (if r.context_done then some context_error else none)
    else some (conflict message)

abbrev pub goroutines_v1 : Runtime → Handler
goroutines_v1 r = record {
  type_name = "go.goroutines.v1";
  content_type = plain;
  safe_loggable = true;
  extension = "txt";
  write_diagnostic = write_to r "goroutine" "failed to write goroutine dump";
}

abbrev pub goroutines_v2 : Runtime → Handler
goroutines_v2 r = record {
  type_name = "go.goroutines.v2";
  content_type = binary;
  safe_loggable = true;
  extension = "prof";
  write_diagnostic = write_to r "goroutine" "failed to write goroutine dump";
}

abbrev pub cpu_profile_1minute_v1 : Runtime → Handler
cpu_profile_1minute_v1 r = record {
  type_name = "go.profile.cpu.1minute.v1";
  content_type = binary;
  safe_loggable = true;
  extension = "prof";
  write_diagnostic = for_a_minute r "cpu" "failed to start CPU profile";
}

abbrev pub heap_profile_v1 : Runtime → Handler
heap_profile_v1 r = record {
  type_name = "go.profile.heap.v1";
  content_type = binary;
  safe_loggable = true;
  extension = "prof";
  write_diagnostic = write_to r "heap" "failed to write heap in-use profile";
}

abbrev pub allocs_profile_v1 : Runtime → Handler
allocs_profile_v1 r = record {
  type_name = "go.profile.allocs.v1";
  content_type = binary;
  safe_loggable = true;
  extension = "prof";
  write_diagnostic = write_to r "allocs" "failed to write heap allocs profile";
}

abbrev pub trace_1minute_v1 : Runtime → Handler
trace_1minute_v1 r = record {
  type_name = "go.trace.1minute.v1";
  content_type = binary;
  safe_loggable = true;
  extension = "prof";
  write_diagnostic = for_a_minute r "trace" "failed to start execution tracer";
}

abbrev pub metric_names_v1 : Runtime → Handler
metric_names_v1 r = record {
  type_name = "metric.names.v1";
  content_type = json;
  safe_loggable = true;
  extension = "json";
  write_diagnostic = write_to r "metric names" "failed to write metric names";
}

abbrev pub system_time_v1 : Runtime → Handler
system_time_v1 r = record {
  type_name = "os.system.clock.v1";
  content_type = plain;
  safe_loggable = true;
  extension = "txt";
  write_diagnostic = write_to r "system time" "failed to write system time";
}

-- A map from types to handlers; the first entry of a key is the one that is there.
abbrev pub Handlers : Type 0
Handlers = List (String × Handler)

unfoldable pub find_handler : String → Handlers → Option Handler
find_handler t [] = none
find_handler t ((k, h) ∷ hs) = if str_eq k t then some h else find_handler t hs

abbrev pub keyed : List Handler → Handlers
keyed [] = []
keyed (h ∷ hs) = (h.type_name, h) ∷ keyed hs

-- diagnosticHandlers
unfoldable pub diagnostic_handlers : Runtime → Handlers
diagnostic_handlers r = keyed (
    cpu_profile_1minute_v1 r
    ∷ heap_profile_v1 r
    ∷ allocs_profile_v1 r
    ∷ trace_1minute_v1 r
    ∷ goroutines_v1 r
    ∷ goroutines_v2 r
    ∷ metric_names_v1 r
    ∷ system_time_v1 r
    ∷ [])
