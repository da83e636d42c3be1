-- ===== src/Loggers/Tests.antt =====
-- The loggers at concrete entries and reloads.
use text.Mathlib.Text.{◌==◌ as str_eq}
use witchcraft_go_server.Base.{
  map, ◌+◌, arith, count_if, Bool, true, false, none, some, List, [], ◌∷◌, ◌++◌, ◌≡◌, refl, String,
}
use witchcraft_go_server.Loggers.Output.{Host, rolling_file, new_default_log_output_writer}
use witchcraft_go_server.Loggers.Audit.{
  audit, audit_v3, AuditConfig, default_loggers, Call, call_audit2, call_audit3, reload, run,
  new_state,
}
use witchcraft_go_server.Loggers.Metered
use witchcraft_go_server.Loggers.Audit.Lines.{lines_of, audit2_entries, audit3_entries, run-lines}
use witchcraft_go_server.Loggers.Audit.Meters.{Metered}
use witchcraft_go_server.Loggers.Service.{
  ServiceCall, entry, new_level, Level, info, error, Service, let_through,
}

abbrev a_jail : Host
a_jail = record {
  docker_env = some false;
  has_container_variable = false;
  hostname = some "node-jail-3";
}

jail_file : new_default_log_output_writer a_jail "audit" false ≡ rolling_file "var/log/audit.log"
unfolding new_default_log_output_writer
jail_file = refl

abbrev no_audit2 : AuditConfig
no_audit2 = record {
  deployment = "d";
  product = "p";
  product_version = "1";
  stack = "s";
  service = "v";
  environment = "e";
  produce_audit2_logs = some false;
}

abbrev audit_calls : List Call
audit_calls =
    call_audit2 ("A2", "A3")
    ∷ reload (some no_audit2)
    ∷ call_audit3 ("B2", "B3")
    ∷ reload none
    ∷ call_audit3 ("C2", "C3")
    ∷ []

suppressed :
    lines_of audit (run a_jail (default_loggers false true) audit_calls new_state).lines
    ≡ "A2" ∷ "C2" ∷ []
unfolding run lines_of
suppressed = refl

run-lines_example :
    (lines_of audit (run a_jail (default_loggers false true) audit_calls new_state).lines
      ≡ lines_of audit [] ++ audit2_entries (default_loggers false true) true audit_calls)
    × (lines_of audit_v3 (run a_jail (default_loggers false true) audit_calls new_state).lines
        ≡ lines_of audit_v3 [] ++ audit3_entries (default_loggers false true) audit_calls)
run-lines_example = run-lines a_jail (default_loggers false true) audit_calls new_state

new_state-Metered : Metered new_state
unfolding lines_of count_if
new_state-Metered = (refl, omega arith, refl)

-- A level lets a line through unless it is "error" and the line is below.
abbrev lets_through : String → Level → Bool
lets_through level error = true
lets_through level _ = str_eq level "info"

abbrev entries : List ServiceCall
entries =
    entry info "x"
    ∷ new_level (some "error")
    ∷ entry info "y"
    ∷ new_level none
    ∷ entry error "z"
    ∷ []

abbrev a_service : Service
a_service = record { level = "info"; lines = []; marks = [] }

kept_out : let_through lets_through entries "info" ≡ (info, "x") ∷ (error, "z") ∷ []
unfolding let_through
kept_out = refl

abbrev some_calls : List Metered.Call
some_calls =
    Metered.logged Metered.event "E"
    ∷ Metered.sent "S"
    ∷ Metered.logged Metered.trace "T"
    ∷ Metered.sent "U"
    ∷ []

abbrev no_lines : Metered.State
no_lines = record { lines = []; lengths = []; marks = [] }

no_lines-Uncounted : Metered.Uncounted Metered.trace 0 no_lines
unfolding count_if
no_lines-Uncounted = refl

run-Uncounted_example :
    Metered.Uncounted Metered.trace
      (0 + count_if (Metered.is_send_to Metered.trace) some_calls)
      (Metered.run some_calls no_lines)
    × ((Metered.run some_calls no_lines).lines ≡ no_lines.lines ++ map Metered.line_of some_calls)
    × ((Metered.run some_calls no_lines).lengths
        ≡ no_lines.lengths ++ map Metered.measured (map Metered.line_of some_calls))
run-Uncounted_example = Metered.run-Uncounted Metered.trace some_calls 0 no_lines no_lines-Uncounted

two_sent : count_if (Metered.is_send_to Metered.trace) some_calls ≡ 2
unfolding count_if
two_sent = refl

trace_file : Metered.writer_of a_jail false Metered.trace ≡ rolling_file "var/log/trace.log"
unfolding Metered.writer_of Metered.sls_filename new_default_log_output_writer
trace_file = refl
