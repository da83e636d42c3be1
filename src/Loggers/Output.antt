-- ===== src/Loggers/Output.antt =====
-- Where log lines go: newDefaultLogOutputWriter of witchcraft/loggers.go, and the writers of
-- witchcraft/internal/metricloggers/writer.go.
use Prim.Native.String.{◌++◌ as str_append}
use text.Mathlib.Text.{◌==◌ as str_eq, find?}
use witchcraft_go_server.Base.{
  ℕ, Bool, true, false, not, ◌&&◌, ◌||◌, Option, none, some, String, if◌then◌else◌,
}

pub data Sink : Type 0 where
  stdout : Sink
  rolling_file : String → Sink

-- What the environment variables, the file system and os.Hostname give; `none` is an error.
pub record Host : Type 0 where
  pub docker_env : Option Bool  -- /.dockerenv: an error, or whether it is a directory
  pub has_container_variable : Bool
  pub hostname : Option String

abbrev pub is_docker : Host → Bool
is_docker h = elim h.docker_env [ none ↦ false | some is_dir ↦ not is_dir ]

abbrev pub is_container : Host → Bool
is_container h = is_docker h || h.has_container_variable

-- strings.Contains
abbrev pub contains : String → String → Bool
contains s sub = elim (find? s sub) [ none ↦ false | some i ↦ true ]

-- isJail.
abbrev pub is_jail : Host → Bool
is_jail h = elim h.hostname [ none ↦ false | some n ↦ contains n "-jail-" ]

abbrev pub log_to_stdout_based_on_env : Host → Bool
log_to_stdout_based_on_env h = is_container h && not (is_jail h)

unfoldable pub new_default_log_output_writer : Host → String → Bool → Sink
new_default_log_output_writer h sls_filename log_to_stdout =
    if log_to_stdout || log_to_stdout_based_on_env h
    then stdout
    else rolling_file (str_append "var/log/" (str_append sls_filename ".log"))

-- resolveHostName: `none` is an error.
unfoldable pub resolve_host_name : Host → Option String
resolve_host_name h = elim h.hostname [
  | none ↦ none
  | some n ↦ if str_eq n "localhost" then none else some n
]

pub data Origin : Type 0 where
  origin : String → Origin
  call_line : ℕ → Origin

-- The parameter for the origin: `skip` is 2 for the default loggers and 5 for the wrapped ones.
unfoldable pub origin_param : Option String → Bool → ℕ → String → Origin
origin_param none from_call_line skip caller =
    if from_call_line then call_line skip else origin caller
origin_param (some o) from_call_line skip caller =
    if not (str_eq o "") then origin o else if from_call_line then call_line skip else origin caller

-- What a Write returns: the count and whether there was an error.
abbrev pub Written : Type 0
Written = ℕ × Bool
