-- ===== src/Loggers/Initial.antt =====
-- What initDefaultLoggers and initWrappedLoggers of witchcraft/loggers.go build: for each logger its
-- files, its format, and whether it writes through the toggleable writer of the audit.2 log.
use text.Mathlib.Text.{◌==◌ as str_eq}
use witchcraft_go_server.Base.{
  count_if, not, Bool, true, false, Option, none, some, List, [], ◌∷◌, ◌++◌, String, if◌then◌else◌,
  map, ◌≡◌, refl,
}

-- os.Stdout, or the writer of WithLoggerStdoutWriter.
pub data StdoutWriter : Type 0 where
  os_stdout : StdoutWriter
  given : String → StdoutWriter

abbrev pub logger_stdout_writer : Option String → StdoutWriter
logger_stdout_writer none = os_stdout
logger_stdout_writer (some w) = given w

-- A line of the logger's own type, or one that is wrapped with a product's name and version.
pub data Format : Type 0 where
  sls : Format
  wrapped1 : String → String → Format

-- A writer that measures its lines; `toggleable` is whether the audit.2 log can be turned off by it.
pub record LogWriter : Type 0 where
  pub sls_filename : String
  pub toggleable : Bool

abbrev log_writer : String → LogWriter
log_writer name = record { sls_filename = name; toggleable = false }

abbrev audit2_writer : LogWriter
audit2_writer = record { sls_filename = "audit"; toggleable = true }

-- A logger: its first writer, and the second one of a dual logger.
pub record BuiltLogger : Type 0 where
  pub format : Format
  pub writer : LogWriter
  pub second : Option LogWriter

abbrev single : Format → LogWriter → BuiltLogger
single format w = record { format = format; writer = w; second = none }

abbrev with_second : Bool → LogWriter → BuiltLogger → BuiltLogger
with_second dual w l = record l { second = if dual then some w else none }

-- The loggers for service, event, metric, trace, audit.2, audit.3, diagnostic and request.
unfoldable pub init_default_loggers : Bool → Bool → List BuiltLogger
init_default_loggers v2_to_v3 v3_to_v2 =
    single sls (log_writer "service")
    ∷ single sls (log_writer "event")
    ∷ single sls (log_writer "metrics")
    ∷ single sls (log_writer "trace")
    ∷ with_second v2_to_v3 (log_writer "audit.v3") (single sls audit2_writer)
    ∷ with_second v3_to_v2 audit2_writer (single sls (log_writer "audit.v3"))
    ∷ single sls (log_writer "diagnostic")
    ∷ single sls (log_writer "request")
    ∷ []

unfoldable pub init_wrapped_loggers : String → String → List BuiltLogger
init_wrapped_loggers name version =
    let wrapped = wrapped1 name version in
    single wrapped (log_writer "service")
    ∷ single wrapped (log_writer "event")
    ∷ single wrapped (log_writer "metrics")
    ∷ single wrapped (log_writer "trace")
    ∷ single wrapped audit2_writer
    ∷ single wrapped (log_writer "audit.v3")
    ∷ single wrapped (log_writer "diagnostic")
    ∷ single wrapped (log_writer "request")
    ∷ []

-- The writers of a logger, the first one first.
abbrev writers : BuiltLogger → List LogWriter
writers l = elim l.second [ none ↦ l.writer ∷ [] | some w ↦ l.writer ∷ w ∷ [] ]

abbrev all_writers : List BuiltLogger → List LogWriter
all_writers [] = []
all_writers (l ∷ ls) = writers l ++ all_writers ls

-- A writer to the file of the audit.2 log that cannot be turned off, or another that can.
abbrev is_wrong : LogWriter → Bool
is_wrong w = if str_eq w.sls_filename "audit" then not w.toggleable else w.toggleable

-- Whatever the options for dual logging: the writers that can be turned off are those to the file of
-- the audit.2 log; and the loggers of both kinds write first to the same files, in the same order.
pub init_loggers-toggled :
    (v2_to_v3 v3_to_v2 : Bool) (name version : String)
    → let plain = init_default_loggers v2_to_v3 v3_to_v2 in
      let wrapped = init_wrapped_loggers name version in
      (count_if is_wrong (all_writers plain) ≡ 0)
      × (count_if is_wrong (all_writers wrapped) ≡ 0)
      × (map (λ l. l.writer) plain ≡ map (λ l. l.writer) wrapped)
unfolding init_default_loggers init_wrapped_loggers count_if
init_loggers-toggled true true name version = (refl, refl, refl)
init_loggers-toggled true false name version = (refl, refl, refl)
init_loggers-toggled false true name version = (refl, refl, refl)
init_loggers-toggled false false name version = (refl, refl, refl)
