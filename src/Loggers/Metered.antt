-- ===== src/Loggers/Metered.antt =====
-- The event, metric, trace, diagnostic and request loggers of witchcraft/loggers.go: their files, and
-- the wrappers evt2logger.go, metric1logger.go, trc1logger.go, diag1logger.go and req2logger.go of
-- witchcraft/internal/metricloggers. They have no level and no switch; the wrappers of the service
-- logger and of the audit loggers, which count what a level or a switch keeps out of the log too, are
-- in Service and Audit.
use Prim.Native.String.{len}
use mathlib.Core.List.{append-nil, append_assoc}
use witchcraft_go_server.Base.{
  ℕ, ◌+◌, Bool, true, false, List, [], ◌∷◌, ◌++◌, String, ◌≡◌, refl, sym, ◌∙◌, arith, map, count_if,
  count_if-append,
}
use witchcraft_go_server.Loggers.Output.{Host, Sink, new_default_log_output_writer}

pub data Logger : Type 0 where
  event metric trace diagnostic request : Logger

-- The names that initDefaultLoggers and initWrappedLoggers give to logWriterFn.
unfoldable pub sls_filename : Logger → String
sls_filename event = "event"
sls_filename metric = "metrics"
sls_filename trace = "trace"
sls_filename diagnostic = "diagnostic"
sls_filename request = "request"

unfoldable pub writer_of : Host → Bool → Logger → Sink
writer_of h use_console_log l = new_default_log_output_writer h (sls_filename l) use_console_log

abbrev pub same_logger : Logger → Logger → Bool
same_logger event event = true
same_logger metric metric = true
same_logger trace trace = true
same_logger diagnostic diagnostic = true
same_logger request request = true
same_logger _ _ = false

-- What is written, the histogram of lengths and the meter of each logger.
pub record State : Type 0 where
  pub lines : List (Logger × String)
  pub lengths : List (Logger × ℕ)
  pub marks : List Logger

abbrev pub write : Logger → String → State → State
write l line s = record s {
  lines = s.lines ++ ((l, line) ∷ []);
  lengths = s.lengths ++ ((l, len line) ∷ []);
}

abbrev pub mark : Logger → State → State
mark l s = record s { marks = s.marks ++ (l ∷ []) }

-- Each wrapper calls its logger, and marks its meter; only Send does not mark.
abbrev pub evt2_event : String → State → State
evt2_event line s = mark event (write event line s)

abbrev pub metric1_metric : String → State → State
metric1_metric line s = mark metric (write metric line s)

abbrev pub trc1_log : String → State → State
trc1_log line s = mark trace (write trace line s)

abbrev pub trc1_send : String → State → State
trc1_send line s = write trace line s

abbrev pub diag1_diagnostic : String → State → State
diag1_diagnostic line s = mark diagnostic (write diagnostic line s)

abbrev pub req2_request : String → State → State
req2_request line s = mark request (write request line s)

-- A call of the method of a logger that logs; or Send, which a tracer calls with a span.
pub data Call : Type 0 where
  logged : Logger → String → Call
  sent : String → Call

unfoldable pub do_call : Call → State → State
do_call (logged event line) s = evt2_event line s
do_call (logged metric line) s = metric1_metric line s
do_call (logged trace line) s = trc1_log line s
do_call (logged diagnostic line) s = diag1_diagnostic line s
do_call (logged request line) s = req2_request line s
do_call (sent line) s = trc1_send line s

unfoldable pub run : List Call → State → State
run [] s = s
run (c ∷ cs) s = run cs (do_call c s)

abbrev pub is_line_of : Logger → Logger × String → Bool
is_line_of k (l, _) = same_logger k l

abbrev pub is_send_to : Logger → Call → Bool
is_send_to k (logged l line) = false
is_send_to k (sent line) = same_logger k trace

-- The lines of a log that its meter has not counted are `n`.
abbrev pub Uncounted : Logger → ℕ → State → Type 0
Uncounted k n s = count_if (is_line_of k) s.lines ≡ count_if (same_logger k) s.marks + n

do_call-logged :
    (l : Logger) (line : String) (s : State) → do_call (logged l line) s ≡ mark l (write l line s)
unfolding do_call
do_call-logged event line s = refl
do_call-logged metric line s = refl
do_call-logged trace line s = refl
do_call-logged diagnostic line s = refl
do_call-logged request line s = refl

do_call-Uncounted :
    (k : Logger) (c : Call) (n : ℕ) (s : State)
    → Uncounted k n s
    → Uncounted k (n + count_if (is_send_to k) (c ∷ [])) (do_call c s)
unfolding do_call count_if
do_call-Uncounted k (logged l line) n s h =
    rw (do_call-logged l line s) (grind (arith, count_if-append))
do_call-Uncounted k (sent line) n s h = grind (arith, count_if-append)

run-marks :
    (k : Logger) (cs : List Call) (n : ℕ) (s : State)
    → Uncounted k n s
    → Uncounted k (n + count_if (is_send_to k) cs) (run cs s)
unfolding run count_if
run-marks k [] n s h = grind arith
run-marks k (c ∷ cs) n s h =
    let rest = run-marks k cs _ (do_call c s) (do_call-Uncounted k c n s h) in grind arith

-- What a call writes, to which log.
abbrev pub line_of : Call → Logger × String
line_of (logged l line) = (l, line)
line_of (sent line) = (trace, line)

abbrev pub measured : Logger × String → Logger × ℕ
measured (l, line) = (l, len line)

run-written :
    (cs : List Call) (s : State)
    → ((run cs s).lines ≡ s.lines ++ map line_of cs)
      × ((run cs s).lengths ≡ s.lengths ++ map measured (map line_of cs))
unfolding run do_call
run-written [] s = (sym (append-nil _), sym (append-nil _))
run-written (logged l line ∷ cs) s =
    let (lines, lengths) = run-written cs (mark l (write l line s)) in
    rw (do_call-logged l line s, run)
      (lines ∙ append_assoc s.lines _ _, lengths ∙ append_assoc s.lengths _ _)
run-written (sent line ∷ cs) s =
    let (lines, lengths) = run-written cs (do_call (sent line) s) in
    (lines ∙ append_assoc s.lines _ _, lengths ∙ append_assoc s.lengths _ _)

-- After any calls of the event, metric, trace, diagnostic and request loggers, each line is in the
-- log of the logger that was called, in the order of the calls and with its length in the histogram;
-- and the meter of each of these five counts the lines of its log but for the spans that a tracer
-- has sent, which are in the trace log and are not counted.
pub run-Uncounted :
    (k : Logger) (cs : List Call) (n : ℕ) (s : State)
    → Uncounted k n s
    → Uncounted k (n + count_if (is_send_to k) cs) (run cs s)
      × ((run cs s).lines ≡ s.lines ++ map line_of cs)
      × ((run cs s).lengths ≡ s.lengths ++ map measured (map line_of cs))
run-Uncounted k cs n s h =
    let (lines, lengths) = run-written cs s in (run-marks k cs n s h, lines, lengths)
