-- ===== src/Signals.antt =====
-- The signals that the server handles: initShutdownSignalHandler and the handlers of
-- initStackTraceHandler of witchcraft/witchcraft.go. A signal, what the handler's goroutine does next
-- and the return of its call of Shutdown are events, in any order.
pub mod StackTrace
mod Tests
use witchcraft_go_server.Base.{
  ℕ, ◌+◌, Bool, true, false, ◌&&◌, ◌||◌, not, Option, none, some, List, [], ◌∷◌, ◌++◌, String, bit,
  if◌then◌else◌, ◌≡◌, refl, arith,
}

pub data Signal : Type 0 where
  sigterm sigint : Signal

pub data Entry : Type 0 where
  received_shutdown_signal : Signal → Entry
  failed_to_shutdown : Entry

-- The goroutine that initShutdownSignalHandler starts.
pub data Goroutine : Type 0 where
  waiting stopping ended : Goroutine

-- `queued` is the channel, which holds one signal; signal.Notify drops one that finds it full.
pub record Handler : Type 0 where
  pub queued : Option Signal
  pub goroutine : Goroutine
  pub shutdowns : ℕ
  pub log : List Entry

-- initShutdownSignalHandler: nothing where the handler is disabled.
unfoldable pub init_shutdown_signal_handler : Bool → Option Handler
init_shutdown_signal_handler true = none
init_shutdown_signal_handler false =
    some record { queued = none; goroutine = waiting; shutdowns = 0; log = [] }

pub data Event : Type 0 where
  signal : Signal → Event
  scheduled : Event
  -- Shutdown returns, with an error or without
  returned : Bool → Event

abbrev pub queue : Option Signal → Signal → Option Signal
queue none s = some s
queue (some q) s = some q

-- The goroutine takes the signal of the channel, if there is one, and calls Shutdown.
abbrev pub receive : Option Signal → Handler → Handler
receive none h = h
receive (some s) h = record h {
  queued = none;
  goroutine = stopping;
  shutdowns = h.shutdowns + 1;
  log = h.log ++ (received_shutdown_signal s ∷ []);
}

abbrev pub when_waiting : Goroutine → Handler → Handler
when_waiting waiting h = receive h.queued h
when_waiting stopping h = h
when_waiting ended h = h

abbrev pub when_stopping : Goroutine → Bool → Handler → Handler
when_stopping waiting failed h = h
when_stopping stopping failed h = record h {
  goroutine = ended;
  log = if failed then h.log ++ (failed_to_shutdown ∷ []) else h.log;
}
when_stopping ended failed h = h

unfoldable pub handle : Event → Handler → Handler
handle (signal s) h = record h { queued = queue h.queued s }
handle scheduled h = when_waiting h.goroutine h
handle (returned failed) h = when_stopping h.goroutine failed h

unfoldable pub run : List Event → Handler → Handler
run [] h = h
run (e ∷ es) h = run es (handle e h)

-- Whether the goroutine runs when a signal has come.
unfoldable pub is_taken : Bool → List Event → Bool
is_taken came [] = false
is_taken came (signal s ∷ es) = is_taken true es
is_taken came (scheduled ∷ es) = came || is_taken came es
is_taken came (returned failed ∷ es) = is_taken came es

-- initStackTraceHandler's handler: the dump to the diagnostic logger, and to the writer, which may
-- fail. What it did, and whether it returns an error.
pub data Dumped : Type 0 where
  diagnostic : String → Dumped
  written : String → Dumped

unfoldable pub stack_trace_handler : Bool → Option (String → Bool) → String → List Dumped × Bool
stack_trace_handler has_diag writer dump =
    let logged = if has_diag then diagnostic dump ∷ [] else [] in
    elim writer [
      | none ↦ (logged, false)
      | some fails ↦ (logged ++ (written dump ∷ []), fails dump)
    ]

abbrev pub has_signal : Option Signal → Bool
has_signal none = false
has_signal (some s) = true

-- A handler whose goroutine does not wait asks for no further shutdown.
run-ended :
    (es : List Event) (queued : Option Signal) (n : ℕ) (log : List Entry)
    → (run es record { queued = queued; goroutine = ended; shutdowns = n; log = log }).shutdowns ≡ n
unfolding run handle
run-ended [] q n log = refl
run-ended (signal s ∷ es) q n log = run-ended es (queue q s) n log
run-ended (scheduled ∷ es) q n log = run-ended es q n log
run-ended (returned f ∷ es) q n log = run-ended es q n log

run-stopping :
    (es : List Event) (queued : Option Signal) (n : ℕ) (log : List Entry)
    → (run es record { queued = queued; goroutine = stopping; shutdowns = n; log = log }).shutdowns
      ≡ n
unfolding run handle
run-stopping [] q n log = refl
run-stopping (signal s ∷ es) q n log = run-stopping es (queue q s) n log
run-stopping (scheduled ∷ es) q n log = run-stopping es q n log
run-stopping (returned f ∷ es) q n log = run-ended es q n _

-- However many signals come, and whenever, a handler whose goroutine waits asks for one shutdown if
-- the goroutine runs after a signal, and else for none.
pub run-shutdowns :
    (es : List Event) (queued : Option Signal) (n : ℕ) (log : List Entry)
    → (run es record { queued = queued; goroutine = waiting; shutdowns = n; log = log }).shutdowns
      ≡ n + bit (is_taken (has_signal queued) es)
unfolding run handle is_taken
run-shutdowns [] q n log = omega arith
run-shutdowns (signal s ∷ es) none n log = run-shutdowns es (some s) n log
run-shutdowns (signal s ∷ es) (some q) n log = run-shutdowns es (some q) n log
run-shutdowns (scheduled ∷ es) none n log = run-shutdowns es none n log
run-shutdowns (scheduled ∷ es) (some q) n log = run-stopping es none (n + 1) _
run-shutdowns (returned f ∷ es) q n log = run-shutdowns es q n log
