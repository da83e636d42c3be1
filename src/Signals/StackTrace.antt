-- ===== src/Signals/StackTrace.antt =====
-- initStackTraceHandler of witchcraft/witchcraft.go, and what the library of signals makes of its two
-- functions on a SIGQUIT: the handler runs on the dump of the goroutines, and the error handler on
-- its error.
use witchcraft_go_server.Base.{
  Bool, true, false, ◌&&◌, Option, none, some, List, [], ◌∷◌, ◌++◌, String, if◌then◌else◌, ◌≡◌, ◌↔◌,
  refl,
}
use witchcraft_go_server.Signals.{Dumped, diagnostic, written, stack_trace_handler}

-- errHandler: whether it logs the error.
unfoldable pub err_handler : Bool → Bool → Bool
err_handler has_svc_logger failed = has_svc_logger && failed

-- What initStackTraceHandler registers: the handler and the error handler, with the loggers and the
-- writer that the server has; none is a handler that is disabled.
pub record Registered : Type 0 where
  pub has_diag_logger : Bool
  pub has_svc_logger : Bool
  pub sig_quit_handler_writer : Option (String → Bool)

unfoldable pub init_stack_trace_handler :
    Bool → Bool → Bool → Option (String → Bool) → Option Registered
init_stack_trace_handler true has_diag has_svc writer = none
init_stack_trace_handler false has_diag has_svc writer = some (record {
  has_diag_logger = has_diag;
  has_svc_logger = has_svc;
  sig_quit_handler_writer = writer;
})

-- What a SIGQUIT does: the dumps, and whether a failure is logged.
unfoldable pub on_sig_quit : String → Registered → List Dumped × Bool
unfolding stack_trace_handler err_handler
on_sig_quit dump r =
    let (done, failed) = stack_trace_handler r.has_diag_logger r.sig_quit_handler_writer dump in
    (done, err_handler r.has_svc_logger failed)

abbrev pub Fails : Option (String → Bool) → String → Type 0
Fails none dump = true ≡ false
Fails (some fails) dump = fails dump ≡ true

-- On a SIGQUIT a failure is logged if and only if there is a service logger and a writer that fails on
-- the dump; that a writer fails does not keep the dump from the diagnostic log.
pub on_sig_quit-logged_iff :
    (dump : String) (r : Registered)
    → (((on_sig_quit dump r).1 ≡ true)
        ↔ ((r.has_svc_logger ≡ true) × Fails r.sig_quit_handler_writer dump))
      × ((on_sig_quit dump r).0
          ≡ (if r.has_diag_logger then diagnostic dump ∷ [] else [])
            ++ (elim r.sig_quit_handler_writer [ none ↦ [] | some fails ↦ written dump ∷ [] ]))
unfolding on_sig_quit stack_trace_handler err_handler
on_sig_quit-logged_iff dump r =
    by_writer r.has_diag_logger r.has_svc_logger r.sig_quit_handler_writer
  where
    by_writer :
        (d s : Bool) (w : Option (String → Bool))
        → (((on_sig_quit dump
                (record { has_diag_logger = d; has_svc_logger = s; sig_quit_handler_writer = w })).1
              ≡ true)
            ↔ ((s ≡ true) × Fails w dump))
          × ((on_sig_quit dump
                (record { has_diag_logger = d; has_svc_logger = s; sig_quit_handler_writer = w })).0
              ≡ (if d then diagnostic dump ∷ [] else [])
                ++ (elim w [ none ↦ [] | some fails ↦ written dump ∷ [] ]))
    by_writer true true none = ((λ h. absurd (cc), λ h. absurd (let f = h.1 in cc)), refl)
    by_writer true false none = ((λ h. absurd (cc), λ h. absurd (let f = h.1 in cc)), refl)
    by_writer false true none = ((λ h. absurd (cc), λ h. absurd (let f = h.1 in cc)), refl)
    by_writer false false none = ((λ h. absurd (cc), λ h. absurd (let f = h.1 in cc)), refl)
    by_writer true true (some fails) = ((λ h. (refl, h), λ h. h.1), refl)
    by_writer true false (some fails) = ((λ h. absurd (cc), λ h. absurd (let f = h.0 in cc)), refl)
    by_writer false true (some fails) = ((λ h. (refl, h), λ h. h.1), refl)
    by_writer false false (some fails) = ((λ h. absurd (cc), λ h. absurd (let f = h.0 in cc)), refl)
