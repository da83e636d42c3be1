-- ===== src/Telemetry/Writer/Wrapping.antt =====
-- What a writer is wrapped in: NewResponseWriter, Hijack and CloseNotify of
-- witchcraft/internal/negroni/response_writer.go, and toLoggingResponseWriter of
-- witchcraft/internal/middleware/route.go, which both layers of middleware call.
use witchcraft_go_server.Base.{
  ℕ, Bool, true, false, Option, none, some, List, String, if◌then◌else◌, ◌≡◌, ◌≢◌, ◌↔◌, ◌⊎◌, inl,
  inr, refl,
}
use witchcraft_go_server.Telemetry.Writer.{Writer, Op, new_response_writer, run}

-- The interfaces that a writer of net/http has besides http.ResponseWriter; a connection is a number.
pub record HttpWriter : Type 0 where
  pub hijacker : Option ℕ
  pub close_notifier : Option ℕ
  pub is_flusher : Bool

-- responseWriter or, where `is_close_notifier` holds, responseWriterCloseNotifer.
pub record ResponseWriter : Type 0 where
  pub wrapped : HttpWriter
  pub writer : Writer
  pub is_close_notifier : Bool

-- NewResponseWriter
unfoldable pub wrap : HttpWriter → ResponseWriter
wrap rw = record {
  wrapped = rw;
  writer = new_response_writer rw.is_flusher;
  is_close_notifier = elim rw.close_notifier [ none ↦ false | some c ↦ true ];
}

-- Hijack; inl is the error.
unfoldable pub hijack : ResponseWriter → String ⊎ ℕ
hijack rw = elim rw.wrapped.hijacker [
  | none ↦ inl "the ResponseWriter doesn't support the Hijacker interface"
  | some conn ↦ inr conn
]

-- CloseNotify, where the writer has it; the inner none is the panic of a failed assertion.
unfoldable pub close_notify : ResponseWriter → Option (Option ℕ)
close_notify rw = if rw.is_close_notifier then some rw.wrapped.close_notifier else none

-- What a middleware is called with.
pub data AnyWriter : Type 0 where
  of_http : HttpWriter → AnyWriter
  of_middleware : ResponseWriter → AnyWriter

unfoldable pub to_logging_response_writer : AnyWriter → ResponseWriter
unfolding wrap
to_logging_response_writer (of_http rw) = wrap rw
to_logging_response_writer (of_middleware lrw) = lrw

-- A handler's uses of the writer.
abbrev pub use_writer : List Op → ResponseWriter → ResponseWriter
use_writer ops rw = record rw { writer = run ops rw.writer }

-- The middleware of a route works on the very writer of the middleware of the request, so both read
-- the same status and size, whatever has been written before. What a handler does with the writer
-- leaves its other interfaces as net/http gave them: it can be hijacked if and only if the writer of
-- net/http can, and CloseNotify is there if and only if that writer has it, and does not panic.
pub to_logging_response_writer_lem :
    (rw : HttpWriter) (ops : List Op)
    → let lrw = use_writer ops (to_logging_response_writer (of_http rw)) in
      (to_logging_response_writer (of_middleware lrw) ≡ lrw)
      × ((conn : ℕ) → (hijack lrw ≡ inr conn) ↔ (rw.hijacker ≡ some conn))
      × ((c : Option ℕ) → (close_notify lrw ≡ some c) ↔ ((c ≡ rw.close_notifier) × (c ≢ none)))
unfolding to_logging_response_writer wrap hijack close_notify
to_logging_response_writer_lem rw ops =
    (refl, by_hijacker rw.hijacker, by_notifier rw.close_notifier)
  where
    by_hijacker :
        (h : Option ℕ) (conn : ℕ)
        → (◌≡◌ {A = String ⊎ ℕ}
            (elim h [
              | none ↦ inl "the ResponseWriter doesn't support the Hijacker interface"
              | some conn ↦ inr conn
            ])
            (inr conn))
          ↔ (h ≡ some conn)
    by_hijacker none conn = (λ e. absurd (cc), λ e. absurd (cc))
    by_hijacker (some c) conn = (λ e. cc, λ e. cc)

    by_notifier :
        (n c : Option ℕ)
        → ((if elim n [ none ↦ false | some d ↦ true ] then some n else none) ≡ some c)
          ↔ ((c ≡ n) × (c ≢ none))
    by_notifier none c = (λ e. absurd (cc), λ (e, f). absurd (f e))
    by_notifier (some d) c =
        (λ e. let same : c ≡ some d = cc in (same, λ f. absurd (cc)), λ (e, f). cc)
