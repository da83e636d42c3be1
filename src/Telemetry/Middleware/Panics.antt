-- ===== src/Telemetry/Middleware/Panics.antt =====
-- A panic in a route's handler, seen through both middlewares.
use witchcraft_go_server.Base.{
  ℕ, ◌+◌, ◌≡◌, ◌∙◌, refl, ap, Bool, true, false, not, ◌&&◌, Option, List, [], ◌∷◌, ◌++◌, ◌==◌, ◌/◌,
  arith, if◌then◌else◌, map_option, bit, count_if, count_if-append, Bool-cases, inl, inr,
}
use witchcraft_go_server.FiveHundreds.{Endpoints, mark_response}
use witchcraft_go_server.Telemetry.Writer.{Writer, Op, set_header, status, written, run}
use witchcraft_go_server.Telemetry.Writer.Outputs.{HaveCodes, last_code, run-status}
use witchcraft_go_server.Telemetry.Middleware.{
  Handler, RequestVals, Effect, recovered, route_telemetry, request_telemetry, span_tag,
  span_finish, route_done, mark_metrics, error_meter, panic_responding_500,
}

-- Whether a handler has sent a status line when it is done, on a writer that was given to it
-- unwritten.
abbrev pub has_written : Handler → Writer → Bool
has_written h w = written (run h.ops w)

-- The writer that a route's handler gets.
abbrev pub with_hsts : Writer → Writer
with_hsts w = record w { out = set_header "Strict-Transport-Security" "max-age=31536000" ∷ w.out }

-- The status of a request whose handler did `h`.
abbrev pub final_status : Handler → Writer → ℕ
final_status h w =
    if h.panics && not (written (run h.ops w)) then 500 else last_code (status w) h.ops

abbrev pub is_error_meter : Effect → Bool
is_error_meter error_meter = true
is_error_meter _ = false

abbrev pub is_responding : Effect → Bool
is_responding panic_responding_500 = true
is_responding _ = false

module _ (error_ops : List Op) (error_ops_codes : HaveCodes error_ops)
    (error_ops_500 : (d : ℕ) → last_code d error_ops ≡ 500) where
  recovered-status :
      (h : Handler) (w : Writer)
      → HaveCodes h.ops
      → status (recovered error_ops h.panics (run h.ops w)).0 ≡ final_status h w
  unfolding recovered
  recovered-status h w c = by_panic h.panics
    where
      by_panic :
          (p : Bool)
          → status (recovered error_ops p (run h.ops w)).0
            ≡ (if p && not (written (run h.ops w)) then 500 else last_code (status w) h.ops)
      by_panic false = run-status h.ops w c
      by_panic true = elim (Bool-cases (written (run h.ops w))) [
        | inl e ↦ rw e (run-status h.ops w c)
        | inr e ↦ rw e (run-status error_ops (run h.ops w) error_ops_codes ∙ error_ops_500 _)
      ]

  recovered-effects :
      (h : Handler) (w : Writer)
      → let es = (recovered error_ops h.panics (run h.ops w)).1 in
        (count_if is_error_meter es ≡ 0)
        × (count_if is_responding es ≡ bit (h.panics && not (written (run h.ops w))))
  unfolding recovered count_if
  recovered-effects h w = by_panic h.panics
    where
      by_panic :
          (p : Bool)
          → let es = (recovered error_ops p (run h.ops w)).1 in
            (count_if is_error_meter es ≡ 0)
            × (count_if is_responding es ≡ bit (p && not (written (run h.ops w))))
      by_panic false = (refl, refl)
      by_panic true = elim (Bool-cases (written (run h.ops w))) [
        | inl e ↦ rw e (ground arith, ground arith)
        | inr e ↦ rw e (ground arith, ground arith)
      ]

  -- The end of the request's span adds neither.
  spanned :
      (es : List Effect) (s : ℕ)
      → let fs = es ++ (span_tag s ∷ span_finish ∷ []) in
        (count_if is_error_meter fs ≡ count_if is_error_meter es)
        × (count_if is_responding fs ≡ count_if is_responding es)
  unfolding count_if
  spanned [] s = (ground arith, ground arith)
  spanned (e ∷ es) s = let (m, r) = spanned es s in (omega (arith, m), omega (arith, r))

  joined :
      (p : Effect → Bool) (es fs : List Effect)
      → (count_if p ([] ++ es) ≡ count_if p es)
        × (count_if p ((es ++ fs) ++ []) ≡ count_if p es + count_if p fs)
  unfolding count_if
  joined p es fs = (refl, omega (arith, count_if-append p (es ++ fs) [], count_if-append p es fs))

  route_done-effects :
      (vals : RequestVals) (w : Writer)
      → (count_if is_error_meter (route_done error_ops vals w) ≡ bit ((status w / 100) == 5))
        × (count_if is_responding (route_done error_ops vals w) ≡ 0)
  unfolding route_done mark_metrics count_if
  route_done-effects vals w = elim (Bool-cases ((status w / 100) == 5)) [
    | inl e ↦ ground (arith, e)
    | inr e ↦ ground (arith, e)
  ]

  -- A request to a route whose handler uses the writer with positive status codes, and then may
  -- panic, with an error response that ends with the status 500: no panic leaves the middleware;
  -- the status of the response, which is also what the 500s check is told unless the route's
  -- telemetry is disabled, is 500 if the handler panicked with nothing written, and otherwise the
  -- handler's own; one of the two middlewares, and only one, responds to such a panic; and the
  -- error meter is marked, once, just when the telemetry is enabled and the status is in the 500s.
  pub request-status :
      (vals : RequestVals) (h : Handler) (endpoints : Option Endpoints) (w : Writer)
      → HaveCodes h.ops
      → let o = request_telemetry error_ops (route_telemetry error_ops vals h endpoints) w in
        let s = final_status h (with_hsts w) in
        (o.panicked ≡ false)
        × (status o.writer ≡ s)
        × (o.endpoints ≡ (
            if vals.disable_telemetry
            then endpoints
            else map_option (mark_response vals.method vals.path_template s) endpoints))
        × (count_if is_responding o.effects ≡ bit (h.panics && not (has_written h (with_hsts w))))
        × (count_if is_error_meter o.effects ≡ bit (not vals.disable_telemetry && ((s / 100) == 5)))
  unfolding request_telemetry route_telemetry
  request-status vals h endpoints w c =
      let st = recovered-status h (with_hsts w) c in
      let (w2, es) = recovered error_ops h.panics (run h.ops (with_hsts w)) in
      let (log_meter, log_responding) = recovered-effects h (with_hsts w) in
      let ds = route_done error_ops vals w2 in
      let (done_meter, done_responding) = route_done-effects vals w2 in
      elim (Bool-cases vals.disable_telemetry) [
        | inl e ↦ rw e (
          refl,
          st,
          refl,
          (spanned ([] ++ es) (status w2)).1 ∙ log_responding,
          (spanned ([] ++ es) (status w2)).0 ∙ log_meter,
        )
        | inr e ↦ rw e (
          refl,
          st,
          ap (λ s. map_option (mark_response vals.method vals.path_template s) endpoints) st,
          (spanned ((es ++ ds) ++ []) (status w2)).1
              ∙ omega (arith, (joined is_responding es ds).1, log_responding, done_responding),
          (spanned ((es ++ ds) ++ []) (status w2)).0
              ∙ omega (arith, (joined is_error_meter es ds).1, log_meter, done_meter)
              ∙ ap (λ s. bit ((s / 100) == 5)) st,
        )
      ]
