-- ===== src/Telemetry/Tests.antt =====
-- The middlewares at concrete handlers.
use witchcraft_go_server.Base.{
  String, ◌/◌, ◌==◌, ◌&&◌, not, true, false, some, List, [], ◌∷◌, ◌≡◌, refl, arith, bit, count_if,
}
use witchcraft_go_server.FiveHundreds.{mark_response}
use witchcraft_go_server.Telemetry.Identifiers.{Ids}
use witchcraft_go_server.Telemetry.Writer.{
  Op, write_op, header_op, flush_op, set_op, Writer, new_response_writer, run, status,
}
use witchcraft_go_server.Telemetry.Writer.Sent.{first_header, first_code, writer_sends}
use witchcraft_go_server.Telemetry.Writer.Outputs.{last_code, header_first}
use witchcraft_go_server.Telemetry.Middleware.{
  Handler, RequestVals, route_telemetry, request_telemetry,
}
use witchcraft_go_server.Telemetry.Middleware.Panics.{
  final_status, with_hsts, has_written, is_responding, is_error_meter, request-status,
}

abbrev some_ops : List Op
some_ops =
    set_op "Content-Type" "text/plain" ∷ write_op 3 ∷ header_op 404 ∷ flush_op ∷ write_op 4 ∷ []

writer_sends_example :
    let w = run some_ops (new_response_writer true) in
    (first_header w.out ≡ first_code true some_ops)
    × (status w ≡ last_code 200 some_ops)
    × (w.size ≡ 7)
    × (header_first w.out ≡ true)
writer_sends_example = writer_sends true some_ops (tt, (tt, (ground arith, (tt, (tt, tt)))))

two_statuses : (first_code true some_ops ≡ some 200) × (last_code 200 some_ops ≡ 404)
unfolding first_code
two_statuses = (refl, refl)

abbrev error_ops : List Op
error_ops = header_op 500 ∷ write_op 20 ∷ []

abbrev panicking : Handler
panicking = record { ops = set_op "A" "b" ∷ []; panics = true }

abbrev vals : RequestVals
vals = record { disable_telemetry = false; method = "GET"; path_template = "/a"; has_tracer = true }

abbrev a_writer : Writer
a_writer = new_response_writer true

five_hundred :
    status
      (request_telemetry error_ops
        (route_telemetry error_ops vals panicking (some []))
        a_writer).writer
    ≡ 500
unfolding run request_telemetry route_telemetry
five_hundred = refl

request-status_example :
    let o =
      request_telemetry error_ops (route_telemetry error_ops vals panicking (some [])) a_writer in
    let s = final_status panicking (with_hsts a_writer) in
    (o.panicked ≡ false)
    × (status o.writer ≡ s)
    × (o.endpoints ≡ some (mark_response "GET" "/a" s []))
    × (count_if is_responding o.effects
        ≡ bit (true && not (has_written panicking (with_hsts a_writer))))
    × (count_if is_error_meter o.effects ≡ bit (true && ((s / 100) == 5)))
request-status_example =
    request-status error_ops (ground arith, (tt, tt)) (λ d. refl) vals panicking (some []) a_writer
      (tt, tt)

abbrev forwarded_ids : Ids
forwarded_ids = record {
  uid = "u";
  sid = "";
  token_id = "t";
  org_id = "";
  user_agent = "curl";
  source_ip = "10.0.0.1";
  forward_ips = "1.2.3.4";
}

abbrev one_origin : String → List String
one_origin s = s ∷ []

abbrev first_origin : List String → String → String
first_origin [] ip = ip
first_origin (o ∷ os) ip = o
