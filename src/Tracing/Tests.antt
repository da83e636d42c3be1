-- ===== src/Tracing/Tests.antt =====
-- The default rate of the application, one hundredth as a float64, at two ids.
use witchcraft_go_server.Base.{
  ◌==◌, ◌||◌, false, if◌then◌else◌, ◌+◌, ℕ, Option, String, ◌≡◌, ◌↔◌, true, false, some, none, refl,
  arith,
}
use witchcraft_go_server.Telemetry.Middleware.{RequestVals}
use witchcraft_go_server.Tracing.Requests.{
  Request, request_chain, request_span, IsChained, request_chain-IsChained, new_request_trace_span,
  new_route_log_trace_span,
}
use witchcraft_go_server.Tracing.Options.{
  Ip, Install, get_application_tracing_options, get_management_tracing_options, IsSampled, rate_or,
  default_sample_rate, tracing_options-IsSampled,
}
use witchcraft_go_server.Tracing.{
  not_positive, fraction, never_sample, get_sampling_trace_option, trace_sampler_from_sample_rate,
}

sampled_low :
    trace_sampler_from_sample_rate (fraction 5764607523034235 59) 184467440737095500 ≡ true
unfolding trace_sampler_from_sample_rate
sampled_low = refl

not_sampled :
    get_sampling_trace_option none never_sample
      (some (fraction 5764607523034235 59))
      184467440737095530
    ≡ false
unfolding get_sampling_trace_option
not_sampled = refl

abbrev no_ip : String → Option Ip
no_ip address = none

abbrev test_install : Install
test_install = record {
  product_name = "product";
  address = "localhost";
  port = 8443;
  management_port = 8444;
  trace_sample_rate = some (fraction 1 2);
  management_trace_sample_rate = none;
}

tracing_options-IsSampled_example :
    (((get_application_tracing_options no_ip none test_install).sampler 3 ≡ true)
      ↔ IsSampled (rate_or test_install.trace_sample_rate default_sample_rate) 3)
    × (((get_management_tracing_options no_ip none test_install).sampler 3 ≡ true)
        ↔ IsSampled (rate_or test_install.management_trace_sample_rate not_positive) 3)
tracing_options-IsSampled_example = tracing_options-IsSampled no_ip test_install 3 (omega arith)

-- A span context, and headers: the ids of the trace, of the span and of its parent, where 0 is an
-- empty id or none. A parent's id that is in the headers stays if the span has no parent.
abbrev Ids : Type 0
Ids = ℕ × ℕ × ℕ

abbrev extracted : Ids → Ids
extracted headers = headers

abbrev injected : Ids → Ids → Ids
injected (trace, span, parent) (t, s, p) =
    if trace == 0 || span == 0 then (t, s, p) else (trace, span, if parent == 0 then p else parent)

abbrev read_ids : Ids → ℕ × ℕ
read_ids (trace, span, parent) = (trace, span)

abbrev IsWritten : Ids → Type 0
IsWritten (trace, span, parent) = (trace == 0 || span == 0) ≡ false

ids_read_back : (s h : Ids) → IsWritten s → read_ids (extracted (injected s h)) ≡ read_ids s
ids_read_back (trace, span, parent) (t, s, p) w = rw w refl

abbrev start_child : ℕ → Ids → Ids × ℕ
start_child ctx (trace, span, parent) = ((if trace == 0 then 99 else trace, span + 1, span), ctx)

abbrev start_route_child : String → Ids → Ids
start_route_child name (trace, span, parent) = (if trace == 0 then 99 else trace, span + 10, span)

route_IsWritten : (name : String) (parent : Ids) → IsWritten (start_route_child name parent)
route_IsWritten name (trace, span, parent) = ground arith

abbrev hold : ℕ → Ids → ℕ
hold ctx span = ctx

abbrev test_request : Request Ids ℕ
test_request = record { headers = (7, 3, 2); method = "GET"; user_agent = "curl"; ctx = 0 }

abbrev test_vals : RequestVals
test_vals = record {
  disable_telemetry = false;
  method = "GET";
  path_template = "/users";
  has_tracer = true;
}

request_chain-IsChained_example :
    IsChained extracted injected start_child start_route_child hold read_ids IsWritten ids_read_back
      test_vals test_request
unfolding request_span
request_chain-IsChained_example =
    request_chain-IsChained extracted injected start_child start_route_child hold read_ids IsWritten
      ids_read_back test_vals test_request refl (route_IsWritten "GET /users")

handler_headers :
    (request_chain extracted injected start_child start_route_child hold test_vals
      test_request).0.headers
    ≡ (7, 14, 4)
unfolding request_chain new_request_trace_span new_route_log_trace_span
handler_headers = refl
