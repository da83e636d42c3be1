-- ===== src/Diagnostics/Tests.antt =====
-- The diagnostics endpoint at concrete requests.
use text.Mathlib.Text.{◌==◌ as str_eq}
use witchcraft_go_server.Base.{true, false, none, some, [], ◌∷◌, ◌≡◌, ◌↔◌, refl, String}
use witchcraft_go_server.Diagnostics.Types.{is_valid_type, read_all, start_place}
use witchcraft_go_server.Diagnostics.Types.Accepted.{Group, spell, read_all-accepts}
use witchcraft_go_server.Diagnostics.Handlers.{
  Handler, Runtime, ContentType, plain, media_type, conflict, diagnostic_handlers,
}
use witchcraft_go_server.Diagnostics.Resource.{
  DebugResource, Request, diagnostic, IsAdmitted, handler_for, serve_http,
  serve_http-diagnostic_iff,
}
use witchcraft_go_server.Diagnostics.Custom.{put_all}

abbrev busy : Runtime
busy = record { writes = λ s. true; starts = λ s. false; context_done = false }

abbrev custom_clock : Handler
custom_clock = record {
  type_name = "os.system.clock.v1";
  content_type = media_type "text/x-clock";
  safe_loggable = false;
  extension = "clk";
  write_diagnostic = none;
}

abbrev custom_thing : Handler
custom_thing = record custom_clock { type_name = "app.thing.v1" }

abbrev a_resource : DebugResource
a_resource = record {
  shared_secret = "s";
  diagnostic_handlers = diagnostic_handlers busy;
  custom_diagnostic_handlers = put_all (custom_clock ∷ custom_thing ∷ []) [];
}

abbrev a_request : String → Request
a_request t = record { token = some "s"; path_params = some (("diagnosticType", t) ∷ []) }

profile_conflict :
    serve_http str_eq a_resource (a_request "go.profile.cpu.1minute.v1")
    ≡ diagnostic ContentType.binary true (some (conflict "failed to start CPU profile"))
unfolding serve_http diagnostic_handlers put_all
profile_conflict = refl

serve_http-diagnostic_iff_example :
    (serve_http str_eq a_resource (a_request "os.system.clock.v1") ≡ diagnostic plain true none) ↔ (
      IsAdmitted str_eq "s" (some "s")
      × ((h : Handler) × (handler_for a_resource (a_request "os.system.clock.v1") ≡ some h)
          × (diagnostic h.content_type h.safe_loggable h.write_diagnostic
              ≡ diagnostic plain true none)))
serve_http-diagnostic_iff_example =
    serve_http-diagnostic_iff str_eq a_resource (a_request "os.system.clock.v1") plain true none

no_delimiter : is_valid_type "abv1" ≡ true
unfolding is_valid_type
no_delimiter = refl

upper_case : is_valid_type "App.thing.v1" ≡ false
unfolding is_valid_type
upper_case = refl

-- The name "ab_v1".
abbrev under_score : Group
under_score = record { first = b'a'; others = b'b' ∷ []; delimiter = b'_' }

read_all-accepts_example :
    (read_all (spell (under_score ∷ []) (b'v' ∷ b'1' ∷ [])) start_place).in_digits ≡ true
read_all-accepts_example = read_all-accepts under_score [] b'1' [] refl refl
