-- ===== src/FiveHundreds/Tests.antt =====
-- The check of 500s at concrete calls.
use witchcraft_go_server.Base.{
  sort, ℕ, ◌+◌, ◌<◌, ◌≡◌, ◌↔◌, refl, true, false, not, ◌&&◌, some, List, [], ◌∷◌, get_elem?,
  contains, ltb, length, if◌then◌else◌,
}
use witchcraft_go_server.Health.{healthy, warning}
use witchcraft_go_server.FiveHundreds.{
  broken_endpoints, failing_endpoints, mark_code, shift, Report, is_error, current_status,
}
use witchcraft_go_server.FiveHundreds.Windows.{
  Event, response, tick, after, closed_windows, any_success, is_error_iff,
}
use witchcraft_go_server.FiveHundreds.Reporting.{Call, mark, shift_all, served}
use witchcraft_go_server.FiveHundreds.Reporting.Listed.{is_broken, is_failing, entry, report_lists}

abbrev five_bad : List Event
five_bad =
    tick
    ∷ response 500
    ∷ tick
    ∷ response 500
    ∷ tick
    ∷ response 404
    ∷ response 500
    ∷ tick
    ∷ response 500
    ∷ tick
    ∷ response 500
    ∷ response 200
    ∷ []

five_bad_errs : is_error (after five_bad) ≡ true
unfolding after is_error shift mark_code
five_bad_errs = refl

is_error_iff_example :
    ((is_error (after five_bad) ≡ true)
      ↔ ((i : ℕ) → i < 5 → get_elem? (closed_windows five_bad) i ≡ some true))
    × ((after five_bad).had_success_ever ≡ any_success five_bad)
is_error_iff_example = is_error_iff five_bad

abbrev calls : List Call
calls =
    shift_all
    ∷ mark "GET /a" 500
    ∷ shift_all
    ∷ mark "GET /a" 500
    ∷ shift_all
    ∷ mark "GET /a" 500
    ∷ shift_all
    ∷ mark "GET /a" 500
    ∷ shift_all
    ∷ mark "GET /b" 404
    ∷ mark "GET /a" 500
    ∷ []

abbrev one_broken : Report
one_broken = record {
  state = warning;
  has_message = true;
  has_broken_line = true;
  broken = "GET /a" ∷ [];
  failing = [];
}

reported : current_status false (served calls) ≡ some one_broken
unfolding current_status served sort failing_endpoints broken_endpoints
reported = refl

report_lists_example :
    (contains "GET /a" one_broken.broken ≡ is_broken (entry "GET /a" calls))
    × (contains "GET /a" one_broken.failing ≡ is_failing (entry "GET /a" calls))
    × (one_broken.state ≡ (
        if not false && ltb 0 (length one_broken.broken + length one_broken.failing)
        then warning
        else healthy))
report_lists_example = report_lists false calls "GET /a" reported
