-- ===== src/Status/Tests.antt =====
-- The health endpoint at concrete statuses.
use witchcraft_go_server.Base.{ℕ, none, some, List, [], ◌∷◌, ◌≡◌, refl, ◌↔◌, false, String}
use text.Mathlib.Text.{◌==◌ as str_eq}
use witchcraft_go_server.Health.{HealthState, Checks, healthy, warning}
use witchcraft_go_server.Status.{
  find_check, checks_differ, Handler, HealthHandler, custom, serve_http, answer,
}
use witchcraft_go_server.Status.Changes.{checks_differ_iff}
use witchcraft_go_server.Status.Changes.Requests.{
  Request, run, admitted, changes, last, run-changes,
}

abbrev before : Checks HealthState
before = ("A", healthy) ∷ ("B", warning) ∷ []

abbrev reordered : Checks HealthState
reordered = ("B", warning) ∷ ("A", healthy) ∷ []

-- A status code for the tests: 200 for no checks, else 521.
abbrev code : Checks HealthState → ℕ
code [] = 200
code (c ∷ cs) = 521

abbrev custom_handler : Handler
custom_handler previous curr = custom 1 ∷ []

abbrev a_handler : HealthHandler
a_handler = record { previous_health = []; change_handler = custom_handler }

abbrev requests : List Request
requests =
    ("s", some "s", before)
    ∷ ("s", none, [])
    ∷ ("s", some "t", [])
    ∷ ("", none, reordered)
    ∷ ("", none, [])
    ∷ []

two_changes : (run code str_eq requests a_handler).1 ≡ custom 1 ∷ custom 1 ∷ []
unfolding run serve_http answer checks_differ find_check
two_changes = refl

run-changes_example :
    let ms = admitted code str_eq requests in
    ((run code str_eq requests a_handler).0.previous_health ≡ last [] ms)
    × ((run code str_eq requests a_handler).0.change_handler ≡ custom_handler)
    × ((run code str_eq requests a_handler).1 ≡ changes custom_handler [] ms)
run-changes_example = run-changes code str_eq requests a_handler

checks_differ_iff_example :
    (checks_differ before reordered ≡ false)
    ↔ ((k : String) → find_check k before ≡ find_check k reordered)
unfolding find_check
checks_differ_iff_example = checks_differ_iff before reordered (refl, (refl, tt)) (refl, (refl, tt))
