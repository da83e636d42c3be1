-- ===== src/FiveHundreds/Reporting/Listed.antt =====
-- Which endpoints the report lists.
use mathlib.Core.Path.{subst}
use text.Mathlib.TextEquality.{eq_iff}
use witchcraft_go_server.Base.{
  ℕ, ◌+◌, ◌≡◌, ◌∙◌, refl, Bool, false, not, ◌&&◌, Option, none, some, List, [], ◌∷◌, arith,
  if◌then◌else◌, ltb, String, contains, sort, contains-sort, length,
}
use witchcraft_go_server.Health.{healthy, warning}
use witchcraft_go_server.FiveHundreds.{
  Status, Endpoints, Report, is_error, shift_window, mark_endpoint, broken_endpoints,
  failing_endpoints, current_status, report,
}
use witchcraft_go_server.FiveHundreds.Windows.{after}
use witchcraft_go_server.FiveHundreds.Reporting.{
  lookup, lookup-mark_endpoint, lookup-shift_window, Call, mark, shift_all, served, was_called,
  events_of, lookup-served,
}

abbrev Unique : Endpoints → Type 0
Unique [] = Unit
Unique ((e, s) ∷ m) = (lookup e m ≡ none) × Unique m

Unique-mark_endpoint :
    (e : String) (code : ℕ) (m : Endpoints) → Unique m → Unique (mark_endpoint e code m)
unfolding mark_endpoint lookup
Unique-mark_endpoint e code [] u = (refl, tt)
Unique-mark_endpoint e code ((f, s) ∷ m) u = ground (
  arith,
  Unique-mark_endpoint e code m u.1,
  lookup-mark_endpoint e f code m,
  eq_iff f e,
  eq_iff e f,
)

Unique-shift_window : (m : Endpoints) → Unique m → Unique (shift_window m)
unfolding shift_window
Unique-shift_window [] u = tt
Unique-shift_window ((e, s) ∷ m) u =
    (ground (arith, lookup-shift_window e m), Unique-shift_window m u.1)

Unique-served : (cs : List Call) → Unique (served cs)
unfolding served
Unique-served [] = tt
Unique-served (mark e code ∷ cs) = Unique-mark_endpoint e code (served cs) (Unique-served cs)
Unique-served (shift_all ∷ cs) = Unique-shift_window (served cs) (Unique-served cs)

abbrev pub is_broken : Option Status → Bool
is_broken none = false
is_broken (some s) = is_error s && not s.had_success_ever

abbrev pub is_failing : Option Status → Bool
is_failing none = false
is_failing (some s) = is_error s && s.had_success_ever

contains-broken :
    (e : String) (m : Endpoints)
    → Unique m
    → contains e (broken_endpoints m) ≡ is_broken (lookup e m)
unfolding contains broken_endpoints lookup
contains-broken e [] u = refl
contains-broken e ((f, s) ∷ m) u = ground (arith, contains-broken e m u.1, eq_iff f e)

contains-failing :
    (e : String) (m : Endpoints)
    → Unique m
    → contains e (failing_endpoints m) ≡ is_failing (lookup e m)
unfolding contains failing_endpoints lookup
contains-failing e [] u = refl
contains-failing e ((f, s) ∷ m) u = ground (arith, contains-failing e m u.1, eq_iff f e)

-- The record that an endpoint has after some calls, if it has one.
abbrev pub entry : String → List Call → Option Status
entry e cs = if was_called e cs then some (after (events_of e cs)) else none

report_keeps :
    (always_healthy : Bool) (broken failing : List String) (e : String)
    → let r = report always_healthy broken failing in
      (contains e r.broken ≡ contains e broken)
      × (contains e r.failing ≡ contains e failing)
      × (r.state ≡ (
          if not always_healthy && ltb 0 (length r.broken + length r.failing)
          then warning
          else healthy))
unfolding report
report_keeps always_healthy [] [] e = ground arith
report_keeps always_healthy [] (f ∷ failing) e = ground arith
report_keeps always_healthy (b ∷ broken) [] e = ground arith
report_keeps always_healthy (b ∷ broken) (f ∷ failing) e = ground arith

listed :
    (always_healthy : Bool) (m : Endpoints) {r : Report} (e : String)
    → Unique m
    → current_status always_healthy m ≡ some r
    → (contains e r.broken ≡ is_broken (lookup e m))
      × (contains e r.failing ≡ is_failing (lookup e m))
      × (r.state ≡ (
          if not always_healthy && ltb 0 (length r.broken + length r.failing)
          then warning
          else healthy))
listed always_healthy [] e u h = unfold current_status in cc
listed always_healthy (p ∷ m) {r} e u h =
    let same : report always_healthy (sort (broken_endpoints (p ∷ m)))
          (sort (failing_endpoints (p ∷ m)))
        ≡ r =
      unfold current_status in cc in
    subst
      (λ (q : Report).
        (contains e q.broken ≡ is_broken (lookup e (p ∷ m)))
        × (contains e q.failing ≡ is_failing (lookup e (p ∷ m)))
        × (q.state ≡ (
            if not always_healthy && ltb 0 (length q.broken + length q.failing)
            then warning
            else healthy)))
      same
      (let k =
          report_keeps always_healthy (sort (broken_endpoints (p ∷ m)))
            (sort (failing_endpoints (p ∷ m))) e in
        (
          k.0 ∙ contains-sort e (broken_endpoints (p ∷ m)) ∙ contains-broken e (p ∷ m) u,
          k.1 ∙ contains-sort e (failing_endpoints (p ∷ m)) ∙ contains-failing e (p ∷ m) u,
          k.2,
        ))

-- Whatever was called, a report lists an endpoint as broken exactly when it was called, its windows
-- count as erring and it never succeeded, as failing exactly when it was called, is erring and has
-- succeeded; and it is a warning exactly when something is listed and the check is not configured
-- to be always healthy.
pub report_lists :
    (always_healthy : Bool) (cs : List Call) {r : Report} (e : String)
    → current_status always_healthy (served cs) ≡ some r
    → (contains e r.broken ≡ is_broken (entry e cs))
      × (contains e r.failing ≡ is_failing (entry e cs))
      × (r.state ≡ (
          if not always_healthy && ltb 0 (length r.broken + length r.failing)
          then warning
          else healthy))
report_lists always_healthy cs e h =
    rw (← lookup-served e cs) (listed always_healthy (served cs) e (Unique-served cs) h)
