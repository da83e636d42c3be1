-- ===== src/FiveHundreds/Reporting.antt =====
-- The map of endpoints against the calls that were made, and the report that is drawn from it.
pub mod Listed
use text.Mathlib.Text.{◌==◌ as str_eq}
use text.Mathlib.TextEquality.{eq_iff}
use witchcraft_go_server.Base.{
  ℕ, ◌≡◌, refl, Bool, false, Option, none, some, List, [], ◌∷◌, arith, if◌then◌else◌, ◌||◌, String,
}
use witchcraft_go_server.FiveHundreds.{
  Status, Endpoints, new_status, shift, shift_window, mark_code, mark_endpoint,
}
use witchcraft_go_server.FiveHundreds.Windows.{Event, response, tick, after}

pub lookup : String → Endpoints → Option Status
lookup e [] = none
lookup e ((f, s) ∷ m) = if str_eq f e then some s else lookup e m

-- What LoadOrStore returns.
abbrev or_new : Option Status → Status
or_new none = new_status
or_new (some s) = s

lookup-mark_endpoint :
    (e j : String) (code : ℕ) (m : Endpoints)
    → lookup j (mark_endpoint e code m)
      ≡ (if str_eq e j then some (mark_code code (or_new (lookup e m))) else lookup j m)
unfolding lookup mark_endpoint
lookup-mark_endpoint e j code [] = refl
lookup-mark_endpoint e j code ((f, s) ∷ m) =
    ground (arith, eq_iff f e, eq_iff f j, eq_iff e j, lookup-mark_endpoint e j code m)

abbrev map_shift : Option Status → Option Status
map_shift none = none
map_shift (some s) = some (shift s)

lookup-shift_window :
    (e : String) (m : Endpoints) → lookup e (shift_window m) ≡ map_shift (lookup e m)
unfolding lookup shift_window
lookup-shift_window e [] = refl
lookup-shift_window e ((f, s) ∷ m) = ground (arith, lookup-shift_window e m)

-- A call of MarkResponse with the name of an endpoint, or a tick.
pub data Call : Type 0 where
  mark : String → ℕ → Call
  shift_all : Call

-- The map after some calls, the latest first.
unfoldable pub served : List Call → Endpoints
unfolding mark_endpoint shift_window
served [] = []
served (mark e code ∷ cs) = mark_endpoint e code (served cs)
served (shift_all ∷ cs) = shift_window (served cs)

-- What the calls were to one endpoint.
pub events_of : String → List Call → List Event
events_of e [] = []
events_of e (mark f code ∷ cs) =
    if str_eq f e then response code ∷ events_of e cs else events_of e cs
events_of e (shift_all ∷ cs) = tick ∷ events_of e cs

pub was_called : String → List Call → Bool
was_called e [] = false
was_called e (mark f code ∷ cs) = str_eq f e || was_called e cs
was_called e (shift_all ∷ cs) = was_called e cs

shift_new : shift new_status ≡ new_status
unfolding shift
shift_new = refl

after-uncalled :
    (e : String) (cs : List Call) → was_called e cs ≡ false → after (events_of e cs) ≡ new_status
unfolding after events_of was_called
after-uncalled e [] h = refl
after-uncalled e (mark f code ∷ cs) h = ground (arith, after-uncalled e cs)
after-uncalled e (shift_all ∷ cs) h = rw (after-uncalled e cs h) shift_new

-- Whatever was called, an endpoint has an entry exactly when it was called, and the entry is what
-- its own responses and the ticks make of a new status: endpoints do not affect one another, and
-- ticks from before its first response do not count.
pub lookup-served :
    (e : String) (cs : List Call)
    → lookup e (served cs) ≡ (if was_called e cs then some (after (events_of e cs)) else none)
unfolding lookup served was_called events_of after
lookup-served e [] = refl
lookup-served e (mark f code ∷ cs) = ground (
  arith,
  lookup-mark_endpoint f e code (served cs),
  lookup-served e cs,
  eq_iff f e,
  after-uncalled e cs,
)
lookup-served e (shift_all ∷ cs) =
    ground (arith, lookup-shift_window e (served cs), lookup-served e cs)
