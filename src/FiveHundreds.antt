-- ===== src/FiveHundreds.antt =====
-- The ENDPOINT_FIVE_HUNDREDS check: witchcraft/internal/middleware/endpoint_five_hundreds.go.
pub mod Windows
pub mod Reporting
pub mod Ticker
mod Tests
use Prim.Native.String.{◌++◌ as str_append}
use text.Mathlib.Text.{◌==◌ as str_eq}
use witchcraft_go_server.Base.{
  sort, ℕ, suc, zero, ◌≡◌, ◌++◌, Bool, true, false, Option, none, some, List, [], ◌∷◌, String,
  if◌then◌else◌, ◌==◌, ltb, length, ◌||◌, set, get_elem?, map,
}
use witchcraft_go_server.Health.{HealthState, healthy, warning}

abbrev pub window_count : ℕ
window_count = 5

-- `windows` has 1 + window_count entries, the current window first.
pub record Status : Type 0 where
  pub windows : List Bool
  pub had_success_ever : Bool

abbrev pub new_status : Status
new_status = record {
  windows = false ∷ false ∷ false ∷ false ∷ false ∷ false ∷ [];
  had_success_ever = false;
}

unfoldable pub mark_error : Status → Status
mark_error s = record s { windows = set s.windows 0 true }

unfoldable pub mark_success : Status → Status
mark_success s = record { windows = set s.windows 0 false; had_success_ever = true }

-- The loop of isError from index 1: false at the first window that is false.
all_true : List Bool → Bool
all_true [] = true
all_true (w ∷ ws) = if w then all_true ws else false

abbrev tail : List Bool → List Bool
tail [] = []
tail (w ∷ ws) = ws

unfoldable pub is_error : Status → Bool
unfolding all_true
is_error s = all_true (tail s.windows)

abbrev get_or_false : List Bool → ℕ → Bool
get_or_false ws i = elim (get_elem? ws i) [ none ↦ false | some w ↦ w ]

-- for i := n; i > 0; i-- { windows[i] = windows[i-1] }
shift_loop : ℕ → List Bool → List Bool
shift_loop zero ws = ws
shift_loop (suc i) ws = shift_loop i (set ws (suc i) (get_or_false ws i))

unfoldable pub shift : Status → Status
unfolding shift_loop
shift s = record s { windows = set (shift_loop window_count s.windows) 0 false }

-- What MarkResponse does to the status of its endpoint.
unfoldable pub mark_code : ℕ → Status → Status
unfolding mark_error mark_success
mark_code code s = if code == 500 then mark_error s else if ltb code 400 then mark_success s else s

-- The sync.Map, from "METHOD template" to the status; an endpoint has one entry.
abbrev pub Endpoints : Type 0
Endpoints = List (String × Status)

-- LoadOrStore of a new status, and the marking of what it returns.
unfoldable pub mark_endpoint : String → ℕ → Endpoints → Endpoints
unfolding mark_code
mark_endpoint e code [] = (e, mark_code code new_status) ∷ []
mark_endpoint e code ((f, s) ∷ m) =
    if str_eq f e then (f, mark_code code s) ∷ m else (f, s) ∷ mark_endpoint e code m

unfoldable pub endpoint_name : String → String → String
endpoint_name method path_template = str_append method (str_append " " path_template)

unfoldable pub mark_response : String → String → ℕ → Endpoints → Endpoints
mark_response method path_template code m =
    mark_endpoint (endpoint_name method path_template) code m

unfoldable pub shift_window : Endpoints → Endpoints
unfolding shift
shift_window [] = []
shift_window ((e, s) ∷ m) = (e, shift s) ∷ shift_window m

-- What `currentStatus` reports, but for the fixed texts of the message: whether it has the message
-- about the rolling period, and the line about broken endpoints.
pub record Report : Type 0 where
  pub state : HealthState
  pub has_message : Bool
  pub has_broken_line : Bool
  pub broken : List String
  pub failing : List String

-- The endpoints that the Range appends: broken are those with no success ever.
unfoldable pub broken_endpoints : Endpoints → List String
unfolding is_error
broken_endpoints [] = []
broken_endpoints ((e, s) ∷ m) =
    let rest = broken_endpoints m in
    if is_error s then (if s.had_success_ever then rest else e ∷ rest) else rest

unfoldable pub failing_endpoints : Endpoints → List String
unfolding is_error
failing_endpoints [] = []
failing_endpoints ((e, s) ∷ m) =
    let rest = failing_endpoints m in
    if is_error s then (if s.had_success_ever then e ∷ rest else rest) else rest

-- The result of `currentStatus` from the two sorted lists.
unfoldable pub report : Bool → List String → List String → Report
report always_healthy broken failing =
    if ltb 0 (length failing) || ltb 0 (length broken)
    then record {
      state = if always_healthy then healthy else warning;
      has_message = true;
      has_broken_line = ltb 0 (length broken);
      broken = broken;
      failing = failing;
    }
    else record {
      state = healthy;
      has_message = false;
      has_broken_line = false;
      broken = [];
      failing = [];
    }

-- `none` where no endpoint has been called.
unfoldable pub current_status : Bool → Endpoints → Option Report
unfolding report
current_status always_healthy [] = none
current_status always_healthy (p ∷ m) =
    some
      (report always_healthy (sort (broken_endpoints (p ∷ m))) (sort (failing_endpoints (p ∷ m))))
