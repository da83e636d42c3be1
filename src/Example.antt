-- ===== src/Example.antt =====
-- The example of a server: app_example/main.go, its init function with the two routes, and the
-- background job that it starts. A value that httpserver.WriteJSONResponse writes is a number; the
-- errors of the router are a parameter.
pub mod Runs
mod Tests
use mathlib.Core.Path.{subst}
use text.Mathlib.Text.{◌==◌ as str_eq}
use witchcraft_go_server.Base.{
  Option-cases, ℕ, zero, suc, ◌+◌, ◌≤◌, Bool, true, false, Option, none, some, List, [], ◌∷◌, ◌++◌,
  String, if◌then◌else◌, ◌≡◌, ◌⊎◌, inl, inr, refl, arith,
}

-- AppInstallConfig and AppRuntimeConfig, of which the example reads one number each.
pub record AppInstallConfig : Type 0 where
  pub my_num : ℕ

pub record AppRuntimeConfig : Type 0 where
  pub my_num : ℕ

-- A handler answers a request with a number, given the runtime configuration of that moment.
abbrev pub NumHandler : Type 0
NumHandler = AppRuntimeConfig → ℕ

abbrev pub Router : Type 0
Router = List (String × NumHandler)

-- What the router makes of a route; none is that it took it.
abbrev pub taken : {Err : Type 0} → Option Err → Router → Err ⊎ Router
taken none router = inr router
taken (some e) router = inl e

abbrev pub get :
    {Err : Type 0} → (String → Option Err) → String → NumHandler → Router → Err ⊎ Router
get registers path handler router = taken (registers path) (router ++ ((path, handler) ∷ []))

abbrev pub register_install_num_endpoint :
    {Err : Type 0} → (String → Option Err) → ℕ → Router → Err ⊎ Router
register_install_num_endpoint registers num router =
    get registers "/installNum" (λ current. num) router

abbrev pub register_runtime_num_endpoint :
    {Err : Type 0} → (String → Option Err) → (AppRuntimeConfig → ℕ) → Router → Err ⊎ Router
register_runtime_num_endpoint registers num_provider router =
    get registers "/runtimeNum" num_provider router

-- The init function up to the background job.
unfoldable pub init_fn :
    {Err : Type 0} → (String → Option Err) → AppInstallConfig → Router → Err ⊎ Router
init_fn registers install router =
    elim (register_install_num_endpoint registers install.my_num router) [
      | inl e ↦ inl e
      | inr router' ↦ register_runtime_num_endpoint registers (λ current. current.my_num) router'
    ]

unfoldable pub serve : Router → String → AppRuntimeConfig → Option ℕ
serve [] path current = none
serve ((p, handler) ∷ router) path current =
    if str_eq path p then some (handler current) else serve router path current

-- The background job. A tick that finds one in the channel is dropped; `span` is the span of the
-- captured context, which the job assigns.
pub record Job : Type 0 where
  pub cancelled : Bool
  pub pending : Bool
  pub span : Option ℕ
  pub started : ℕ
  pub lines : List (Option ℕ)
  pub finished : List ℕ

abbrev pub new_job : Job
new_job = record {
  cancelled = false;
  pending = false;
  span = none;
  started = 0;
  lines = [];
  finished = [];
}

-- The function that a tick calls.
unfoldable pub run_tick : Bool → Job → Job
run_tick true j = record j {
  span = some j.started;
  started = suc j.started;
  lines = j.lines ++ (some j.started ∷ []);
  finished = j.finished ++ (j.started ∷ []);
}
run_tick false j = record j { lines = j.lines ++ (j.span ∷ []) }

-- The ticker and the context, and the cases of the select statement.
pub data Event : Type 0 where
  fires cancels takes_tick takes_done : Event

-- Whether an event can happen: a case of the select statement when its channel is ready.
unfoldable pub is_ready : Event → Job → Bool
is_ready fires j = true
is_ready cancels j = true
is_ready takes_tick j = j.pending
is_ready takes_done j = j.cancelled

-- What an event that can happen does; no case leaves the loop.
unfoldable pub do_event : Bool → Event → Job → Job
unfolding run_tick
do_event has_tracer fires j = record j { pending = true }
do_event has_tracer cancels j = record j { cancelled = true }
do_event has_tracer takes_tick j = run_tick has_tracer (record j { pending = false })
do_event has_tracer takes_done j = j

-- A run of the job; none is an event that cannot happen.
unfoldable pub run_job : Bool → List Event → Job → Option Job
unfolding do_event is_ready
run_job has_tracer [] j = some j
run_job has_tracer (e ∷ es) j =
    let rest = run_job has_tracer es (do_event has_tracer e j) in
    if is_ready e j then rest else none

abbrev pub both_routes : AppInstallConfig → Router
both_routes install =
    ("/installNum", λ current. install.my_num) ∷ ("/runtimeNum", λ current. current.my_num) ∷ []

init_fn_lem :
    {Err : Type 0} (registers : String → Option Err) (install : AppInstallConfig) (router : Router)
    → init_fn registers install [] ≡ inr router
    → both_routes install ≡ router
unfolding init_fn
init_fn_lem registers install router h = elim (Option-cases (registers "/installNum")) [
  | inl a ↦ elim (Option-cases (registers "/runtimeNum")) [
    | inl b ↦
        let r : init_fn registers install [] ≡ inr (both_routes install) =
          rw (init_fn, a, b) refl in
        cc
    | inr (e, b) ↦
        absurd (let r : init_fn registers install [] ≡ inl e = rw (init_fn, a, b) refl in cc)
  ]
  | inr (e, a) ↦ absurd (let r : init_fn registers install [] ≡ inl e = rw (init_fn, a) refl in cc)
]

-- If the init function returns without an error from a new router, the router answers /installNum
-- with the number of the install configuration, whatever is reloaded, and /runtimeNum with that of
-- the runtime configuration in force.
pub init_fn-serves :
    {Err : Type 0} (registers : String → Option Err) (install : AppInstallConfig) (router : Router)
    (current : AppRuntimeConfig)
    → init_fn registers install [] ≡ inr router
    → (serve router "/installNum" current ≡ some install.my_num)
      × (serve router "/runtimeNum" current ≡ some current.my_num)
unfolding init_fn serve
init_fn-serves registers install router current h =
    subst
      (λ r.
        (serve r "/installNum" current ≡ some install.my_num)
        × (serve r "/runtimeNum" current ≡ some current.my_num))
      (init_fn_lem registers install router h) (refl, refl)
