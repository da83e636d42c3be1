-- ===== src/Routes/Registration.antt =====
-- initRouters, createRouter, addPprofRoutes and addRoutes of witchcraft/server_routes.go, with
-- status/routes/routes.go.
use text.Mathlib.Text.{◌==◌ as str_eq}
use text.Mathlib.TextLemmas.{append_assoc, nil-append}
use Prim.Native.String.{◌++◌ as str_append}
use witchcraft_go_server.Base.{
  ◌↔◌, ℕ, Bool, true, false, not, ◌&&◌, Bool-cases, Option, none, some, List, [], ◌∷◌, ◌++◌, String,
  if◌then◌else◌, ◌==◌, ◌≡◌, inl, inr, refl, ap, ◌∙◌, arith, map,
}

-- The fields of the install configuration that the routers depend on.
pub record ServerConfig : Type 0 where
  pub port : ℕ
  pub management_port : ℕ
  pub context_path : String

pub data Root : Type 0 where
  main_root management_root : Root

-- A router of wrouter: its root router, and the path under which it registers.
pub record Router : Type 0 where
  pub root : Root
  pub prefix : String

abbrev pub subrouter : String → Router → Router
subrouter path r = record r { prefix = str_append r.prefix path }

abbrev pub new_router : Root → Router
new_router root = record { root = root; prefix = "" }

-- createRouter, over a new root router.
unfoldable pub create_router : Root → String → Router
create_router root ctx_path =
    if not (str_eq ctx_path "/") then subrouter ctx_path (new_router root) else new_router root

unfoldable pub is_separate : ServerConfig → Bool
is_separate cfg = not (cfg.management_port == 0) && not (cfg.management_port == cfg.port)

-- initRouters: the router of the application, and that of the management routes.
unfoldable pub init_routers : ServerConfig → Router × Router
unfolding create_router is_separate
init_routers cfg =
    let router = create_router main_root cfg.context_path in
    (router, if is_separate cfg then create_router management_root cfg.context_path else router)

-- A route that a root router has; all of them are GET routes here.
abbrev pub Route : Type 0
Route = Root × String

abbrev pub route : Router → String → Route
route r path = (r.root, str_append r.prefix path)

-- An error as Start returns it: as it came, or wrapped.
pub data Failure : Type 0 where
  returned : Failure
  wrapped : String → Failure

-- What happens in turn: a registration, or a check, with what its error becomes.
pub data Step : Type 0 where
  get : Route → Failure → Step
  check : Bool → Failure → Step

-- The routes that are registered, up to the first error, and this error. `registers` says whether
-- the router takes a route.
unfoldable pub register_all : (Route → Bool) → List Step → List Route × Option Failure
register_all registers [] = ([], none)
register_all registers (get r e ∷ steps) =
    let rest = register_all registers steps in
    if registers r then (r ∷ rest.0, rest.1) else ([], some e)
register_all registers (check passes e ∷ steps) =
    let rest = register_all registers steps in if passes then rest else ([], some e)

abbrev debug_failed : Failure
debug_failed = wrapped "failed to register debugging routes"

abbrev diagnostics_failed : Failure
diagnostics_failed = wrapped "failed to register WitchcraftDebugService"

-- addPprofRoutes
unfoldable pub pprof_steps : Router → List Step
pprof_steps r =
    let debugger = subrouter "/debug" r in
    get (route debugger "/pprof/") debug_failed
    ∷ get (route debugger "/pprof/cmdline") debug_failed
    ∷ get (route debugger "/pprof/profile") debug_failed
    ∷ get (route debugger "/pprof/symbol") debug_failed
    ∷ get (route debugger "/pprof/trace") debug_failed
    ∷ get (route debugger "/pprof/heap") debug_failed
    ∷ []

-- The routes of status/routes/routes.go, with what Start's addRoutes makes of an error.
abbrev pub add_health_routes : Router → Step
add_health_routes r = get (route r "/status/health") (wrapped "failed to register health routes")

abbrev pub add_liveness_routes : Router → Step
add_liveness_routes r =
    get (route r "/status/liveness") (wrapped "failed to register liveness routes")

abbrev pub add_readiness_routes : Router → Step
add_readiness_routes r =
    get (route r "/status/readiness") (wrapped "failed to register readiness routes")

-- addRoutes: the secret, the types of the custom diagnostics, and the routes of the diagnostics and
-- of the status.
unfoldable pub status_steps : Bool → Bool → Router → List Step
status_steps has_secret valid_types r =
    check has_secret returned
    ∷ check valid_types diagnostics_failed
    ∷ get (route r "/debug/diagnostic/{diagnosticType}") diagnostics_failed
    ∷ add_health_routes r
    ∷ add_liveness_routes r
    ∷ add_readiness_routes r
    ∷ []

-- The steps of Start on the routers, less those of the application's initialization.
unfoldable pub start_steps : ServerConfig → Bool → Bool → List Step
unfolding init_routers pprof_steps status_steps
start_steps cfg has_secret valid_types =
    let (router, mgmt_router) = init_routers cfg in
    (if is_separate cfg then pprof_steps mgmt_router else [])
    ++ status_steps has_secret valid_types mgmt_router

-- The routes from the front that are taken, up to the first that is not.
unfoldable pub take_while : (Route → Bool) → List Route → List Route
take_while p [] = []
take_while p (r ∷ rs) = let rest = take_while p rs in if p r then r ∷ rest else []

unfoldable pub all_taken : (Route → Bool) → List Route → Bool
all_taken p [] = true
all_taken p (r ∷ rs) = p r && all_taken p rs

-- The routes of the steps before the first check that fails, and whether there is no such check.
unfoldable reachable : List Step → List Route
reachable [] = []
reachable (get r e ∷ steps) = r ∷ reachable steps
reachable (check passes e ∷ steps) = let rest = reachable steps in if passes then rest else []

unfoldable all_pass : List Step → Bool
all_pass [] = true
all_pass (get r e ∷ steps) = all_pass steps
all_pass (check passes e ∷ steps) = passes && all_pass steps

register_all-routes :
    (registers : Route → Bool) (steps : List Step)
    → (register_all registers steps).0 ≡ take_while registers (reachable steps)
unfolding register_all reachable take_while
register_all-routes registers [] = refl
register_all-routes registers (get r e ∷ steps) =
    let rest = register_all-routes registers steps in
    elim (Bool-cases (registers r)) [ inl b ↦ ground (arith, rest) | inr b ↦ ground arith ]
register_all-routes registers (check true e ∷ steps) = register_all-routes registers steps
register_all-routes registers (check false e ∷ steps) = refl

register_all-error :
    (registers : Route → Bool) (steps : List Step)
    → ((register_all registers steps).1 ≡ none)
      ↔ (all_pass steps && all_taken registers (reachable steps) ≡ true)
unfolding register_all reachable all_taken all_pass
register_all-error registers [] = (λ h. refl, λ h. refl)
register_all-error registers (get r e ∷ steps) =
    let rest = register_all-error registers steps in
    elim (Bool-cases (registers r)) [
      | inl b ↦ rw b rest
      | inr b ↦ (λ h. absurd (ground arith), λ h. absurd (ground arith))
    ]
register_all-error registers (check true e ∷ steps) = register_all-error registers steps
register_all-error registers (check false e ∷ steps) = (λ h. absurd (cc), λ h. absurd (cc))

-- The paths of the server under its context path, those of pprof among them or not.
abbrev pub pprof_paths : List String
pprof_paths =
    "/debug/pprof/" ∷ "/debug/pprof/cmdline" ∷ "/debug/pprof/profile" ∷ "/debug/pprof/symbol"
    ∷ "/debug/pprof/trace" ∷ "/debug/pprof/heap" ∷ []

abbrev pub status_paths : List String
status_paths =
    "/debug/diagnostic/{diagnosticType}" ∷ "/status/health" ∷ "/status/liveness"
    ∷ "/status/readiness" ∷ []

-- The router that the routes of the server are on: that of the management port if it is separate,
-- under the context path, unless that is the root.
abbrev pub server_router : ServerConfig → Router
server_router cfg = record {
  root = if is_separate cfg then management_root else main_root;
  prefix = if not (str_eq cfg.context_path "/") then cfg.context_path else "";
}

create_router-root :
    (root : Root) (ctx_path : String)
    → create_router root ctx_path
      ≡ record { root = root; prefix = if not (str_eq ctx_path "/") then ctx_path else "" }
unfolding create_router
create_router-root root ctx_path = elim (Bool-cases (str_eq ctx_path "/")) [
  | inl e ↦ rw e
  | inr e ↦ rw (e, nil-append ctx_path)
]

router_of : (cfg : ServerConfig) → (init_routers cfg).1 ≡ server_router cfg
unfolding init_routers
router_of cfg = elim (Bool-cases (is_separate cfg)) [
  | inl s ↦ rw s (create_router-root management_root cfg.context_path)
  | inr s ↦ rw s (create_router-root main_root cfg.context_path)
]

-- The routes of the server up to the two checks, of the secret and of the types of the custom
-- diagnostics, and those after them, if both pass.
unfoldable pub server_routes : ServerConfig → Bool → List Route
server_routes cfg checks_pass =
    map (route (server_router cfg))
      ((if is_separate cfg then pprof_paths else []) ++ (if checks_pass then status_paths else []))

reachable-steps :
    (with_pprof has_secret valid_types : Bool) (r : Router)
    → reachable
        ((if with_pprof then pprof_steps r else []) ++ status_steps has_secret valid_types r)
      ≡ map (route r) (
          (if with_pprof then pprof_paths else [])
          ++ (if has_secret && valid_types then status_paths else []))
unfolding reachable pprof_steps status_steps
reachable-steps true true true r = simp append_assoc
reachable-steps true true false r = simp append_assoc
reachable-steps true false true r = simp append_assoc
reachable-steps true false false r = simp append_assoc
reachable-steps false true true r = refl
reachable-steps false true false r = refl
reachable-steps false false true r = refl
reachable-steps false false false r = refl

all_pass-steps :
    (with_pprof has_secret valid_types : Bool) (r : Router)
    → all_pass ((if with_pprof then pprof_steps r else []) ++ status_steps has_secret valid_types r)
      ≡ (has_secret && valid_types)
unfolding all_pass pprof_steps status_steps
all_pass-steps true true true r = refl
all_pass-steps true true false r = refl
all_pass-steps true false v r = refl
all_pass-steps false true true r = refl
all_pass-steps false true false r = refl
all_pass-steps false false v r = refl

reachable-start_steps :
    (cfg : ServerConfig) (has_secret valid_types : Bool)
    → reachable (start_steps cfg has_secret valid_types)
      ≡ server_routes cfg (has_secret && valid_types)
unfolding start_steps server_routes
reachable-start_steps cfg has_secret valid_types =
    reachable-steps (is_separate cfg) has_secret valid_types (init_routers cfg).1
    ∙ ap
        (λ r. map (route r) (
          (if is_separate cfg then pprof_paths else [])
          ++ (if has_secret && valid_types then status_paths else [])))
        (router_of cfg)

all_pass-start_steps :
    (cfg : ServerConfig) (has_secret valid_types : Bool)
    → all_pass (start_steps cfg has_secret valid_types) ≡ (has_secret && valid_types)
unfolding start_steps
all_pass-start_steps cfg has_secret valid_types =
    all_pass-steps (is_separate cfg) has_secret valid_types (init_routers cfg).1

-- Start registers exactly the routes of the server's list, in its order, up to the first that the
-- router does not take: those of pprof, only if the management port is another than the server's,
-- and then, if the secret could be read and the types of the custom diagnostics are valid, those of
-- the diagnostics and of the status; all on the router of the management port if it is another, and
-- else on the server's own. It returns no error if and only if both checks pass and every route is
-- taken.
pub start_steps-server_routes :
    (cfg : ServerConfig) (has_secret valid_types : Bool) (registers : Route → Bool)
    → let result = register_all registers (start_steps cfg has_secret valid_types) in
      let routes = server_routes cfg (has_secret && valid_types) in
      (result.0 ≡ take_while registers routes)
      × ((result.1 ≡ none) ↔ ((has_secret && valid_types) && all_taken registers routes ≡ true))
start_steps-server_routes cfg has_secret valid_types registers =
    let steps = start_steps cfg has_secret valid_types in
    (
      register_all-routes registers steps
          ∙ ap (take_while registers) (reachable-start_steps cfg has_secret valid_types),
      rw⁻¹
          (
            reachable-start_steps cfg has_secret valid_types,
            all_pass-start_steps cfg has_secret valid_types,
          )
          (register_all-error registers steps),
    )
