-- ===== src/Routes/Handling.antt =====
-- What is behind the liveness and readiness routes: WithLiveness and WithReadiness of
-- witchcraft/witchcraft.go, addRoutes of witchcraft/server_routes.go, and the handler of
-- status/routes/routes.go.
use witchcraft_go_server.Base.{
  ℕ, Option, none, some, List, [], ◌∷◌, ◌++◌, String, ◌≡◌, refl, sym, ◌∙◌, ap,
}
use witchcraft_go_server.Lifecycle.{Shared, status}

-- A source of status: the state manager, or one of the application's.
pub data Source : Type 0 where
  state_manager : Source
  application : ℕ → Source

-- WithReadiness and WithLiveness on the field that they change: nil, or a refreshable and its value.
unfoldable pub with_source : ℕ → Option Source → Option Source
with_source n none = some (application n)
with_source n (some current) = some (application n)

unfoldable pub with_sources : List ℕ → Option Source → Option Source
unfolding with_source
with_sources [] field = field
with_sources (n ∷ ns) field = with_sources ns (with_source n field)

-- What addRoutes makes of the field; the value of a refreshable can be updated later.
unfoldable pub source_of_route : Option Source → Source
source_of_route none = state_manager
source_of_route (some current) = current

-- A status: its code and its metadata, `none` for nil.
abbrev pub Status : Type 0
Status = ℕ × Option String

-- The sources of the application are a parameter; the state manager has no metadata.
abbrev pub status_of : (ℕ → Status) → Shared → Source → Status
status_of sources s state_manager = (status s, none)
status_of sources s (application n) = sources n

-- The handler of the two routes: an empty JSON object stands for no metadata.
unfoldable pub handle : (ℕ → Status) → Shared → Source → ℕ × String
handle sources s src =
    let (code, metadata) = status_of sources s src in
    (code, elim metadata [ none ↦ "{}" | some m ↦ m ])

-- The source that was configured last, if one was.
unfoldable pub last_source : List ℕ → Source → Source
last_source [] s = s
last_source (n ∷ ns) s = last_source ns (application n)

abbrev pub value_of : Option Source → Source → Source
value_of none s = s
value_of (some current) s = current

with_sources-last :
    (ns : List ℕ) (field : Option Source)
    → value_of (with_sources ns field) state_manager ≡ last_source ns (value_of field state_manager)
unfolding with_sources last_source
with_sources-last [] field = refl
with_sources-last (n ∷ ns) none = with_sources-last ns (some (application n))
with_sources-last (n ∷ ns) (some c) = with_sources-last ns (some (application n))

with_sources-some :
    (ns : List ℕ) (src : Source)
    → value_of (with_sources ns (some src)) state_manager ≡ last_source ns src
with_sources-some ns src = with_sources-last ns (some src)

source_of_route-value :
    (field : Option Source) → source_of_route field ≡ value_of field state_manager
unfolding source_of_route
source_of_route-value none = refl
source_of_route-value (some c) = refl

last_source-append :
    (ms ns : List ℕ) (s : Source) → last_source (ms ++ ns) s ≡ last_source ns (last_source ms s)
unfolding last_source
last_source-append [] ns s = refl
last_source-append (m ∷ ms) ns s = last_source-append ms ns (application m)

-- The readiness route, and the liveness route likewise, answers with the status of the source that
-- was configured last, before or after the routes were added, and with that of the state manager if
-- none was.
pub handle-last_source :
    (sources : ℕ → Status) (s : Shared) (before after : List ℕ)
    → handle sources s (
        value_of
          (with_sources after (some (source_of_route (with_sources before none))))
          state_manager)
      ≡ handle sources s (last_source (before ++ after) state_manager)
handle-last_source sources s before after = ap (handle sources s) (
    with_sources-some after (source_of_route (with_sources before none))
    ∙ ap (last_source after)
        (source_of_route-value (with_sources before none) ∙ with_sources-last before none)
    ∙ sym (last_source-append before after state_manager))
