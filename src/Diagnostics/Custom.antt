-- ===== src/Diagnostics/Custom.antt =====
-- The custom handlers: WithCustomDiagnosticHandlers of witchcraft/witchcraft.go, and RegisterRoute,
-- which validates the types of those that are there when the server starts.
use text.Mathlib.Text.{◌==◌ as str_eq}
use text.Mathlib.TextEquality.{eq_iff}
use witchcraft_go_server.Base.{
  Bool, true, false, Option, none, some, List, [], ◌∷◌, String, if◌then◌else◌, ◌≡◌, refl, ap, ◌∙◌,
  arith,
}
use witchcraft_go_server.Diagnostics.Types.{is_valid_type}
use witchcraft_go_server.Diagnostics.Handlers.{Handler, Handlers, find_handler}
use witchcraft_go_server.Diagnostics.Resource.{DebugResource, or_else, resolve_handler_for_type}

-- updated[h.Type()] = h, for each of the handlers.
unfoldable pub put_all : List Handler → Handlers → Handlers
put_all [] m = m
put_all (h ∷ hs) m = put_all hs ((h.type_name, h) ∷ m)

-- WithCustomDiagnosticHandlers; `none` is the nil refreshable.
unfoldable pub with_custom_diagnostic_handlers : List Handler → Option Handlers → Option Handlers
unfolding put_all
with_custom_diagnostic_handlers hs none = some (put_all hs [])
with_custom_diagnostic_handlers hs (some current) = some (put_all hs current)

abbrev pub all_valid : Handlers → Bool
all_valid [] = true
all_valid ((k, h) ∷ hs) = if is_valid_type h.type_name then all_valid hs else false

-- RegisterRoute: `none` is its error, of a type that does not validate or of the router.
unfoldable pub register_route : Bool → String → Handlers → Handlers → Option DebugResource
register_route registers secret built_in custom =
    if all_valid custom
    then (if registers
        then some (record {
          shared_secret = secret;
          diagnostic_handlers = built_in;
          custom_diagnostic_handlers = custom;
        })
        else none)
    else none

-- The last handler of the list with the type.
unfoldable pub last_of_type : String → List Handler → Option Handler
last_of_type t [] = none
last_of_type t (h ∷ hs) = elim (last_of_type t hs) [
  | none ↦ if str_eq h.type_name t then some h else none
  | some later ↦ some later
]

find_handler-put_all :
    (t : String) (hs : List Handler) (m : Handlers)
    → find_handler t (put_all hs m) ≡ or_else (last_of_type t hs) (find_handler t m)
unfolding put_all last_of_type find_handler
find_handler-put_all t [] m = refl
find_handler-put_all t (h ∷ hs) m =
    find_handler-put_all t hs ((h.type_name, h) ∷ m) ∙ ground (arith, eq_iff h.type_name t)

-- After handlers have been added, the handler of a type is the server's own, if it has one; else the
-- last one added with that type; else the one that was there before.
pub resolve-put_all :
    (r : DebugResource) (hs : List Handler) (t : String)
    → resolve_handler_for_type
        (record r { custom_diagnostic_handlers = put_all hs r.custom_diagnostic_handlers })
        t
      ≡ or_else
          (find_handler t r.diagnostic_handlers)
          (or_else (last_of_type t hs) (find_handler t r.custom_diagnostic_handlers))
unfolding resolve_handler_for_type
resolve-put_all r hs t =
    ap (or_else (find_handler t r.diagnostic_handlers))
      (find_handler-put_all t hs r.custom_diagnostic_handlers)
