-- ===== src/Diagnostics/Resource.antt =====
-- witchcraft/internal/wdebug/resource.go: the registration of the route and its handler.
use text.Mathlib.Text.{◌==◌ as str_eq}
use text.Mathlib.TextEquality.{eq_iff}
use witchcraft_go_server.Base.{
  ◌⊎◌, Bool, true, false, not, Option, Option-cases, Bool-cases, none, some, List, [], ◌∷◌, String,
  if◌then◌else◌, ◌≡◌, ◌≢◌, ◌↔◌, inl, inr, refl, arith,
}
use witchcraft_go_server.Diagnostics.Handlers.{
  Handler, Handlers, Failure, ContentType, find_handler,
}

pub data Refusal : Type 0 where
  unauthorized internal invalid_argument : Refusal

-- What ServeHTTP does with a request: it refuses it, or it sets the headers and writes.
pub data Response : Type 0 where
  refused : Refusal → Response
  diagnostic : ContentType → Bool → Option Failure → Response

-- A request: the bearer token, if one could be parsed, and the path parameters, if there are any.
pub record Request : Type 0 where
  pub token : Option String
  pub path_params : Option (List (String × String))

unfoldable pub find_param : String → List (String × String) → Option String
find_param k [] = none
find_param k ((j, v) ∷ ps) = if str_eq j k then some v else find_param k ps

-- The handlers of the server, and the custom ones.
pub record DebugResource : Type 0 where
  pub shared_secret : String
  pub diagnostic_handlers : Handlers
  pub custom_diagnostic_handlers : Handlers

abbrev pub or_else : Option Handler → Option Handler → Option Handler
or_else none b = b
or_else (some a) b = some a

-- resolveHandlerForType
unfoldable pub resolve_handler_for_type : DebugResource → String → Option Handler
unfolding find_handler
resolve_handler_for_type r t =
    or_else (find_handler t r.diagnostic_handlers) (find_handler t r.custom_diagnostic_handlers)

module _ (secret_string_equal : String → String → Bool) where
  -- Whether the shared secret admits the request.
  unfoldable pub is_admitted : String → Option String → Bool
  is_admitted secret none = str_eq secret ""
  is_admitted secret (some token) =
      if str_eq secret "" then true else secret_string_equal secret token

  abbrev pub respond : Option Handler → Response
  respond none = refused invalid_argument
  respond (some h) = diagnostic h.content_type h.safe_loggable h.write_diagnostic

  abbrev pub serve_type : DebugResource → Option String → Response
  serve_type r none = refused invalid_argument
  serve_type r (some t) = respond (resolve_handler_for_type r t)

  unfoldable pub serve_http : DebugResource → Request → Response
  unfolding is_admitted resolve_handler_for_type find_param
  serve_http r req =
      if not (is_admitted r.shared_secret req.token)
      then refused unauthorized
      else (elim req.path_params [
        | none ↦ refused internal
        | some ps ↦ serve_type r (find_param "diagnosticType" ps)
      ])

-- The handler of the type that a request asks for.
unfoldable pub handler_for : DebugResource → Request → Option Handler
handler_for r req = elim req.path_params [
  | none ↦ none
  | some ps ↦ (elim (find_param "diagnosticType" ps) [
    | none ↦ none
    | some t ↦ resolve_handler_for_type r t
  ])
]

module _ (equal : String → String → Bool) (c : ContentType) (safe : Bool) (f : Option Failure) where
  respond_iff :
      (o : Option Handler)
      → (respond equal o ≡ diagnostic c safe f) ↔ (
          (h : Handler) × (o ≡ some h)
          × (diagnostic h.content_type h.safe_loggable h.write_diagnostic ≡ diagnostic c safe f))
  respond_iff none = (λ e. ground arith, λ (h, n, k). ground arith)
  respond_iff (some k) = (λ e. (k, refl, e), λ (h, n, e). cc)

  -- An admitted request is answered as its handler, or the lack of one, says.
  serve_http-admitted :
      (r : DebugResource) (req : Request)
      → is_admitted equal r.shared_secret req.token ≡ true
      → (serve_http equal r req ≡ diagnostic c safe f)
        ↔ (respond equal (handler_for r req) ≡ diagnostic c safe f)
  unfolding serve_http handler_for
  serve_http-admitted r req a = elim (Option-cases req.path_params) [
    | inl n ↦ (λ e. ground arith, λ e. ground arith)
    | inr (ps, n) ↦ (λ e. ground arith, λ e. ground arith)
  ]

  serve_http-not_admitted :
      (r : DebugResource) (req : Request)
      → is_admitted equal r.shared_secret req.token ≡ false
      → serve_http equal r req ≢ diagnostic c safe f
  unfolding serve_http
  serve_http-not_admitted r req a = ground arith

-- The secret admits a request with this token: there is no secret, or the token is equal to it.
abbrev pub IsAdmitted : (String → String → Bool) → String → Option String → Type 0
IsAdmitted equal secret token =
    (secret ≡ "") ⊎ ((t : String) × (token ≡ some t) × (equal secret t ≡ true))

is_admitted_iff :
    (equal : String → String → Bool) (secret : String) (token : Option String)
    → (is_admitted equal secret token ≡ true) ↔ IsAdmitted equal secret token
unfolding is_admitted
is_admitted_iff equal secret none = (
  λ e. inl (ground (arith, eq_iff secret "")),
  λ a. elim a [ inl e ↦ ground (arith, eq_iff secret "") | inr (t, n, k) ↦ ground arith ],
)
is_admitted_iff equal secret (some token) = (
  λ e. elim (Bool-cases (str_eq secret "")) [
    | inl b ↦ inl (ground (arith, eq_iff secret ""))
    | inr b ↦ inr (token, refl, ground arith)
  ],
  λ a. elim a [
    | inl e ↦ ground (arith, eq_iff secret "")
    | inr (t, n, k) ↦ (elim (Bool-cases (str_eq secret "")) [
      | inl b ↦ ground arith
      | inr b ↦ ground (arith, k)
    ])
  ],
)

-- A diagnostic is written if and only if the shared secret admits the request, which it does if it
-- is empty or the bearer token is equal to it, and the type that the request asks for has a handler;
-- what is written is then what this handler writes, under its content type.
pub serve_http-diagnostic_iff :
    (equal : String → String → Bool) (r : DebugResource) (req : Request) (c : ContentType)
    (safe : Bool) (f : Option Failure)
    → (serve_http equal r req ≡ diagnostic c safe f) ↔ (
        IsAdmitted equal r.shared_secret req.token
        × ((h : Handler) × (handler_for r req ≡ some h)
            × (diagnostic h.content_type h.safe_loggable h.write_diagnostic ≡ diagnostic c safe f)))
serve_http-diagnostic_iff equal r req c safe f = (
  λ e. elim (Bool-cases (is_admitted equal r.shared_secret req.token)) [
    | inl a ↦ (
      (is_admitted_iff equal r.shared_secret req.token).0 a,
      (respond_iff equal c safe f (handler_for r req)).0
          ((serve_http-admitted equal c safe f r req a).0 e),
    )
    | inr a ↦ elim (serve_http-not_admitted equal c safe f r req a e) [ ]
  ],
  λ (a, k).
      (serve_http-admitted equal c safe f r req
          ((is_admitted_iff equal r.shared_secret req.token).1 a)).1
        ((respond_iff equal c safe f (handler_for r req)).1 k),
)
