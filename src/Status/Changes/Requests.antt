-- ===== src/Status/Changes/Requests.antt =====
-- A run of requests to the health endpoint.
use text.Mathlib.Text.{◌==◌ as str_eq}
use witchcraft_go_server.Base.{
  ℕ, ◌≡◌, refl, ap, Bool, true, false, not, ◌||◌, Option, none, some, List, [], ◌∷◌, ◌++◌, String,
  if◌then◌else◌, Bool-cases, inl, inr,
}
use witchcraft_go_server.Health.{HealthState, Checks}
use witchcraft_go_server.Status.{
  checks_differ, Handler, HealthHandler, Effect, serve_http, answer, unauthorized,
  permission_denied,
}

-- The shared secret at the time of a request, its bearer token, if there is one, and what the check
-- reports when it is asked.
abbrev pub Request : Type 0
Request = String × Option String × Checks HealthState

-- The changes of a series of statuses: each that differs from the one before it.
abbrev pub changes : Handler → Checks HealthState → List (Checks HealthState) → List Effect
changes h previous [] = []
changes h previous (m ∷ ms) =
    (if checks_differ previous m then h previous m else []) ++ changes h m ms

abbrev pub last : Checks HealthState → List (Checks HealthState) → Checks HealthState
last previous [] = previous
last previous (m ∷ ms) = last m ms

module _ (health_status_code : Checks HealthState → ℕ)
    (secret_string_equal : String → String → Bool) where
  unfoldable pub run : List Request → HealthHandler → HealthHandler × List Effect
  unfolding serve_http
  run [] h = (h, [])
  run ((secret, token, m) ∷ rs) h =
      let (h1, r, es) = serve_http health_status_code secret_string_equal secret token m h in
      let (h2, fs) = run rs h1 in (h2, es ++ fs)

  -- A request is admitted with no secret configured, or with the right token.
  abbrev pub is_admitted : String → Option String → Bool
  is_admitted secret none = str_eq secret ""
  is_admitted secret (some token) = str_eq secret "" || secret_string_equal secret token

  unfoldable pub admitted : List Request → List (Checks HealthState)
  admitted [] = []
  admitted ((secret, token, m) ∷ rs) =
      let rest = admitted rs in if is_admitted secret token then m ∷ rest else rest

  -- A request is answered with the health and its code exactly when it is admitted; otherwise it is
  -- answered 401 without a token and 403 with a wrong one, and the handler stays as it is and no
  -- change is handled.
  pub serve_http-answer :
      (secret : String) (token : Option String) (m : Checks HealthState) (h : HealthHandler)
      → serve_http health_status_code secret_string_equal secret token m h ≡ (
          if is_admitted secret token
          then answer health_status_code secret_string_equal m h
          else (h, elim token [ none ↦ unauthorized | some t ↦ permission_denied ], []))
  unfolding serve_http
  serve_http-answer secret none m h = refl
  serve_http-answer secret (some t) m h = elim (Bool-cases (str_eq secret "")) [
    | inl e ↦ rw e refl
    | inr e ↦ rw e (by_token (secret_string_equal secret t))
  ]
    where
      by_token :
          (b : Bool)
          → (if not b
              then (h, permission_denied, [])
              else answer health_status_code secret_string_equal m h)
            ≡ (if b
                then answer health_status_code secret_string_equal m h
                else (h, permission_denied, []))
      by_token true = refl
      by_token false = refl

  -- Over any run of requests the handlers are called for exactly those admitted requests whose
  -- health differs from the one before it among the admitted requests, in order, and the handler
  -- holds the health of the last admitted request.
  pub run-changes :
      (rs : List Request) (h : HealthHandler)
      → let ms = admitted rs in
        ((run rs h).0.previous_health ≡ last h.previous_health ms)
        × ((run rs h).0.change_handler ≡ h.change_handler)
        × ((run rs h).1 ≡ changes h.change_handler h.previous_health ms)
  unfolding run admitted
  run-changes [] h = (refl, refl, refl)
  run-changes ((secret, token, m) ∷ rs) h = elim (Bool-cases (is_admitted secret token)) [
    | inl e ↦
        rw (serve_http-answer, e)
          (let (p, c, es) = run-changes rs (record h { previous_health = m }) in
            (
              p,
              c,
              ap
                  (λ fs.
                    (if checks_differ h.previous_health m
                      then h.change_handler h.previous_health m
                      else [])
                    ++ fs)
                  es,
            ))
    | inr e ↦ rw (serve_http-answer, e) (run-changes rs h)
  ]
