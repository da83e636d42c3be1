-- ===== src/Config/Runtime/Source.antt =====
-- NewValidatingRefreshableHealthCheckSource and ValidationErrFunc of
-- witchcraft/internal/refreshable/source.go, over the refreshables of the configuration. `S` is what
-- the refreshables hold at a moment.
use witchcraft_go_server.Base.{
  ◌∙◌, sym, ap, ℕ, zero, suc, Option, none, some, List, [], ◌∷◌, String, map, get_elem?, ◌≡◌, ◌↔◌,
  refl,
}
use witchcraft_go_server.Health.{HealthState, healthy, error}
use witchcraft_go_server.Config.Runtime.{reload_errors, reload_status}
use witchcraft_go_server.Config.Runtime.Reloads.{Validated}

-- The source: its check type and its validations.
pub record Source (S Err : Type 0) : Type 0 where
  pub health_check_type : String
  pub validations : List (S → Option Err)

-- ValidationErrFunc of a refreshable that is a part of what is held.
abbrev pub validation_err_func : {S R E V : Type 0} → Validated R E V → (S → V) → S → Option E
validation_err_func ops part s = ops.validation (part s)

abbrev pub new_validating_source : {S Err : Type 0} → String → List (S → Option Err) → Source S Err
new_validating_source health_check_type validations = record {
  health_check_type = health_check_type;
  validations = validations;
}

-- HealthStatus of the source.
unfoldable pub health_status :
    {S Err : Type 0} → Source S Err → S → String × (HealthState × List Err)
health_status source s =
    (source.health_check_type, reload_status (map (λ f. f s) source.validations))

-- The first of the errors, as the state that they give.
abbrev state_of : {Err : Type 0} → List Err → HealthState × List Err
state_of [] = (healthy, [])
state_of (e ∷ es) = (error, e ∷ es)

reload_status_lem :
    {Err : Type 0} (vs : List (Option Err)) → reload_status vs ≡ state_of (reload_errors vs)
unfolding reload_status
reload_status_lem {Err = Err} vs = by_errors (reload_errors vs)
  where
    by_errors :
        (es : List Err)
        → ◌≡◌ {A = HealthState × List Err}
            (elim es [ [] ↦ (healthy, []) | e ∷ fs ↦ (error, e ∷ fs) ])
            (state_of es)
    by_errors [] = refl
    by_errors (e ∷ es) = refl

state_of-healthy : {Err : Type 0} (es : List Err) → (state_of es).0 ≡ healthy → es ≡ []
state_of-healthy [] h = refl
state_of-healthy (e ∷ es) h = absurd (cc)

errors-cons :
    {Err : Type 0} (o : Option Err) (vs : List (Option Err))
    → reload_errors (o ∷ vs) ≡ []
    → (o ≡ none) × (reload_errors vs ≡ [])
unfolding reload_errors
errors-cons none vs h = (refl, h)
errors-cons (some e) vs h = absurd (cc)

module _ {S Err : Type 0} (s : S) where
  abbrev pub AllPass : List (S → Option Err) → Type 0
  AllPass fs = (i : ℕ) (f : S → Option Err) → get_elem? fs i ≡ some f → f s ≡ none

  errors-AllPass :
      (fs : List (S → Option Err)) → reload_errors (map (λ f. f s) fs) ≡ [] → AllPass fs
  errors-AllPass [] h i f e = absurd (cc)
  errors-AllPass (g ∷ fs) h zero f e =
      let same : g ≡ f = cc in
      sym (ap (λ k. k s) same) ∙ (errors-cons (g s) (map (λ k. k s) fs) h).0
  errors-AllPass (g ∷ fs) h (suc i) f e =
      errors-AllPass fs (errors-cons (g s) (map (λ k. k s) fs) h).1 i f e

  AllPass-errors :
      (fs : List (S → Option Err)) → AllPass fs → reload_errors (map (λ f. f s) fs) ≡ []
  unfolding reload_errors
  AllPass-errors [] h = refl
  AllPass-errors (g ∷ fs) h = rw (h 0 g refl) (AllPass-errors fs (λ i f e. h (suc i) f e))

  -- The source is healthy if and only if no refreshable of it is failing its validation.
  pub health_status-healthy_iff :
      (name : String) (fs : List (S → Option Err))
      → ((health_status (new_validating_source name fs) s).1.0 ≡ healthy) ↔ AllPass fs
  unfolding health_status
  health_status-healthy_iff name fs =
      let status = reload_status_lem (map (λ f. f s) fs) in
      (
        λ h. errors-AllPass fs (state_of-healthy _ (ap (λ r. r.0) (sym status) ∙ h)),
        λ h. ap (λ r. r.0) status ∙ ap (λ es. (state_of es).0) (AllPass-errors fs h),
      )
