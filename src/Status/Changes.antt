-- ===== src/Status/Changes.antt =====
-- When the change handlers are called.
pub mod Requests
use text.Mathlib.Text.{◌==◌ as str_eq}
use text.Mathlib.TextEquality.{eq_iff}
use witchcraft_go_server.Base.{
  ℕ, zero, suc, ◌+◌, ◌≡◌, ◌↔◌, ◌∙◌, refl, sym, ap, Bool, true, false, not, ◌&&◌, ◌||◌, Option, none,
  some, List, [], ◌∷◌, ◌++◌, arith, String, length, if◌then◌else◌, Bool-cases, inl, inr, ◌==◌,
}
use witchcraft_go_server.Health.{
  HealthState, same_health, severity, Checks, healthy, deferring, suspended, repairing, warning,
  error, terminal,
}
use witchcraft_go_server.Status.{find_check, check_differs, some_differs, checks_differ}

-- An association list with no key twice.
abbrev pub IsMap : Checks HealthState → Type 0
IsMap [] = Unit
IsMap ((k, s) ∷ cs) = (find_check k cs ≡ none) × IsMap cs

remove : String → Checks HealthState → Checks HealthState
remove k [] = []
remove k ((j, s) ∷ cs) = if str_eq j k then cs else (j, s) ∷ remove k cs

find-remove_other :
    (k j : String) (cs : Checks HealthState)
    → str_eq k j ≡ false
    → find_check j (remove k cs) ≡ find_check j cs
unfolding find_check remove
find-remove_other k j [] h = refl
find-remove_other k j ((i, s) ∷ cs) h =
    ground (arith, eq_iff i k, eq_iff i j, eq_iff k j, find-remove_other k j cs h)

find-remove_same :
    (k : String) (cs : Checks HealthState) → IsMap cs → find_check k (remove k cs) ≡ none
unfolding find_check remove
find-remove_same k [] m = refl
find-remove_same k ((i, s) ∷ cs) m = ground (arith, eq_iff i k, find-remove_same k cs m.1)

remove-IsMap : (k : String) (cs : Checks HealthState) → IsMap cs → IsMap (remove k cs)
unfolding remove
remove-IsMap k [] m = tt
remove-IsMap k ((i, s) ∷ cs) m = elim (Bool-cases (str_eq i k)) [
  | inl e ↦ rw e m.1
  | inr e ↦ rw e (
      (
        find-remove_other k i cs (ground (arith, eq_iff k i, eq_iff i k)) ∙ m.0,
        remove-IsMap k cs m.1,
      ))
]

length-remove :
    (k : String) (t : HealthState) (cs : Checks HealthState)
    → find_check k cs ≡ some t
    → suc (length (remove k cs)) ≡ length cs
unfolding find_check remove
length-remove k t [] h = ground arith
length-remove k t ((i, s) ∷ cs) h = ground (arith, length-remove k t cs)

of_severity : ℕ → HealthState
of_severity zero = healthy
of_severity (suc zero) = deferring
of_severity (suc (suc zero)) = suspended
of_severity (suc (suc (suc zero))) = repairing
of_severity (suc (suc (suc (suc zero)))) = warning
of_severity (suc (suc (suc (suc (suc zero))))) = error
of_severity (suc (suc (suc (suc (suc (suc n)))))) = terminal

of_severity-severity : (s : HealthState) → of_severity (severity s) ≡ s
unfolding of_severity
of_severity-severity healthy = refl
of_severity-severity deferring = refl
of_severity-severity suspended = refl
of_severity-severity repairing = refl
of_severity-severity warning = refl
of_severity-severity error = refl
of_severity-severity terminal = refl

same_number : (a b : ℕ) → ((a == b) ≡ true) ↔ (a ≡ b)
same_number a b = ground arith

same_health_iff : (s t : HealthState) → (same_health s t ≡ true) ↔ (s ≡ t)
same_health_iff s t = (
  λ e.
      sym (of_severity-severity s)
      ∙ ap of_severity ((same_number (severity s) (severity t)).0 e)
      ∙ of_severity-severity t,
  λ e. (same_number (severity s) (severity t)).1 (ap severity e),
)

some_differs-remove :
    (k : String) (cs new_checks : Checks HealthState)
    → find_check k cs ≡ none
    → some_differs cs (remove k new_checks) ≡ some_differs cs new_checks
unfolding some_differs find_check
some_differs-remove k [] new_checks h = refl
some_differs-remove k ((j, s) ∷ cs) new_checks h = ground (
  arith,
  eq_iff k j,
  eq_iff j k,
  find-remove_other k j new_checks,
  some_differs-remove k cs new_checks,
)

check_differs_iff :
    (s : HealthState) (o : Option HealthState) → (check_differs s o ≡ false) ↔ (o ≡ some s)
check_differs_iff s none = ground arith
check_differs_iff s (some t) = ground (arith, same_health_iff s t)

length_none : (cs : Checks HealthState) → ((k : String) → find_check k cs ≡ none) → cs ≡ []
unfolding find_check
length_none [] h = refl
length_none ((k, s) ∷ cs) h = ground (arith, h k, eq_iff k k)

find_head :
    (j k : String) (s : HealthState) (cs new_checks : Checks HealthState)
    → find_check j new_checks ≡ some s
    → (str_eq j k ≡ false → find_check k cs ≡ find_check k (remove j new_checks))
    → find_check k ((j, s) ∷ cs) ≡ find_check k new_checks
unfolding find_check
find_head j k s cs new_checks f ih = elim (Bool-cases (str_eq j k)) [
  | inl e ↦ rw e (sym f ∙ ap (λ i. find_check i new_checks) ((eq_iff j k).0 e))
  | inr e ↦ rw e (ih e ∙ find-remove_other j k new_checks e)
]

find_tail :
    (j k : String) (s : HealthState) (cs new_checks : Checks HealthState)
    → find_check j cs ≡ none
    → IsMap new_checks
    → find_check k ((j, s) ∷ cs) ≡ find_check k new_checks
    → find_check k cs ≡ find_check k (remove j new_checks)
unfolding find_check
find_tail j k s cs new_checks m n h = elim (Bool-cases (str_eq j k)) [
  | inl e ↦
      sym (ap (λ i. find_check i cs) ((eq_iff j k).0 e))
      ∙ m
      ∙ sym (find-remove_same j new_checks n)
      ∙ ap (λ i. find_check i (remove j new_checks)) ((eq_iff j k).0 e)
  | inr e ↦ ground (arith, h, e, find-remove_other j k new_checks e)
]

no_difference :
    (j : String) (s : HealthState) (cs new_checks : Checks HealthState)
    → (some_differs ((j, s) ∷ cs) new_checks ≡ false)
      ↔ ((find_check j new_checks ≡ some s) × (some_differs cs new_checks ≡ false))
unfolding some_differs
no_difference j s cs new_checks = ground (arith, check_differs_iff s (find_check j new_checks))

find_first :
    (j : String) (s : HealthState) (cs : Checks HealthState) → find_check j ((j, s) ∷ cs) ≡ some s
unfolding find_check
find_first j s cs = rw ((eq_iff j j).1 refl) refl

-- No check of a map has another state in the other, and they have equally many.
same_checks :
    (cs new_checks : Checks HealthState)
    → IsMap cs
    → IsMap new_checks
    → length cs ≡ length new_checks
    → some_differs cs new_checks ≡ false
    → (k : String) → find_check k cs ≡ find_check k new_checks
unfolding some_differs find_check
same_checks [] [] m n l d k = refl
same_checks [] (c ∷ new_checks) m n l d k = ground arith
same_checks ((j, s) ∷ cs) new_checks m n l d k =
    let (f, d') = (no_difference j s cs new_checks).0 d in
    find_head j k s cs new_checks f (λ _.
      same_checks cs (remove j new_checks) m.1 (remove-IsMap j new_checks n)
        (omega (arith, l, length-remove j s new_checks f))
        (some_differs-remove j cs new_checks m.0 ∙ d') k)

same_differs :
    (cs new_checks : Checks HealthState)
    → IsMap cs
    → IsMap new_checks
    → ((k : String) → find_check k cs ≡ find_check k new_checks)
    → (length cs ≡ length new_checks) × (some_differs cs new_checks ≡ false)
unfolding some_differs find_check
same_differs [] new_checks m n h = rw (length_none new_checks (λ k. sym (h k))) (refl, refl)
same_differs ((j, s) ∷ cs) new_checks m n h =
    let f : find_check j new_checks ≡ some s = sym (h j) ∙ find_first j s cs in
    let (l, d) =
      same_differs cs (remove j new_checks) m.1 (remove-IsMap j new_checks n)
        (λ k. find_tail j k s cs new_checks m.0 n (h k)) in
    (
      omega (arith, l, length-remove j s new_checks f),
      (no_difference j s cs new_checks).1 (f, sym (some_differs-remove j cs new_checks m.0) ∙ d),
    )

-- Of two maps from check types to states, whatever the order of their iteration: the code says that
-- they do not differ exactly when they are equal as maps.
pub checks_differ_iff :
    (previous new_checks : Checks HealthState)
    → IsMap previous
    → IsMap new_checks
    → (checks_differ previous new_checks ≡ false)
      ↔ ((k : String) → find_check k previous ≡ find_check k new_checks)
unfolding checks_differ
checks_differ_iff previous new_checks m n = (
  λ d k. same_checks previous new_checks m n (ground arith) (ground arith) k,
  λ h. let (l, d) = same_differs previous new_checks m n h in ground (arith, l, d),
)
