-- ===== src/DependencyHealth/Check/Meaning.antt =====
-- What the report says of the services.
use witchcraft_go_server.Base.{
  ℕ, ◌+◌, ◌≡◌, ◌∙◌, refl, ap, Bool, true, false, not, ◌&&◌, ◌||◌, Option, none, some, List, [], ◌∷◌,
  ◌++◌, arith, String, length, length-append, length-sort, if◌then◌else◌, ltb, count_if, Bool-cases,
  inl, inr, bit, ◌==◌,
}
use witchcraft_go_server.Health.{healthy, warning}
use witchcraft_go_server.DependencyHealth.Hosts.{Services}
use witchcraft_go_server.DependencyHealth.Check.{
  HostView, CheckResult, Acc, all_healthy, service_failed, service_impaired, collect_hosts,
  collect_service_status, note_service, note_services, finish, health_status,
}

abbrev pub is_up : String × HostView → Bool
is_up (host, v) = v.active && v.well

abbrev pub is_down : String × HostView → Bool
is_down (host, v) = v.active && not v.well

-- Some active host of the service is unhealthy.
abbrev pub is_impaired : String × List (String × HostView) → Bool
is_impaired (service, hosts) = ltb 0 (count_if is_down hosts)

-- And none is healthy.
abbrev pub is_failed : String × List (String × HostView) → Bool
is_failed (service, hosts) = ltb 0 (count_if is_down hosts) && (count_if is_up hosts == 0)

length-collect :
    (hosts : List (String × HostView)) (up down : List String)
    → (length (collect_hosts hosts up down).0 ≡ length up + count_if is_up hosts)
      × (length (collect_hosts hosts up down).1 ≡ length down + count_if is_down hosts)
unfolding collect_hosts count_if
length-collect [] up down = omega arith
length-collect ((host, v) ∷ hosts) up down = ground (
  arith,
  length-collect hosts (if v.active && v.well then up ++ (host ∷ []) else up)
      (if v.active && not v.well then down ++ (host ∷ []) else down),
  length-append up (host ∷ []),
  length-append down (host ∷ []),
)

length-status :
    (hosts : List (String × HostView))
    → (length (collect_service_status hosts).0 ≡ count_if is_up hosts)
      × (length (collect_service_status hosts).1 ≡ count_if is_down hosts)
unfolding collect_service_status
length-status hosts = omega (
  arith,
  length-collect hosts [] [],
  length-sort (collect_hosts hosts [] []).0,
  length-sort (collect_hosts hosts [] []).1,
)

-- The services with an active unhealthy host, in the order of the map's iteration.
pub impaired_names : Services HostView → List String
impaired_names [] = []
impaired_names ((service, hosts) ∷ ss) =
    let rest = impaired_names ss in if is_impaired (service, hosts) then service ∷ rest else rest

abbrev pub names : List (String × List String) → List String
names [] = []
names ((s, hs) ∷ ps) = s ∷ names ps

names-append :
    (ps : List (String × List String)) (s : String) (hs : List String)
    → names (ps ++ ((s, hs) ∷ [])) ≡ names ps ++ (s ∷ [])
names-append [] s hs = refl
names-append ((t, gs) ∷ ps) s hs = ap (λ l. t ∷ l) (names-append ps s hs)

noted :
    (service : String) (hosts : List (String × HostView)) (a : Acc)
    → let a' = note_service service (collect_service_status hosts) a in
      let bad = is_impaired (service, hosts) in
      (a'.message ≡ (if bad then service_impaired else a.message))
      × (a'.contains_unhealthy ≡ (is_failed (service, hosts) || a.contains_unhealthy))
      × (names a'.params ≡ (if bad then names a.params ++ (service ∷ []) else names a.params))
unfolding note_service
noted service hosts a = by_lists (collect_service_status hosts) (length-status hosts)
  where
    by_lists :
        (l : List String × List String)
        → (length l.0 ≡ count_if is_up hosts) × (length l.1 ≡ count_if is_down hosts)
        → let a' = note_service service l a in
          let bad = is_impaired (service, hosts) in
          (a'.message ≡ (if bad then service_impaired else a.message))
          × (a'.contains_unhealthy ≡ (is_failed (service, hosts) || a.contains_unhealthy))
          × (names a'.params ≡ (if bad then names a.params ++ (service ∷ []) else names a.params))
    by_lists (up, []) e = ground arith
    by_lists ([], d ∷ down) e = ground (arith, names-append a.params service (d ∷ down))
    by_lists (u ∷ up, d ∷ down) e = ground (arith, names-append a.params service (d ∷ down))

names_assoc :
    (xs : List String) (s : String) (ys : List String) → (xs ++ (s ∷ [])) ++ ys ≡ xs ++ (s ∷ ys)
names_assoc [] s ys = refl
names_assoc (x ∷ xs) s ys = ap (λ l. x ∷ l) (names_assoc xs s ys)

append-nil : (xs : List String) → xs ≡ xs ++ []
append-nil [] = refl
append-nil (x ∷ xs) = ap (λ l. x ∷ l) (append-nil xs)

or_swap : (f a : Bool) (n : ℕ) → (ltb 0 n || (f || a)) ≡ (ltb 0 (bit f + n) || a)
or_swap true a n = ground arith
or_swap false a n = ground arith

noted_message :
    (ss : Services HostView) (a : Acc)
    → (note_services ss a).message
      ≡ (if ltb 0 (count_if is_impaired ss) then service_impaired else a.message)
unfolding note_services count_if
noted_message [] a = refl
noted_message ((service, hosts) ∷ ss) a =
    let a' = note_service service (collect_service_status hosts) a in
    elim (Bool-cases (is_impaired (service, hosts))) [
      | inl e ↦ ground (arith, (noted service hosts a).0, noted_message ss a')
      | inr e ↦ ground (arith, (noted service hosts a).0, noted_message ss a')
    ]

noted_failed :
    (ss : Services HostView) (a : Acc)
    → (note_services ss a).contains_unhealthy
      ≡ (ltb 0 (count_if is_failed ss) || a.contains_unhealthy)
unfolding note_services count_if
noted_failed [] a = refl
noted_failed ((service, hosts) ∷ ss) a =
    let a' = note_service service (collect_service_status hosts) a in
    noted_failed ss a'
    ∙ ap (λ b. ltb 0 (count_if is_failed ss) || b) (noted service hosts a).1
    ∙ or_swap (is_failed (service, hosts)) a.contains_unhealthy (count_if is_failed ss)

names-branch :
    (b : Bool) (xs : List String) (s : String) (ys : List String)
    → (if b then xs ++ (s ∷ []) else xs) ++ ys ≡ xs ++ (if b then s ∷ ys else ys)
names-branch true xs s ys = names_assoc xs s ys
names-branch false xs s ys = refl

noted_names :
    (ss : Services HostView) (a : Acc)
    → names (note_services ss a).params ≡ names a.params ++ impaired_names ss
unfolding note_services impaired_names
noted_names [] a = append-nil (names a.params)
noted_names ((service, hosts) ∷ ss) a =
    let a' = note_service service (collect_service_status hosts) a in
    noted_names ss a'
    ∙ ap (λ l. l ++ impaired_names ss) (noted service hosts a).2
    ∙ names-branch (is_impaired (service, hosts)) (names a.params) service (impaired_names ss)

-- What the report of services says, none being no status.
abbrev pub Describes : Services HostView → Option CheckResult → Type 0
Describes services none = services ≡ []
Describes services (some r) =
    (r.state ≡ (if ltb 0 (count_if is_failed services) then warning else healthy))
    × (r.message ≡ (
        if ltb 0 (count_if is_failed services)
        then service_failed
        else (if ltb 0 (count_if is_impaired services) then service_impaired else all_healthy)))
    × (names r.params ≡ impaired_names services)

-- The report of a check that some service has been called for: the state is a warning just when
-- some service has an active unhealthy host and no healthy one, and then the message says so; else
-- the message names impaired services when some service has an active unhealthy host; and the
-- services listed are just those with an active unhealthy host, in the order of the map's
-- iteration. With no service at all the status is empty.
pub report_means : (services : Services HostView) → Describes services (health_status services)
unfolding health_status finish
report_means [] = refl
report_means (s ∷ ss) =
    described (note_services (s ∷ ss) start) (noted_message (s ∷ ss) start)
      (noted_failed (s ∷ ss) start) (noted_names (s ∷ ss) start)
  where
    start : Acc
    start = record { message = all_healthy; params = []; contains_unhealthy = false }

    described :
        (a : Acc)
        → a.message
          ≡ (if ltb 0 (count_if is_impaired (s ∷ ss)) then service_impaired else all_healthy)
        → a.contains_unhealthy ≡ (ltb 0 (count_if is_failed (s ∷ ss)) || false)
        → names a.params ≡ impaired_names (s ∷ ss)
        → Describes (s ∷ ss) (some (finish a))
    described a m c n = elim (Bool-cases (ltb 0 (count_if is_failed (s ∷ ss)))) [
      | inl e ↦ ground (arith, m, c, n)
      | inr e ↦ ground (arith, m, c, n)
    ]
