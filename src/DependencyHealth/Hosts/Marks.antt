-- ===== src/DependencyHealth/Hosts/Marks.antt =====
-- What a round trip marks, and when a host counts as healthy.
use text.Mathlib.Text.{◌==◌ as str_eq}
use text.Mathlib.TextEquality.{eq_iff}
use witchcraft_go_server.Base.{
  Bool, false, ap, ◌∙◌, map_option, Bool-cases, inl, inr, ◌==◌, leb_iff, ◌↔◌, ◌/◌, ℕ, ◌+◌, ◌≤◌, ◌≡◌,
  refl, true, not, ◌&&◌, Option, none, some, List, [], ◌∷◌, arith, String, if◌then◌else◌, count_if,
}
use witchcraft_go_server.DependencyHealth.TimeBucket.{is_recent, mark, TimeBucket}
use witchcraft_go_server.DependencyHealth.TimeBucket.Window.{
  Use, after, marks, latest, IsMonotone, count_exact,
}
use witchcraft_go_server.DependencyHealth.Hosts.{
  host_metrics, other_err, HostStatus, Meter, Services, Url, TripError, new_host, mark_host,
  is_healthy, upsert, join_host_port, classify, round_trip, ok2xx, redirect3xx, client4xx,
  server5xx, net_error, other, net_err,
}

unfoldable pub lookup {ℓ} : {A : Type ℓ} → String → List (String × A) → Option A
lookup k [] = none
lookup k ((j, a) ∷ m) = if str_eq j k then some a else lookup k m

abbrev or_else {ℓ} : {A : Type ℓ} → Option A → A → A
or_else none d = d
or_else (some a) d = a

lookup-upsert {ℓ} :
    {A : Type ℓ} (k j : String) (new : A) (f : A → A) (m : List (String × A))
    → lookup j (upsert k new f m)
      ≡ (if str_eq k j then some (f (or_else (lookup k m) new)) else lookup j m)
unfolding lookup upsert
lookup-upsert k j new f [] = refl
lookup-upsert k j new f ((i, a) ∷ m) =
    ground (arith, eq_iff i k, eq_iff i j, eq_iff k j, lookup-upsert k j new f m)

lookup-nil {ℓ} : {A : Type ℓ} (k : String) → lookup {A = A} k [] ≡ none
unfolding lookup
lookup-nil k = refl

abbrev in_service : String → Option (List (String × HostStatus)) → Option HostStatus
in_service h none = none
in_service h (some hosts) = lookup h hosts

-- The record of a host of a service.
unfoldable pub host_of : String → String → Services HostStatus → Option HostStatus
host_of s h registry = in_service h (lookup s registry)

host_of-upsert :
    (service s h : String) (g : List (String × HostStatus) → List (String × HostStatus))
    (registry : Services HostStatus)
    → host_of s h (upsert service [] g registry) ≡ (
        if str_eq service s
        then lookup h (g (or_else (lookup service registry) []))
        else host_of s h registry)
unfolding host_of
host_of-upsert service s h g registry = elim (Bool-cases (str_eq service s)) [
  | inl e ↦ rw lookup-upsert (rw e)
  | inr e ↦ rw lookup-upsert (rw e)
]

host_of-found :
    (service h : String) (registry : Services HostStatus)
    → lookup h (or_else (lookup service registry) []) ≡ host_of service h registry
unfolding host_of
host_of-found service h registry = by_hosts (lookup service registry)
  where
    by_hosts : (o : Option (List (String × HostStatus))) → lookup h (or_else o []) ≡ in_service h o
    by_hosts none = lookup-nil h
    by_hosts (some hosts) = refl

host_of-host_metrics :
    (window : ℕ) (service host port s h : String) (f : HostStatus → HostStatus)
    (registry : Services HostStatus)
    → host_of s h (host_metrics window service host port f registry) ≡ (
        if str_eq service s && str_eq (join_host_port host port) h
        then some (f (or_else (host_of s h registry) (new_host window)))
        else host_of s h registry)
unfolding host_metrics
host_of-host_metrics window service host port s h f registry =
    elim (Bool-cases (str_eq service s)) [
      | inl e ↦
          let p : service ≡ s = (eq_iff service s).0 e in
          rw (host_of-upsert, e, lookup-upsert, host_of-found, host_of-found) (by_host p)
      | inr e ↦ rw (host_of-upsert, e) refl
    ]
  where
    by_host :
        service ≡ s
        → (if str_eq (join_host_port host port) h
            then some (
                f (or_else (host_of service (join_host_port host port) registry) (new_host window)))
            else host_of service h registry)
          ≡ (if str_eq (join_host_port host port) h
              then some (f (or_else (host_of s h registry) (new_host window)))
              else host_of s h registry)
    by_host p = ground (arith, eq_iff (join_host_port host port) h)

host_of-marked :
    (window : ℕ) (service : String) (url : Option Url) (err : Option TripError) (resp : Option ℕ)
    (now at : ℕ) (registry : Services HostStatus) (s h : String)
    → host_of s h (round_trip window service url err resp now at registry) ≡ elim url [
      | none ↦ host_of s h registry
      | some (host, port) ↦
          if not (str_eq service "") && (str_eq service s && str_eq (join_host_port host port) h)
          then some (
              mark_host
                (classify err resp)
                now
                at
                (or_else (host_of s h registry) (new_host window)))
          else host_of s h registry
    ]
unfolding round_trip
host_of-marked window service none err resp now at registry s h = refl
host_of-marked window service (some (host, port)) err resp now at registry s h =
    elim (Bool-cases (str_eq service "")) [
      | inl e ↦ rw e
      | inr e ↦ rw e (
          host_of-host_metrics window service host port s h (mark_host (classify err resp) now at)
            registry)
    ]

-- The meter of a code by its hundreds.
abbrev pub century : ℕ → Meter
century n =
    if n == 2
    then ok2xx
    else (if n == 3
        then redirect3xx
        else (if n == 4 then client4xx else (if n == 5 then server5xx else other)))

-- A response is marked by the hundreds of its code, in whatever range the code lies, unless the
-- round trip failed with a network error, which is marked as such whatever response there is; a
-- failure of another kind with no response is marked as other.
classify-century :
    (code : ℕ) (resp : Option ℕ)
    → (classify none (some code) ≡ century (code / 100))
      × (classify (some other_err) (some code) ≡ century (code / 100))
      × (classify (some net_err) resp ≡ net_error)
      × (classify (some other_err) none ≡ other)
unfolding classify
classify-century code resp = (ground arith, ground arith, refl, refl)

-- Each meter of a host's record.
abbrev pub meter_of : Meter → HostStatus → TimeBucket
meter_of ok2xx h = h.meter2xx
meter_of redirect3xx h = h.meter3xx
meter_of client4xx h = h.meter4xx
meter_of server5xx h = h.meter5xx
meter_of net_error h = h.meter_err
meter_of other h = h.meter_other

abbrev pub same_meter : Meter → Meter → Bool
same_meter ok2xx ok2xx = true
same_meter redirect3xx redirect3xx = true
same_meter client4xx client4xx = true
same_meter server5xx server5xx = true
same_meter net_error net_error = true
same_meter other other = true
same_meter _ _ = false

-- The meter of a round trip: that of network errors if it failed with one, and else that of the
-- hundreds of the response's code, or of other results if there is no response.
abbrev pub meter_for : Option TripError → Option ℕ → Meter
meter_for (some net_err) resp = net_error
meter_for (some other_err) none = other
meter_for (some other_err) (some code) = century (code / 100)
meter_for none none = other
meter_for none (some code) = century (code / 100)

classify-meter_for :
    (err : Option TripError) (resp : Option ℕ) → classify err resp ≡ meter_for err resp
unfolding classify
classify-meter_for (some net_err) resp = refl
classify-meter_for (some other_err) none = refl
classify-meter_for (some other_err) (some code) = (classify-century code none).1
classify-meter_for none none = refl
classify-meter_for none (some code) = (classify-century code none).0

meter_of-mark_host :
    (k m : Meter) (now at : ℕ) (h : HostStatus)
    → meter_of k (mark_host m now at h)
      ≡ (if same_meter m k then mark now at (meter_of k h) else meter_of k h)
unfolding mark_host
meter_of-mark_host ok2xx ok2xx now at h = refl
meter_of-mark_host ok2xx redirect3xx now at h = refl
meter_of-mark_host ok2xx client4xx now at h = refl
meter_of-mark_host ok2xx server5xx now at h = refl
meter_of-mark_host ok2xx net_error now at h = refl
meter_of-mark_host ok2xx other now at h = refl
meter_of-mark_host redirect3xx ok2xx now at h = refl
meter_of-mark_host redirect3xx redirect3xx now at h = refl
meter_of-mark_host redirect3xx client4xx now at h = refl
meter_of-mark_host redirect3xx server5xx now at h = refl
meter_of-mark_host redirect3xx net_error now at h = refl
meter_of-mark_host redirect3xx other now at h = refl
meter_of-mark_host client4xx ok2xx now at h = refl
meter_of-mark_host client4xx redirect3xx now at h = refl
meter_of-mark_host client4xx client4xx now at h = refl
meter_of-mark_host client4xx server5xx now at h = refl
meter_of-mark_host client4xx net_error now at h = refl
meter_of-mark_host client4xx other now at h = refl
meter_of-mark_host server5xx ok2xx now at h = refl
meter_of-mark_host server5xx redirect3xx now at h = refl
meter_of-mark_host server5xx client4xx now at h = refl
meter_of-mark_host server5xx server5xx now at h = refl
meter_of-mark_host server5xx net_error now at h = refl
meter_of-mark_host server5xx other now at h = refl
meter_of-mark_host net_error ok2xx now at h = refl
meter_of-mark_host net_error redirect3xx now at h = refl
meter_of-mark_host net_error client4xx now at h = refl
meter_of-mark_host net_error server5xx now at h = refl
meter_of-mark_host net_error net_error now at h = refl
meter_of-mark_host net_error other now at h = refl
meter_of-mark_host other ok2xx now at h = refl
meter_of-mark_host other redirect3xx now at h = refl
meter_of-mark_host other client4xx now at h = refl
meter_of-mark_host other server5xx now at h = refl
meter_of-mark_host other net_error now at h = refl
meter_of-mark_host other other now at h = refl

-- A round trip with a service name and a URL marks one meter of its own host, that of network errors
-- if it failed with one, and else that of the hundreds of the response's code or, without a response,
-- of other results; it leaves the host's other meters as they were, creates the host's record with
-- empty meters if there is none, and changes no other host. Without a service name or a URL it
-- changes nothing.
pub host_of-round_trip :
    (window : ℕ) (service : String) (url : Option Url) (err : Option TripError) (resp : Option ℕ)
    (now at : ℕ) (registry : Services HostStatus) (s h : String) (k : Meter)
    → map_option (meter_of k) (host_of s h (round_trip window service url err resp now at registry))
      ≡ elim url [
        | none ↦ map_option (meter_of k) (host_of s h registry)
        | some (host, port) ↦
            if not (str_eq service "") && (str_eq service s && str_eq (join_host_port host port) h)
            then some (
                let old = meter_of k (or_else (host_of s h registry) (new_host window)) in
                if same_meter (meter_for err resp) k then mark now at old else old)
            else map_option (meter_of k) (host_of s h registry)
      ]
host_of-round_trip window service none err resp now at registry s h k =
    ap (map_option (meter_of k)) (host_of-marked window service none err resp now at registry s h)
host_of-round_trip window service (some (host, port)) err resp now at registry s h k =
    ap (map_option (meter_of k))
      (host_of-marked window service (some (host, port)) err resp now at registry s h)
    ∙ by_host (not (str_eq service "") && (str_eq service s && str_eq (join_host_port host port) h))
  where
    by_host :
        (b : Bool)
        → map_option (meter_of k) (
            if b
            then some (
                mark_host
                  (classify err resp)
                  now
                  at
                  (or_else (host_of s h registry) (new_host window)))
            else host_of s h registry)
          ≡ (if b
              then some (
                  let old = meter_of k (or_else (host_of s h registry) (new_host window)) in
                  if same_meter (meter_for err resp) k then mark now at old else old)
              else map_option (meter_of k) (host_of s h registry))
    by_host false = refl
    by_host true =
        rw (classify-meter_for err resp)
          (ap (λ b. some b) (meter_of-mark_host k (meter_for err resp) now at _))

-- A host whose meters have been marked and counted while the clock did not go back is healthy
-- exactly when the responses of class 2xx that are younger than the window are at least as many as
-- those of class 5xx and the network errors together, each seen at the reading of the clock for its
-- meter.
pub is_healthy_iff :
    (window : ℕ) (clock : ℕ → ℕ) (h : HostStatus) (us2 us5 ue : List Use)
    → h.meter2xx ≡ after window us2
    → h.meter5xx ≡ after window us5
    → h.meter_err ≡ after window ue
    → IsMonotone us2
    → IsMonotone us5
    → IsMonotone ue
    → latest us2 ≤ clock 0
    → latest us5 ≤ clock 1
    → latest ue ≤ clock 2
    → ((is_healthy clock h).0 ≡ true) ↔ (
        count_if (is_recent window (clock 1)) (marks us5)
          + count_if (is_recent window (clock 2)) (marks ue)
        ≤ count_if (is_recent window (clock 0)) (marks us2))
unfolding is_healthy
is_healthy_iff window clock h us2 us5 ue e2 e5 ee m2 m5 me l2 l5 le =
    rw (e2, e5, ee)
      (rw
        (
          count_exact window (clock 0) us2 m2 l2,
          count_exact window (clock 1) us5 m5 l5,
          count_exact window (clock 2) ue me le,
        )
        (leb_iff _ _))
