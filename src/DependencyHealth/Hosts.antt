-- ===== src/DependencyHealth/Hosts.antt =====
-- host_metrics.go, and the client middleware of healthcheck.go that marks the hosts' meters.
pub mod Marks
use text.Mathlib.Text.{◌==◌ as str_eq, find?}
use Prim.Native.String.{◌++◌ as str_append}
use witchcraft_go_server.Base.{
  ℕ, ◌+◌, Bool, true, false, not, ◌&&◌, ◌||◌, Option, none, some, List, [], ◌∷◌, String, ltb, leb,
  if◌then◌else◌,
}
use witchcraft_go_server.DependencyHealth.TimeBucket.{TimeBucket, new_time_bucket, mark, count}

pub record HostStatus : Type 0 where
  pub meter2xx : TimeBucket
  pub meter3xx : TimeBucket
  pub meter4xx : TimeBucket
  pub meter5xx : TimeBucket
  pub meter_err : TimeBucket
  pub meter_other : TimeBucket

abbrev pub new_host : ℕ → HostStatus
new_host window = record {
  meter2xx = new_time_bucket window;
  meter3xx = new_time_bucket window;
  meter4xx = new_time_bucket window;
  meter5xx = new_time_bucket window;
  meter_err = new_time_bucket window;
  meter_other = new_time_bucket window;
}

pub data Meter : Type 0 where
  ok2xx redirect3xx client4xx server5xx net_error other : Meter

-- Mark2xx to MarkOther, with the two readings of the clock.
unfoldable pub mark_host : Meter → ℕ → ℕ → HostStatus → HostStatus
mark_host ok2xx now at h = record h { meter2xx = mark now at h.meter2xx }
mark_host redirect3xx now at h = record h { meter3xx = mark now at h.meter3xx }
mark_host client4xx now at h = record h { meter4xx = mark now at h.meter4xx }
mark_host server5xx now at h = record h { meter5xx = mark now at h.meter5xx }
mark_host net_error now at h = record h { meter_err = mark now at h.meter_err }
mark_host other now at h = record h { meter_other = mark now at h.meter_other }

-- A count of one meter: whether it is positive. `clock` gives the successive readings.
positive : ℕ → TimeBucket → Bool × TimeBucket
positive now b = let (c, b') = count now b in (ltb 0 c, b')

-- The meters are counted in turn until one is positive; each count prunes its meter.
unfoldable pub is_active : (ℕ → ℕ) → HostStatus → Bool × HostStatus
unfolding positive
is_active clock h =
    let (a, b2) = positive (clock 0) h.meter2xx in
    let h2 = record h { meter2xx = b2 } in
    let (b, b3) = positive (clock 1) h.meter3xx in
    let h3 = record h2 { meter3xx = b3 } in
    let (c, b4) = positive (clock 2) h.meter4xx in
    let h4 = record h3 { meter4xx = b4 } in
    let (d, b5) = positive (clock 3) h.meter5xx in
    let h5 = record h4 { meter5xx = b5 } in
    let (e, be) = positive (clock 4) h.meter_err in
    let he = record h5 { meter_err = be } in
    let (f, bo) = positive (clock 5) h.meter_other in
    let ho = record he { meter_other = bo } in
    if a
    then (true, h2)
    else if b
    then (true, h3)
    else if c
    then (true, h4)
    else (if d then (true, h5) else (if e then (true, he) else (f, ho)))

unfoldable pub is_healthy : (ℕ → ℕ) → HostStatus → Bool × HostStatus
is_healthy clock h =
    let (ok, b2) = count (clock 0) h.meter2xx in
    let (bad, b5) = count (clock 1) h.meter5xx in
    let (err, be) = count (clock 2) h.meter_err in
    (leb (bad + err) ok, record h { meter2xx = b2; meter5xx = b5; meter_err = be })

-- Go's two levels of maps, as association lists.
abbrev pub Services : Type 0 → Type 0
Services A = List (String × List (String × A))

-- Creates an entry where there is none, then changes it.
unfoldable pub upsert {ℓ} :
    {A : Type ℓ} → String → A → (A → A) → List (String × A) → List (String × A)
upsert k new f [] = (k, f new) ∷ []
upsert k new f ((j, a) ∷ m) = if str_eq j k then (j, f a) ∷ m else (j, a) ∷ upsert k new f m

-- net.JoinHostPort
unfoldable pub join_host_port : String → String → String
join_host_port host port = elim (find? host ":") [
  | none ↦ str_append host (str_append ":" port)
  | some i ↦ str_append "[" (str_append host (str_append "]:" port))
]

-- HostMetrics, and what the caller then does to the host that it returns.
unfoldable pub host_metrics :
    ℕ
    → String
    → String
    → String
    → (HostStatus → HostStatus)
    → Services HostStatus
    → Services HostStatus
unfolding upsert
host_metrics window service host port f registry =
    upsert service [] (upsert (join_host_port host port) (new_host window) f) registry

-- The error of a round trip: whether its root cause is a net.Error.
pub data TripError : Type 0 where
  net_err other_err : TripError

-- The `switch` of RoundTrip; the codes are those of a response, if there is one.
unfoldable pub classify : Option TripError → Option ℕ → Meter
classify (some net_err) resp = net_error
classify _ none = other
classify _ (some code) =
    if ltb code 200 || ltb 599 code
    then other
    else if ltb code 300
    then ok2xx
    else (if ltb code 400 then redirect3xx else (if ltb code 500 then client4xx else server5xx))

-- The host and the port of a request's URL.
abbrev pub Url : Type 0
Url = String × String

-- RoundTrip: what it does to the registry. `url` is none where the request or its URL is nil.
unfoldable pub round_trip :
    ℕ
    → String
    → Option Url
    → Option TripError
    → Option ℕ
    → ℕ
    → ℕ
    → Services HostStatus
    → Services HostStatus
unfolding host_metrics classify
round_trip window service none err resp now at registry = registry
round_trip window service (some (host, port)) err resp now at registry =
    if str_eq service ""
    then registry
    else host_metrics window service host port (mark_host (classify err resp) now at) registry
