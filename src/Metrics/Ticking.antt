-- ===== src/Metrics/Ticking.antt =====
-- The two goroutines that emit metrics: initMetrics of witchcraft/server_metrics.go starts one, which
-- emits at each tick until its context is cancelled, and the goroutine of Start runs the deferred
-- function that emits a final time. A visit of a metric is two steps: what holds the lock of the
-- seen metrics, and the call of the metric logger that follows; the steps of the two interleave.
pub mod Zeros
use text.Mathlib.Text.{◌==◌ as str_eq}
use text.Mathlib.TextEquality.{eq_iff}
use witchcraft_go_server.Base.{
  ℕ, ◌+◌, ◌==◌, Bool, true, false, not, ◌&&◌, ◌||◌, Option, none, some, List, [], ◌∷◌, ◌++◌, String,
  if◌then◌else◌, contains, count_if, count_if-append, bit, ◌≡◌, refl, arith,
}
use witchcraft_go_server.Base.Int.{ℤ, pos, negsuc}
use witchcraft_go_server.Metrics.{
  Metric, Blocklists, Entry, init_blocklists, collect_metric_values, is_empty, is_zero_value_metric,
  log_zero_value_metric, tag_map_key, cardinality, emit_metric, with_zero,
}
use witchcraft_go_server.Metrics.Emission.{is_zero_of, starts, some_starts}

-- Nanoseconds.
abbrev pub default_metric_emit_frequency : ℕ
default_metric_emit_frequency = 30000000000

abbrev pub metrics_emit_freq : ℤ → ℕ
metrics_emit_freq (pos n) = if n == 0 then default_metric_emit_frequency else n
metrics_emit_freq (negsuc n) = default_metric_emit_frequency

-- What initMetrics starts the goroutine with.
pub record Emitter : Type 0 where
  pub frequency : ℕ
  pub collects_go_runtime_metrics : Bool
  pub blocklists : Blocklists

-- initMetrics: `none` is its error; `captures` is whether the registry can capture the statistics of
-- memory.
unfoldable pub init_metrics : Bool → Bool → ℤ → Blocklists → Option Emitter
init_metrics disable captures freq blocklists =
    let emitter : Emitter = record {
      frequency = metrics_emit_freq freq;
      collects_go_runtime_metrics = not disable;
      blocklists = init_blocklists blocklists;
    } in
    if not disable && not captures then none else some emitter

pub data ZeroMetric : Type 0 where
  new_meter new_timer new_histogram : ZeroMetric

-- zeroValuesForMetricType: the metric that it makes; `none` is its panic.
unfoldable pub zero_metric : String → Option ZeroMetric
zero_metric t =
    if str_eq t "meter"
    then some new_meter
    else if str_eq t "timer"
    then some new_timer
    else if str_eq t "histogram"
    then some new_histogram
    else none

abbrev pub is_some : {A : Type 0} → Option A → Bool
is_some none = false
is_some (some a) = true

-- The panic of zeroValuesForMetricType never happens: it is called for the types that have zeros.
pub zero_metric-is_some : (t : String) → is_some (zero_metric t) ≡ is_zero_value_metric t
unfolding zero_metric
zero_metric-is_some t = ground arith

-- What emitMetricsOnce does to the registry before its visits; R are registries, of which `collect`,
-- `set_uptime` and `set_cardinality` are the changes.
module _ {R V : Type 0} (each : R → List (Metric V)) (collect set_uptime : R → R)
    (set_cardinality : ℕ → R → R) where
  unfoldable pub prepare : Emitter → R → R
  prepare e r =
      let r1 = if e.collects_go_runtime_metrics then collect r else r in
      let r2 = set_uptime r1 in set_cardinality (cardinality e.blocklists (each r2)) r2

pub data Goroutine : Type 0 where
  ticking deferred : Goroutine

pub record State (V : Type 0) : Type 0 where
  pub returned : Bool  -- the ticking goroutine
  pub seen : List String
  pub logged : List (Entry V)
  pub pending : Goroutine → Option (Metric V × Option (List (String × V)))

abbrev pub new_state : {V : Type 0} → State V
new_state = record { returned = false; seen = []; logged = []; pending = λ g. none }

abbrev pub same : Goroutine → Goroutine → Bool
same ticking ticking = true
same deferred deferred = true
same _ _ = false

abbrev pub entry : {V : Type 0} → Bool → Metric V → List (String × V) → Entry V
entry is_zero m values = record {
  is_zero = is_zero;
  id = m.id;
  type_name = m.type_name;
  tags = m.tags;
  values = values;
}

-- A goroutine visits a metric, and goes on to log its values; the ticking one sees that its context
-- is done, and returns.
pub data Event (V : Type 0) : Type 0 where
  visits : Goroutine → Metric V → Event V
  logs_values : Goroutine → Event V
  ctx_done : Event V

module _ {V : Type 0} (blocklists : Blocklists) (zero_values : String → List (String × V))
    (deep_equal : List (String × V) → List (String × V) → Bool) (has_logger : Bool) where
  abbrev pub set_pending :
      Goroutine → Option (Metric V × Option (List (String × V))) → State V → State V
  set_pending g p s = record s { pending = λ h. if same h g then p else s.pending h }

  abbrev pub with_zero_logged : Metric V → Option (List (String × V)) → State V → State V
  with_zero_logged m none s = s
  with_zero_logged m (some zero) s = record s { logged = s.logged ++ (entry true m zero ∷ []) }

  -- The visit of a metric, up to the end of logZeroValueMetric.
  unfoldable pub visit : Goroutine → Metric V → State V → State V
  unfolding log_zero_value_metric
  visit g m s =
      let values = collect_metric_values blocklists m.id m.type_name m.values in
      let (zero, seen) = log_zero_value_metric blocklists zero_values deep_equal m s.seen in
      if is_empty values || not has_logger
      then s
      else if is_zero_value_metric m.type_name
      then set_pending g (some (m, zero)) (with_zero_logged m zero (record s { seen = seen }))
      else set_pending g (some (m, none)) s

  -- Whether the values are those that were logged as the zero values.
  abbrev pub is_logged : Option (List (String × V)) → List (String × V) → Bool
  is_logged none values = false
  is_logged (some zero) values = deep_equal zero values

  abbrev pub log_pending : Option (Metric V × Option (List (String × V))) → State V → State V
  log_pending none s = s
  log_pending (some (m, zero)) s =
      let values = collect_metric_values blocklists m.id m.type_name m.values in
      if is_logged zero values
      then s
      else record s { logged = s.logged ++ (entry false m values ∷ []) }

  unfoldable pub step : Event V → State V → State V
  unfolding visit
  step (visits ticking m) s = if s.returned then s else visit ticking m s
  step (visits deferred m) s = visit deferred m s
  step (logs_values g) s = set_pending g none (log_pending (s.pending g) s)
  step ctx_done s = record s { returned = true }

  unfoldable pub run_events : List (Event V) → State V → State V
  unfolding step
  run_events [] s = s
  run_events (e ∷ es) s = run_events es (step e s)
