-- ===== src/Metrics.antt =====
-- The emission of metrics: witchcraft/server_metrics.go. The registry, the zero values of its
-- metrics and reflect.DeepEqual are parameters; a metric's values are a list in the order of the
-- map's iteration.
pub mod Emission
pub mod Ticking
mod Tests
use text.Mathlib.Text.{◌==◌ as str_eq}
use Prim.Native.String.{◌++◌ as str_append}
use witchcraft_go_server.Base.{
  ℕ, suc, ◌+◌, Bool, true, false, not, ◌&&◌, ◌||◌, Option, none, some, List, [], ◌∷◌, ◌++◌, String,
  sort, contains, length, if◌then◌else◌,
}

-- A metric of the registry, with its values by their keys.
pub record Metric (V : Type 0) : Type 0 where
  pub id : String
  pub type_name : String
  pub tags : List (String × String)
  pub values : List (String × V)

-- The two blocklists of the server.
pub record Blocklists : Type 0 where
  pub metrics : List String
  pub type_values : Option (List (String × List String))

abbrev pub default_type_values : List (String × List String)
default_type_values =
    ("histogram", "min" ∷ "mean" ∷ "stddev" ∷ "p50" ∷ [])
    ∷ ("meter", "1m" ∷ "5m" ∷ "15m" ∷ "mean" ∷ [])
    ∷ ("timer", "1m" ∷ "5m" ∷ "15m" ∷ "meanRate" ∷ "min" ∷ "mean" ∷ "stddev" ∷ "p50" ∷ [])
    ∷ []

-- What initMetrics makes of the blocklists.
abbrev pub init_blocklists : Blocklists → Blocklists
init_blocklists b = record b {
  type_values = elim b.type_values [ none ↦ some default_type_values | some t ↦ some t ];
}

unfoldable pub disallowed_keys : String → List (String × List String) → List String
disallowed_keys t [] = []
disallowed_keys t ((u, ks) ∷ ts) = if str_eq u t then ks else disallowed_keys t ts

unfoldable pub is_disallowed : Option (List (String × List String)) → String → String → Bool
unfolding disallowed_keys
is_disallowed none t key = false
is_disallowed (some ts) t key = contains key (disallowed_keys t ts)

abbrev pub is_zero_value_metric : String → Bool
is_zero_value_metric t = str_eq t "meter" || str_eq t "timer" || str_eq t "histogram"

-- fmt's %v of a slice of strings.
spaced : List String → String
spaced [] = ""
spaced (s ∷ []) = s
spaced (s ∷ t ∷ ss) = str_append s (str_append " " (spaced (t ∷ ss)))

tag_strings : List (String × String) → List String
tag_strings [] = []
tag_strings ((k, v) ∷ ts) = str_append k (str_append ":" v) ∷ tag_strings ts

unfoldable pub tag_map_key : String → String → List (String × String) → String
unfolding spaced tag_strings
tag_map_key id t tags = str_append id (
    str_append ":"
      (str_append t (str_append ":[" (str_append (spaced (sort (tag_strings tags))) "]"))))

-- A call of the metric logger; `is_zero` is whether logZeroValueMetric makes it.
pub record Entry (V : Type 0) : Type 0 where
  pub is_zero : Bool
  pub id : String
  pub type_name : String
  pub tags : List (String × String)
  pub values : List (String × V)

module _ {V : Type 0} (blocklists : Blocklists) where
  allowed : String → List (String × V) → List (String × V)
  allowed t [] = []
  allowed t ((k, v) ∷ vs) =
      let rest = allowed t vs in
      if is_disallowed blocklists.type_values t k then rest else (k, v) ∷ rest

  -- visitMetricValues and collectMetricValues
  unfoldable pub collect_metric_values : String → String → List (String × V) → List (String × V)
  unfolding allowed
  collect_metric_values id t values =
      if contains id blocklists.metrics then [] else allowed t values

abbrev pub is_empty : {A : Type 0} → List A → Bool
is_empty [] = true
is_empty (x ∷ xs) = false

module _ {V : Type 0} (blocklists : Blocklists) (zero_values : String → List (String × V))
    (deep_equal : List (String × V) → List (String × V) → Bool) where
  -- logZeroValueMetric: the zero values that it logs, if it does, and the set of seen metrics.
  unfoldable pub log_zero_value_metric :
      Metric V → List String → Option (List (String × V)) × List String
  log_zero_value_metric m seen =
      let key = tag_map_key m.id m.type_name m.tags in
      let zero = collect_metric_values blocklists m.id m.type_name (zero_values m.type_name) in
      if contains key seen
      then (none, seen)
      else (if is_empty zero then (none, seen) else (some zero, key ∷ seen))

  with_zero :
      Metric V
      → List (String × V)
      → Option (List (String × V)) × List String
      → List (Entry V) × List String
  with_zero m values (none, seen) = (
    record { is_zero = false; id = m.id; type_name = m.type_name; tags = m.tags; values = values }
        ∷ [],
    seen,
  )
  with_zero m values (some zero, seen) = (
    record { is_zero = true; id = m.id; type_name = m.type_name; tags = m.tags; values = zero }
        ∷ (if deep_equal zero values
            then []
            else record {
              is_zero = false;
              id = m.id;
              type_name = m.type_name;
              tags = m.tags;
              values = values;
            }
              ∷ []),
    seen,
  )

  -- The function that emitMetricsOnce runs on each metric of the registry.
  unfoldable pub emit_metric : Bool → Metric V → List String → List (Entry V) × List String
  unfolding with_zero log_zero_value_metric
  emit_metric has_logger m seen =
      let values = collect_metric_values blocklists m.id m.type_name m.values in
      let zeroed = with_zero m values (log_zero_value_metric m seen) in
      if is_empty values
      then ([], seen)
      else if not has_logger
      then ([], seen)
      else if is_zero_value_metric m.type_name
      then zeroed
      else (
        record {
          is_zero = false;
          id = m.id;
          type_name = m.type_name;
          tags = m.tags;
          values = values;
        }
            ∷ [],
        seen,
      )

  -- The metrics of one emission, or of several after each other.
  unfoldable pub emit_metrics : Bool → List (Metric V) → List String → List (Entry V) × List String
  unfolding emit_metric
  emit_metrics has_logger [] seen = ([], seen)
  emit_metrics has_logger (m ∷ ms) seen =
      let (es, seen1) = emit_metric has_logger m seen in
      let (fs, seen2) = emit_metrics has_logger ms seen1 in (es ++ fs, seen2)

-- markCardinalityMetric
unfoldable pub cardinality : {V : Type 0} → Blocklists → List (Metric V) → ℕ
cardinality blocklists [] = 0
cardinality blocklists (m ∷ ms) =
    length (collect_metric_values blocklists m.id m.type_name m.values) + cardinality blocklists ms
