-- ===== src/Metrics/Emission.antt =====
-- What is logged of the metrics.
use text.Mathlib.Text.{◌==◌ as str_eq}
use text.Mathlib.TextEquality.{eq_iff}
use witchcraft_go_server.Base.{
  ◌≡◌, refl, Bool, false, not, ◌&&◌, ◌||◌, List, [], ◌∷◌, String, contains, arith, bit, count_if,
  count_if-append,
}
use witchcraft_go_server.Metrics.{
  Metric, Blocklists, Entry, is_disallowed, is_zero_value_metric, tag_map_key, is_empty,
  collect_metric_values, log_zero_value_metric, with_zero, emit_metric, emit_metrics, allowed,
}

module _ {V : Type 0} (blocklists : Blocklists) (zero_values : String → List (String × V))
    (deep_equal : List (String × V) → List (String × V) → Bool) (has_logger : Bool) where
  -- An entry of zero values for a key.
  abbrev pub is_zero_of : String → Entry V → Bool
  is_zero_of k e = e.is_zero && str_eq (tag_map_key e.id e.type_name e.tags) k

  -- A metric that has this key, some value to log, and a zero value to log.
  abbrev pub starts : String → Metric V → Bool
  starts k m =
      not (is_empty (collect_metric_values blocklists m.id m.type_name m.values))
      && (has_logger
          && (is_zero_value_metric m.type_name
              && (not (
                    is_empty
                      (collect_metric_values blocklists m.id m.type_name (zero_values m.type_name)))
                  && str_eq (tag_map_key m.id m.type_name m.tags) k)))

  abbrev pub some_starts : String → List (Metric V) → Bool
  some_starts k [] = false
  some_starts k (m ∷ ms) = starts k m || some_starts k ms

  emitted :
      (k : String) (m : Metric V) (seen : List String)
      → let (es, seen1) = emit_metric blocklists zero_values deep_equal has_logger m seen in
        (count_if (is_zero_of k) es ≡ bit (not (contains k seen) && starts k m))
        × (contains k seen1 ≡ (contains k seen || starts k m))
  unfolding emit_metric with_zero log_zero_value_metric count_if contains
  emitted k m seen = ground (arith, eq_iff (tag_map_key m.id m.type_name m.tags) k)

  -- Over any emissions, of any metrics in any order: zero values are logged for a key once, if the
  -- key was not seen before and some metric with it has a value to log, a logger, a type with zero
  -- values and zero values that are not blocked, and else not at all; and a key is then seen just
  -- when it was before or its zero values were logged.
  pub emit_metrics-zero :
      (k : String) (ms : List (Metric V)) (seen : List String)
      → let (es, seen1) = emit_metrics blocklists zero_values deep_equal has_logger ms seen in
        (count_if (is_zero_of k) es ≡ bit (not (contains k seen) && some_starts k ms))
        × (contains k seen1 ≡ (contains k seen || some_starts k ms))
  unfolding emit_metrics count_if
  emit_metrics-zero k [] seen = ground arith
  emit_metrics-zero k (m ∷ ms) seen =
      let (es, seen1) = emit_metric blocklists zero_values deep_equal has_logger m seen in
      let (fs, seen2) = emit_metrics blocklists zero_values deep_equal has_logger ms seen1 in
      ground (
        arith,
        emitted k m seen,
        emit_metrics-zero k ms seen1,
        count_if-append (is_zero_of k) es fs,
      )

  -- A value under a key that the blocklist of the type holds.
  abbrev pub has_disallowed : String → List (String × V) → Bool
  has_disallowed t [] = false
  has_disallowed t ((k, v) ∷ vs) = is_disallowed blocklists.type_values t k || has_disallowed t vs

  -- An entry that should not be logged: blocked, with a blocked value, or empty.
  abbrev pub is_unwanted : Entry V → Bool
  is_unwanted e =
      contains e.id blocklists.metrics || (has_disallowed e.type_name e.values || is_empty e.values)

  allowed-fine :
      (t : String) (vs : List (String × V)) → has_disallowed t (allowed blocklists t vs) ≡ false
  unfolding allowed
  allowed-fine t [] = refl
  allowed-fine t ((k, v) ∷ vs) = ground (arith, allowed-fine t vs)

  collect-fine :
      (id t : String) (vs : List (String × V))
      → is_empty (collect_metric_values blocklists id t vs) ≡ false
      → (contains id blocklists.metrics ≡ false)
        × (has_disallowed t (collect_metric_values blocklists id t vs) ≡ false)
  unfolding collect_metric_values
  collect-fine id t vs h = ground (arith, allowed-fine t vs)

  emit_metric-wanted :
      (m : Metric V) (seen : List String)
      → count_if is_unwanted (emit_metric blocklists zero_values deep_equal has_logger m seen).0 ≡ 0
  unfolding emit_metric with_zero log_zero_value_metric count_if
  emit_metric-wanted m seen = ground (
    arith,
    collect-fine m.id m.type_name m.values,
    collect-fine m.id m.type_name (zero_values m.type_name),
  )

  -- Whatever is emitted, no entry is logged for a blocked metric, none has a value under a key that
  -- is blocked for its type, and none is empty.
  pub emit_metrics-wanted :
      (ms : List (Metric V)) (seen : List String)
      → count_if is_unwanted (emit_metrics blocklists zero_values deep_equal has_logger ms seen).0
        ≡ 0
  unfolding emit_metrics count_if
  emit_metrics-wanted [] seen = refl
  emit_metrics-wanted (m ∷ ms) seen =
      let (es, seen1) = emit_metric blocklists zero_values deep_equal has_logger m seen in
      let (fs, seen2) = emit_metrics blocklists zero_values deep_equal has_logger ms seen1 in
      omega (
        arith,
        count_if-append is_unwanted es fs,
        emit_metric-wanted m seen,
        emit_metrics-wanted ms seen1,
      )
