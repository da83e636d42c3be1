-- ===== src/Metrics/Ticking/Zeros.antt =====
-- The zero values that the two goroutines log.
use mathlib.Core.List.{append-nil, append_assoc}
use text.Mathlib.TextEquality.{eq_iff}
use witchcraft_go_server.Base.{
  ℕ, ◌+◌, Bool, true, false, not, ◌&&◌, ◌||◌, Option, none, some, List, [], ◌∷◌, ◌++◌, String,
  if◌then◌else◌, contains, count_if, count_if-append, bit, ◌≡◌, refl, arith, Bool-cases, inl, inr,
}
use witchcraft_go_server.Metrics.{
  Metric, Blocklists, Entry, collect_metric_values, log_zero_value_metric, tag_map_key, emit_metric,
  with_zero,
}
use witchcraft_go_server.Metrics.Emission.{is_zero_of, starts, some_starts}
use witchcraft_go_server.Metrics.Ticking.{
  Goroutine, ticking, deferred, State, Event, visits, logs_values, ctx_done, visit, step,
  run_events, entry, log_pending,
}

-- The visits that are made: all of the deferred function, and those of the ticking goroutine before
-- it has returned.
unfoldable pub made : {V : Type 0} → List (Event V) → Bool → List (Metric V)
made [] returned = []
made (visits ticking m ∷ es) returned =
    if returned then made es returned else (m ∷ made es returned)
made (visits deferred m ∷ es) returned = m ∷ made es returned
made (logs_values g ∷ es) returned = made es returned
made (ctx_done ∷ es) returned = made es true

module _ {V : Type 0} (blocklists : Blocklists) (zero_values : String → List (String × V))
    (deep_equal : List (String × V) → List (String × V) → Bool) (has_logger : Bool) where
  abbrev zeros : String → State V → ℕ
  zeros k s = count_if (is_zero_of blocklists zero_values deep_equal has_logger k) s.logged

  abbrev begins : String → Metric V → Bool
  begins k m = starts blocklists zero_values deep_equal has_logger k m

  zeros_snoc :
      (k : String) (es : List (Entry V)) (e : Entry V)
      → count_if (is_zero_of blocklists zero_values deep_equal has_logger k) (es ++ (e ∷ []))
        ≡ count_if (is_zero_of blocklists zero_values deep_equal has_logger k) es
          + bit (is_zero_of blocklists zero_values deep_equal has_logger k e)
  unfolding count_if
  zeros_snoc k es e = omega (
    arith,
    count_if-append (is_zero_of blocklists zero_values deep_equal has_logger k) es (e ∷ []),
  )

  visit-zeros :
      (k : String) (g : Goroutine) (m : Metric V) (s : State V)
      → let s' = visit blocklists zero_values deep_equal has_logger g m s in
        (zeros k s' ≡ zeros k s + bit (not (contains k s.seen) && begins k m))
        × (contains k s'.seen ≡ (contains k s.seen || begins k m))
        × (s'.returned ≡ s.returned)
  unfolding visit log_zero_value_metric contains
  visit-zeros k g m s =
      let zero = collect_metric_values blocklists m.id m.type_name (zero_values m.type_name) in
      ground (
        arith,
        eq_iff (tag_map_key m.id m.type_name m.tags) k,
        zeros_snoc k s.logged (entry true m zero),
      )

  log_pending-zeros :
      (k : String) (p : Option (Metric V × Option (List (String × V)))) (s : State V)
      → let s' = log_pending blocklists zero_values deep_equal has_logger p s in
        (zeros k s' ≡ zeros k s) × (s'.seen ≡ s.seen) × (s'.returned ≡ s.returned)
  log_pending-zeros k none s = (refl, refl, refl)
  log_pending-zeros k (some (m, zero)) s =
      let values = collect_metric_values blocklists m.id m.type_name m.values in
      ground (arith, zeros_snoc k s.logged (entry false m values))

  -- However the visits of the ticking goroutine and those of the deferred function interleave, and
  -- whenever the context is done: the zero values of a key are logged once, if the key was not seen
  -- before and some visit that is made has a value to log and zero values, and else not at all; the
  -- ticking goroutine makes no visit after it has seen that its context is done.
  pub run_events-zeros :
      (k : String) (es : List (Event V)) (s : State V)
      → let s' = run_events blocklists zero_values deep_equal has_logger es s in
        let start =
          some_starts blocklists zero_values deep_equal has_logger k (made es s.returned) in
        (zeros k s' ≡ zeros k s + bit (not (contains k s.seen) && start))
        × (contains k s'.seen ≡ (contains k s.seen || start))
  unfolding run_events made
  run_events-zeros k [] s = ground arith
  run_events-zeros k (visits ticking m ∷ es) s = elim (Bool-cases s.returned) [
    | inl gone ↦ ground (arith, run_events-zeros k es s)
    | inr here ↦
        let s' = visit blocklists zero_values deep_equal has_logger ticking m s in
        ground (arith, visit-zeros k ticking m s, run_events-zeros k es s')
  ]
  run_events-zeros k (visits deferred m ∷ es) s =
      let s' = visit blocklists zero_values deep_equal has_logger deferred m s in
      ground (arith, visit-zeros k deferred m s, run_events-zeros k es s')
  run_events-zeros k (logs_values g ∷ es) s =
      let s' = step blocklists zero_values deep_equal has_logger (logs_values g) s in
      ground (arith, log_pending-zeros k (s.pending g) s, run_events-zeros k es s')
  run_events-zeros k (ctx_done ∷ es) s = run_events-zeros k es (record s { returned = true })

  -- A visit that no other step interrupts is an emission of the metric.
  pub visit-emit_metric :
      (g : Goroutine) (m : Metric V) (s : State V)
      → s.pending g ≡ none
      → let s' =
          step blocklists zero_values deep_equal has_logger
            (logs_values g)
            (visit blocklists zero_values deep_equal has_logger g m s) in
        let (es, seen) = emit_metric blocklists zero_values deep_equal has_logger m s.seen in
        (s'.logged ≡ s.logged ++ es) × (s'.seen ≡ seen)
  unfolding step visit log_zero_value_metric emit_metric with_zero
  visit-emit_metric ticking m s h = grind (arith, append-nil, append_assoc)
  visit-emit_metric deferred m s h = grind (arith, append-nil, append_assoc)
