-- ===== src/Metrics/Tests.antt =====
-- An emission at concrete metrics.
use witchcraft_go_server.Base.{
  ◌+◌, ◌&&◌, ◌||◌, not, length, sort, ℕ, ◌≡◌, refl, Bool, true, false, none, List, [], ◌∷◌, String,
  contains, bit, count_if,
}
use witchcraft_go_server.Metrics.{
  log_zero_value_metric, collect_metric_values, is_disallowed, Metric, Blocklists, init_blocklists,
  tag_map_key,
}
use witchcraft_go_server.Metrics.Emission.{is_zero_of, some_starts}
use witchcraft_go_server.Base.Int.{pos, negsuc}
use witchcraft_go_server.Metrics.Ticking.{
  ticking, deferred, Event, visits, logs_values, ctx_done, new_state, run_events, metrics_emit_freq,
}
use witchcraft_go_server.Metrics.Ticking.Zeros.{made, run_events-zeros}

abbrev blocked : Blocklists
blocked = init_blocklists (record { metrics = "secret" ∷ []; type_values = none })

abbrev zeros : String → List (String × ℕ)
zeros t = ("count", 0) ∷ ("1m", 0) ∷ []

abbrev never_equal : List (String × ℕ) → List (String × ℕ) → Bool
never_equal a b = false

abbrev requests : Metric ℕ
requests = record {
  id = "requests";
  type_name = "meter";
  tags = ("b", "2") ∷ ("a", "1") ∷ [];
  values = ("count", 5) ∷ ("1m", 3) ∷ [];
}

abbrev secret : Metric ℕ
secret = record requests { id = "secret" }

key : tag_map_key "requests" "meter" (("b", "2") ∷ ("a", "1") ∷ []) ≡ "requests:meter:[a:1 b:2]"
unfolding tag_map_key sort
key = refl

-- The final emission starts while the ticking goroutine visits; its last visit comes too late.
abbrev overlapping : List (Event ℕ)
overlapping =
    visits ticking requests
    ∷ visits deferred requests
    ∷ logs_values deferred
    ∷ logs_values ticking
    ∷ visits deferred secret
    ∷ ctx_done
    ∷ visits ticking requests
    ∷ []

run_events-zeros_example :
    let s = run_events blocked zeros never_equal true overlapping new_state in
    let k : String = "requests:meter:[a:1 b:2]" in
    let b = some_starts blocked zeros never_equal true k (made overlapping false) in
    (count_if (is_zero_of blocked zeros never_equal true k) s.logged ≡ 0 + bit (not false && b))
    × (contains k s.seen ≡ (false || b))
unfolding contains count_if
run_events-zeros_example =
    run_events-zeros blocked zeros never_equal true "requests:meter:[a:1 b:2]" overlapping new_state

three_entries : length (run_events blocked zeros never_equal true overlapping new_state).logged ≡ 3
unfolding run_events log_zero_value_metric collect_metric_values contains tag_map_key sort
    is_disallowed
three_entries = refl

frequencies :
    (metrics_emit_freq (pos 0) ≡ 30000000000) × (metrics_emit_freq (negsuc 4) ≡ 30000000000)
frequencies = (refl, refl)
