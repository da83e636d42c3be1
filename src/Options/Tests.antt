-- ===== src/Options/Tests.antt =====
-- Options at concrete calls.
use witchcraft_go_server.Base.{length, ◌+◌, ℕ, ◌||◌, some, List, [], ◌∷◌, ◌++◌, ◌≡◌, refl}
use witchcraft_go_server.Startup.Start.{always_healthy}
use witchcraft_go_server.Options.{new_server}
use witchcraft_go_server.Options.Calls.{With, configure}
use witchcraft_go_server.Options.Settings.{Setting, setting, last_given, or_else}
use witchcraft_go_server.Options.Switches.{
  Switch, switch, any_turns_on, Listing, listed, all_added, configure_lem,
}
use witchcraft_go_server.Options.Overlap.{
  Slice, Sources, reads, appends, updates, write_from, elements, contents, with_health_step, run,
  one_by_one, all_sources, with_health-overlap,
}

abbrev calls : List With
calls =
    With.health (1 ∷ [])
    ∷ With.disable_endpoint_500s
    ∷ With.disable_http2
    ∷ With.always_healthy_endpoint_500s
    ∷ With.health (2 ∷ 3 ∷ [])
    ∷ []

configure_lem_example :
    (setting Setting.endpoint_500s (configure calls new_server)
      ≡ or_else (last_given Setting.endpoint_500s calls) (setting Setting.endpoint_500s new_server))
    × (switch Switch.disable_http2 (configure calls new_server)
        ≡ (any_turns_on Switch.disable_http2 calls || switch Switch.disable_http2 new_server))
    × (listed Listing.health_sources (configure calls new_server)
        ≡ listed Listing.health_sources new_server ++ all_added Listing.health_sources calls)
configure_lem_example =
    configure_lem calls new_server Setting.endpoint_500s Switch.disable_http2 Listing.health_sources

last_check : last_given Setting.endpoint_500s calls ≡ some always_healthy
unfolding last_given
last_check = refl

-- Room for two more sources in the array of those that are there.
abbrev two_sources : Sources
two_sources =
    let held : Slice = record { array = 0; len = 2; cap = 4 } in
    record { arrays = λ a n. n + 7; next_array = 1; current = held; held = λ _. held }

abbrev doubled : ℕ → ℕ
doubled n = n + n

abbrev own : ℕ → List ℕ
own i = i ∷ []

with_health-overlap_example :
    (let s' = run doubled own (one_by_one (1 ∷ 2 ∷ [])) two_sources in
      contents s'.current s'
      ≡ contents two_sources.current two_sources ++ all_sources own (1 ∷ 2 ∷ []))
    × ((run doubled own
          (reads 1
            ∷ ((reads 2 ∷ appends 2 ∷ updates 2 ∷ []) ++ (appends 1 ∷ ([] ++ (updates 1 ∷ [])))))
          two_sources).current.len
        ≡ two_sources.current.len + length (own 1))
with_health-overlap_example =
    with_health-overlap doubled own (1 ∷ 2 ∷ []) 1 (reads 2 ∷ appends 2 ∷ updates 2 ∷ []) []
      two_sources (refl, (refl, (refl, tt))) tt

-- The calls have appended to one array: the list that the first leaves holds the second's source.
source_of_another :
    (let s' =
        run doubled own
          (reads 1 ∷ reads 2 ∷ appends 1 ∷ appends 2 ∷ updates 2 ∷ updates 1 ∷ [])
          two_sources in
      contents s'.current s')
    ≡ 7 ∷ 8 ∷ 2 ∷ []
unfolding run with_health_step write_from elements
source_of_another = refl
