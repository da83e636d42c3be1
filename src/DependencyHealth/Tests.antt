-- ===== src/DependencyHealth/Tests.antt =====
-- The dependency check at concrete round trips and marks.
use witchcraft_go_server.Base.{
  map_option, true, false, none, some, List, [], ◌∷◌, arith, ◌≡◌, count_if,
}
use witchcraft_go_server.DependencyHealth.TimeBucket.{count, is_recent, mark, new_time_bucket}
use witchcraft_go_server.DependencyHealth.TimeBucket.Window.{
  Use, mark_at, count_at, after, marks, latest, IsMonotone, count_exact,
}
use witchcraft_go_server.DependencyHealth.Hosts.{
  HostStatus, new_host, Services, round_trip, server5xx, join_host_port,
}
use witchcraft_go_server.DependencyHealth.Hosts.Marks.{
  meter_of, host_of, lookup, host_of-round_trip,
}
use witchcraft_go_server.DependencyHealth.Check.{HostView, health_status}
use witchcraft_go_server.DependencyHealth.Check.Meaning.{Describes, report_means}

-- The latest first: marks at 10, 20 and 95, and counts at 30 and 105.
abbrev some_uses : List Use
some_uses = count_at 105 ∷ mark_at 95 95 ∷ count_at 30 ∷ mark_at 20 20 ∷ mark_at 10 10 ∷ []

some_uses-IsMonotone : IsMonotone some_uses
unfolding latest
some_uses-IsMonotone = (
  omega arith,
  (
    omega arith,
    omega arith,
    (omega arith, (omega arith, omega arith, (omega arith, omega arith, tt))),
  ),
)

count_exact_example :
    (count 110 (after 100 some_uses)).0 ≡ count_if (is_recent 100 110) (marks some_uses)
unfolding latest
count_exact_example = count_exact 100 110 some_uses some_uses-IsMonotone (omega arith)

abbrev one_mark : List Use
one_mark = mark_at 95 95 ∷ []

-- A host with a 2xx response at 95 and a network error at 10, with a window of 100 and a clock at
-- 100.
abbrev a_host : HostStatus
a_host = record (new_host 100) {
  meter2xx = after 100 one_mark;
  meter_err = after 100 (mark_at 10 10 ∷ []);
}

host_of-round_trip_example :
    map_option
      (meter_of server5xx)
      (host_of "users" "u1:80" (round_trip 100 "users" (some ("u1", "80")) none (some 503) 5 6 []))
    ≡ some (mark 5 6 (new_time_bucket 100))
unfolding host_of lookup join_host_port
host_of-round_trip_example =
    host_of-round_trip 100 "users" (some ("u1", "80")) none (some 503) 5 6 [] "users" "u1:80"
      server5xx

abbrev hosts_up : Services HostView
hosts_up =
    (
      "users",
      ("u1:80", record { active = true; well = true })
          ∷ ("u2:80", record { active = true; well = false })
          ∷ [],
    )
    ∷ ("items", ("i1:80", record { active = true; well = true }) ∷ [])
    ∷ []

report_means_example : Describes hosts_up (health_status hosts_up)
report_means_example = report_means hosts_up
