-- ===== src/Tasks/Tests.antt =====
-- Tasks at concrete endings and calls.
use witchcraft_go_server.Base.{
  ◌≡◌, refl, Bool, true, false, some, List, [], ◌∷◌, count_if, bit, if◌then◌else◌,
}
use witchcraft_go_server.Tasks.{Ending, ended_all}
use witchcraft_go_server.Tasks.Shutdown.{is_shutdown}
use witchcraft_go_server.Lifecycle.{Shared, new_server, running, idle}
use witchcraft_go_server.Tasks.Server.{
  is_panic, end_tasks, end_tasks-panics, first_fails, some_fatal,
}

abbrev endings : List Ending
endings =
    record { forever = true; failed = false; cancelled = true }
    ∷ record { forever = true; failed = false; cancelled = false }
    ∷ record { forever = false; failed = false; cancelled = false }
    ∷ record { forever = false; failed = true; cancelled = true }
    ∷ []

abbrev a_server : Shared
a_server = record new_server {
  state = running;
  shutdown_finished = some 3;
  has_logger = true;
  has_http_server = true;
}

abbrev with_outcomes : List (Ending × Bool)
with_outcomes =
    (record { forever = true; failed = false; cancelled = true }, true)
    ∷ (record { forever = true; failed = false; cancelled = false }, true)
    ∷ (record { forever = false; failed = true; cancelled = false }, true)
    ∷ []

end_tasks-panics_example :
    (count_if is_panic (end_tasks with_outcomes a_server).0 ≡ bit (first_fails with_outcomes))
    × ((end_tasks with_outcomes a_server).1.state
        ≡ (if some_fatal with_outcomes then idle else running))
end_tasks-panics_example = end_tasks-panics with_outcomes 3 a_server refl refl refl refl refl

one_panic : first_fails with_outcomes ≡ true
unfolding first_fails
one_panic = refl

four_endings : count_if is_shutdown (ended_all endings) ≡ 2
unfolding count_if ended_all
four_endings = refl
