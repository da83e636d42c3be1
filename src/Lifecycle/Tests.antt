-- ===== src/Lifecycle/Tests.antt =====
-- Schedules of the life cycle, and the theorems at worlds that they reach.
use witchcraft_go_server.Lifecycle.Named.{state_names, state_string, state_string-named}
use witchcraft_go_server.Lifecycle.{report, unknown_state, int32}
use witchcraft_go_server.Base.{
  ℕ, String, ◌<◌, ◌↔◌, ◌≡◌, ◌≢◌, refl, arith, none, true, false, some, Bool, List, [], ◌∷◌, ◌++◌,
  get_elem?, bit, count_if, ◌⊎◌,
}
use witchcraft_go_server.Lifecycle.{
  idle, initializing, shutting_down, cas, make_chan, init, load, returned, close_chan, crashed,
  start_step, stop_step, shut_down_before_start, Shared, new_server, running, entry, reset_read,
  exit,
}
use witchcraft_go_server.Lifecycle.Threads.{
  World, Step, Reach, Move, start_at, stop_at, boot, run, Reach-run,
}
use witchcraft_go_server.Lifecycle.Owner.{owns, is_shutting_down, stop_exclusive}
use witchcraft_go_server.Lifecycle.SingleRun.{CanClose, close_safe}
use witchcraft_go_server.Lifecycle.SingleRun.Progress.{Ended, no_deadlock}
use witchcraft_go_server.Lifecycle.Alone.{is_done, stop_alone, start_alone, stop_alone-is_done}
use witchcraft_go_server.Lifecycle.Restart.{start_before_close}

-- The first call of `Start`, as far as the loggers.
abbrev to_init : List Move
to_init = start_at 0 false ∷ start_at 0 false ∷ start_at 0 false ∷ []

-- The first stopping call, as far as its swap.
abbrev to_swap : List Move
to_swap = stop_at 0 false ∷ stop_at 0 false ∷ stop_at 0 false ∷ []

-- As far as its store of "idle".
abbrev to_close : List Move
to_close = stop_at 0 false ∷ stop_at 0 false ∷ []

abbrev stopping_world : World
stopping_world = run (boot 1 2) (to_init ++ to_swap)

stopping_state : stopping_world.shared.state ≡ shutting_down
unfolding run start_step stop_step
stopping_state = refl

abbrev closing_world : World
closing_world = run (boot 1 2) (to_init ++ (to_swap ++ to_close))

closing_call : get_elem? closing_world.stops 0 ≡ some (close_chan false)
unfolding run start_step stop_step
closing_call = refl

abbrev ended_moves : List Move
ended_moves =
    to_init
    ++ (to_swap
        ++ (to_close
            ++ (stop_at 0 false
                ∷ start_at 0 false
                ∷ start_at 0 false
                ∷ start_at 0 false
                ∷ start_at 0 false
                ∷ start_at 0 false
                ∷ [])))

abbrev ended_world : World
ended_world = run (boot 1 1) ended_moves

ended_start : get_elem? ended_world.starts 0 ≡ some (returned (some shut_down_before_start))
unfolding run start_step stop_step
ended_start = refl

stop_exclusive_example :
    count_if owns stopping_world.stops ≡ bit (is_shutting_down stopping_world.shared.state)
stop_exclusive_example = stop_exclusive 1 2 (Reach-run (boot 1 2) (to_init ++ to_swap))

close_safe_example : CanClose closing_world.shared
close_safe_example =
    close_safe 2 0 false (Reach-run (boot 1 2) (to_init ++ (to_swap ++ to_close))) closing_call

no_deadlock_example : Ended closing_world ⊎ ((w' : World) × Step closing_world w')
no_deadlock_example = no_deadlock 2 (Reach-run (boot 1 2) (to_init ++ (to_swap ++ to_close)))

abbrev race_world : World
race_world = run (boot 2 2) (to_init ++ (to_swap ++ to_close))

race_stop : get_elem? race_world.stops 0 ≡ some (close_chan false)
unfolding run start_step stop_step
race_stop = refl

race_start : get_elem? race_world.starts 1 ≡ some cas
unfolding run start_step stop_step
race_start = refl

race_idle : race_world.shared.state ≡ idle
unfolding run start_step stop_step
race_idle = refl

start_before_close_example :
    (w' : World) × Reach race_world w'
    × (w'.shared.state ≡ initializing)
    × (get_elem? w'.starts 1 ≡ some load)
    × (w'.shared.shutdown_finished ≡ some race_world.shared.next_chan)
    × (w'.shared.closed race_world.shared.next_chan ≡ true)
    × ((fails b : Bool) → stop_step fails (close_chan b) w'.shared ≡ some (crashed, w'.shared))
start_before_close_example = start_before_close race_world 0 1 false race_stop race_start race_idle

-- A second stopping call panics when it comes to close the channel of the second run.
abbrev panic_moves : List Move
panic_moves =
    to_init
    ++ (to_swap
        ++ (to_close
            ++ (start_at 1 false
                ∷ start_at 1 false
                ∷ stop_at 0 false
                ∷ stop_at 1 false
                ∷ stop_at 1 false
                ∷ stop_at 1 false
                ∷ stop_at 1 false
                ∷ stop_at 1 false
                ∷ stop_at 1 false
                ∷ [])))

second_stop_panics : get_elem? (run (boot 2 2) panic_moves).stops 1 ≡ some crashed
unfolding run start_step stop_step
second_stop_panics = refl

-- After a stop during initialization, a second call of `Start` is let in while the first is still
-- initializing.
two_runs :
    (get_elem? (run race_world (start_at 1 false ∷ [])).starts 0 ≡ some init)
    × (get_elem? (run race_world (start_at 1 false ∷ [])).starts 1 ≡ some make_chan)
unfolding run start_step stop_step
two_runs = (refl, refl)

abbrev a_running_server : Shared
a_running_server = record new_server {
  state = running;
  shutdown_finished = some 0;
  next_chan = 1;
  has_logger = true;
  has_http_server = true;
}

stop_alone-is_done_example :
    (is_done (stop_alone 6 true entry a_running_server).0 ≡ true)
    × ((stop_alone 6 true entry a_running_server).1.state ≡ idle)
    × ((start_alone 2 false (reset_read none) (stop_alone 6 true entry a_running_server).1).0
        ≡ exit none)
stop_alone-is_done_example =
    stop_alone-is_done false true none a_running_server 0 refl refl refl running_not_stopping
  where
    running_not_stopping : running ≢ shutting_down
    running_not_stopping = ground arith

-- The second call of `Start` has failed its swap before the server was stopped, and has not looked.
abbrev late_moves : List Move
late_moves =
    start_at 0 false
    ∷ start_at 1 false
    ∷ start_at 0 false
    ∷ start_at 0 false
    ∷ (to_swap ++ to_close)

abbrev late_world : World
late_world = run (boot 2 1) late_moves

late_report : get_elem? late_world.starts 1 ≡ some report
unfolding run start_step stop_step
late_report = refl

late_idle : late_world.shared.state ≡ idle
unfolding run start_step stop_step
late_idle = refl

abbrev digits : ℕ → String
digits n = "n"

state_string-named_example :
    (int32 late_world.shared.state < 4)
    × (get_elem? state_names (int32 late_world.shared.state)
        ≡ some (state_string digits late_world.shared.state))
    × ((start_step false report late_world.shared
          ≡ some (exit (some unknown_state), late_world.shared))
        ↔ (late_world.shared.state ≡ idle))
state_string-named_example = state_string-named digits 2 1 (Reach-run (boot 2 1) late_moves)
