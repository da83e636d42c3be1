-- ===== src/Example/Tests.antt =====
-- The example at concrete configurations and runs.
use witchcraft_go_server.Base.{
  ℕ, true, false, Option, none, some, [], ◌∷◌, ◌++◌, String, ◌≡◌, inr, refl,
}
use witchcraft_go_server.Example.{
  Job, new_job, run_job, run_tick, fires, cancels, takes_tick, init_fn, init_fn-serves, serve,
  both_routes, is_ready, do_event,
}
use witchcraft_go_server.Example.Runs.{IsListed, rounds, run_job-goes_on, listed}

abbrev accepts_all : String → Option ℕ
accepts_all path = none

both_registered :
    init_fn accepts_all (record { my_num = 3 }) [] ≡ inr (both_routes (record { my_num = 3 }))
unfolding init_fn
both_registered = refl

served :
    (serve (both_routes (record { my_num = 3 })) "/installNum" (record { my_num = 4 }) ≡ some 3)
    × (serve (both_routes (record { my_num = 3 })) "/runtimeNum" (record { my_num = 4 }) ≡ some 4)
served =
    init_fn-serves accepts_all (record { my_num = 3 }) (both_routes (record { my_num = 3 }))
      (record { my_num = 4 }) both_registered

abbrev after_two : Job
after_two = record new_job {
  cancelled = true;
  span = some 1;
  started = 2;
  lines = some 0 ∷ some 1 ∷ [];
  finished = 0 ∷ 1 ∷ [];
}

new_job-IsListed : IsListed new_job
unfolding listed
new_job-IsListed = (refl, refl)

two_ticks :
    run_job true (fires ∷ takes_tick ∷ fires ∷ takes_tick ∷ cancels ∷ []) new_job ≡ some after_two
unfolding run_job is_ready do_event run_tick
two_ticks = refl

goes_on :
    IsListed after_two
    × (run_job true ((fires ∷ takes_tick ∷ fires ∷ takes_tick ∷ cancels ∷ []) ++ rounds 3) new_job
        ≡ some after_two)
    × (run_job true
          ((fires ∷ takes_tick ∷ fires ∷ takes_tick ∷ cancels ∷ []) ++ (fires ∷ takes_tick ∷ []))
          new_job
        ≡ some (run_tick true (record after_two { pending = false })))
goes_on =
    run_job-goes_on (fires ∷ takes_tick ∷ fires ∷ takes_tick ∷ cancels ∷ []) new_job after_two 3
      new_job-IsListed two_ticks refl
