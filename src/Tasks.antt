-- ===== src/Tasks.antt =====
-- Runnables and jobs: witchcraft/runnable_manager.go and witchcraft/job_manager.go, which
-- task_manager.go puts side by side. A runnable's wrappers and the runner of jobs are those of
-- witchcraft-go-tasks.
pub mod Shutdown
pub mod Server
mod Tests
use witchcraft_go_server.Base.{ℕ, Bool, true, false, not, List, [], ◌∷◌, ◌++◌, ◌==◌, if◌then◌else◌}

-- How a runnable ended: with an error, which its wrapper also makes of a panic, or without one, and
-- whether its context was cancelled by then. `forever` is whether AddForeverRunnable started it.
pub record Ending : Type 0 where
  pub forever : Bool
  pub failed : Bool
  pub cancelled : Bool

pub data Action : Type 0 where
  log_failed log_unexpected log_cancelled : Action
  server_shutdown : Action

-- The goroutine of startRunnable after its runnable.
unfoldable pub ended : Ending → List Action
ended e =
    if e.failed
    then log_failed ∷ server_shutdown ∷ []
    else if e.forever
    then (if e.cancelled then log_cancelled ∷ [] else log_unexpected ∷ server_shutdown ∷ [])
    else []

unfoldable pub ended_all : List Ending → List Action
unfolding ended
ended_all [] = []
ended_all (e ∷ es) = ended e ++ ended_all es

pub data JobAction : Type 0 where
  register_health : JobAction
  start_jobs : ℕ → JobAction

-- AddJobs of this many jobs, on hasHealthBeenAdded.
unfoldable pub add_jobs : ℕ → Bool → List JobAction × Bool
add_jobs n has_health =
    if n == 0
    then ([], has_health)
    else ((if has_health then [] else register_health ∷ []) ++ (start_jobs n ∷ []), true)

unfoldable pub add_all : List ℕ → Bool → List JobAction × Bool
unfolding add_jobs
add_all [] has_health = ([], has_health)
add_all (n ∷ ns) has_health =
    let (as1, h1) = add_jobs n has_health in let (as2, h2) = add_all ns h1 in (as1 ++ as2, h2)
