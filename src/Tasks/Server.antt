-- ===== src/Tasks/Server.antt =====
-- The tasks of a server: getTaskManager, shutdownOrPanic and getJobRunnerHealthCheck of
-- witchcraft/witchcraft.go, which join the runnables and the jobs to the server's life cycle and to
-- its sources of health. A call of Shutdown runs alone here.
use mathlib.Core.List.{append-nil}
use witchcraft_go_server.Base.{
  ℕ, Bool, true, false, not, ◌&&◌, ◌||◌, Option, none, some, List, [], ◌∷◌, ◌++◌, if◌then◌else◌,
  bit, count_if, ◌≡◌, refl, ap, ◌∙◌, arith, Bool-cases, inl, inr,
}
use witchcraft_go_server.Lifecycle.{idle, running, Shared, StopPc, entry, done, stop_step}
use witchcraft_go_server.Lifecycle.Alone.{stop_alone}
use witchcraft_go_server.Tasks.{
  Ending, Action, server_shutdown, ended, JobAction, register_health, add_jobs,
}
use witchcraft_go_server.Tasks.Shutdown.{is_fatal, some_jobs}

-- How the goroutine of a runnable ends.
pub data Result : Type 0 where
  returns panics : Result

abbrev pub is_panic : Result → Bool
is_panic returns = false
is_panic panics = true

abbrev pub result_of : StopPc → Result
result_of (done false) = returns
result_of _ = panics

-- shutdownOrPanic; `fails` is whether the http server's shutdown fails.
unfoldable pub shutdown_or_panic : Bool → Shared → Result × Shared
unfolding stop_alone stop_step
shutdown_or_panic fails s = let (pc, s') = stop_alone 6 fails entry s in (result_of pc, s')

abbrev pub asks_shutdown : List Action → Bool
asks_shutdown [] = false
asks_shutdown (server_shutdown ∷ rest) = true
asks_shutdown (_ ∷ rest) = asks_shutdown rest

-- A runnable of the task manager has ended.
unfoldable pub end_task : Ending → Bool → Shared → Result × Shared
unfolding ended shutdown_or_panic
end_task e fails s = if asks_shutdown (ended e) then shutdown_or_panic fails s else (returns, s)

unfoldable pub end_tasks : List (Ending × Bool) → Shared → List Result × Shared
unfolding end_task
end_tasks [] s = ([], s)
end_tasks ((e, fails) ∷ es) s =
    let (r, s1) = end_task e fails s in let (rs, s2) = end_tasks es s1 in (r ∷ rs, s2)

-- Whether the shutdown fails that the first fatal ending asks for, and whether there is one.
unfoldable pub first_fails : List (Ending × Bool) → Bool
first_fails [] = false
first_fails ((e, fails) ∷ es) = if is_fatal e then fails else first_fails es

unfoldable pub some_fatal : List (Ending × Bool) → Bool
some_fatal [] = false
some_fatal ((e, fails) ∷ es) = is_fatal e || some_fatal es

ended-asks : (e : Ending) → asks_shutdown (ended e) ≡ is_fatal e
unfolding ended
ended-asks e = ground arith

shutdown-idle :
    (fails : Bool) (s : Shared)
    → s.has_logger ≡ true
    → s.state ≡ idle
    → let (r, s') = shutdown_or_panic fails s in
      (is_panic r ≡ false) × (s'.state ≡ idle) × (s'.has_logger ≡ true)
unfolding shutdown_or_panic stop_alone stop_step
shutdown-idle fails s l i = ground arith

shutdown-running :
    (fails : Bool) (k : ℕ) (s : Shared)
    → s.has_logger ≡ true
    → s.has_http_server ≡ true
    → s.shutdown_finished ≡ some k
    → s.closed k ≡ false
    → s.state ≡ running
    → let (r, s') = shutdown_or_panic fails s in
      (is_panic r ≡ fails) × (s'.state ≡ idle) × (s'.has_logger ≡ true)
unfolding shutdown_or_panic stop_alone stop_step
shutdown-running false k s l h f c r = ground arith
shutdown-running true k s l h f c r = ground arith

end_task-idle :
    (e : Ending) (fails : Bool) (s : Shared)
    → s.has_logger ≡ true
    → s.state ≡ idle
    → let (r, s') = end_task e fails s in
      (is_panic r ≡ false) × (s'.state ≡ idle) × (s'.has_logger ≡ true)
unfolding end_task
end_task-idle e fails s l i = elim (Bool-cases (asks_shutdown (ended e))) [
  | inl yes_it_does ↦ rw yes_it_does (shutdown-idle fails s l i)
  | inr no_it_does_not ↦ rw no_it_does_not (refl, i, l)
]

end_tasks-idle :
    (es : List (Ending × Bool)) (s : Shared)
    → s.has_logger ≡ true
    → s.state ≡ idle
    → (count_if is_panic (end_tasks es s).0 ≡ 0) × ((end_tasks es s).1.state ≡ idle)
unfolding end_tasks count_if
end_tasks-idle [] s l i = (refl, i)
end_tasks-idle ((e, fails) ∷ es) s l i =
    let (r, s1) = end_task e fails s in
    let (quiet, still, logs) = end_task-idle e fails s l i in
    ground (arith, end_tasks-idle es s1 logs still)

-- Runnables of a running server end, in any order: no fatal ending leaves the server as it is; else
-- the first one shuts the server down, and its goroutine panics, which no one recovers, if the http
-- server could not be shut down. No other goroutine panics.
pub end_tasks-panics :
    (es : List (Ending × Bool)) (k : ℕ) (s : Shared)
    → s.has_logger ≡ true
    → s.has_http_server ≡ true
    → s.shutdown_finished ≡ some k
    → s.closed k ≡ false
    → s.state ≡ running
    → (count_if is_panic (end_tasks es s).0 ≡ bit (first_fails es))
      × ((end_tasks es s).1.state ≡ (if some_fatal es then idle else running))
unfolding end_tasks end_task first_fails some_fatal count_if
end_tasks-panics [] k s l h f c r = (refl, r)
end_tasks-panics ((e, fails) ∷ es) k s l h f c r = elim (Bool-cases (is_fatal e)) [
  | inl fatal ↦
      let asks = ended-asks e ∙ fatal in
      let (panic, stopped, logs) = shutdown-running fails k s l h f c r in
      let (quiet, still) = end_tasks-idle es (shutdown_or_panic fails s).1 logs stopped in
      rw (asks, fatal) (omega (arith, ap bit panic, quiet), still)
  | inr fine ↦
      let (panics_of, state_of) = end_tasks-panics es k s l h f c r in
      rw (ended-asks e ∙ fine, fine) (omega (arith, panics_of), state_of)
]

-- getJobRunnerHealthCheck: the check of the options, or one of the type WITCHCRAFT_JOB_RUNNER.
pub data JobCheck : Type 0 where
  witchcraft_job_runner : JobCheck
  configured : ℕ → JobCheck

abbrev pub job_runner_health_check : Option ℕ → JobCheck
job_runner_health_check none = witchcraft_job_runner
job_runner_health_check (some check) = configured check

-- The job manager of getTaskManager, with the server's sources of health.
pub record Jobs : Type 0 where
  pub has_health_been_added : Bool
  pub check : JobCheck
  pub sources : List JobCheck

-- registerHealth, which is WithHealth.
abbrev pub register : JobCheck → List JobAction → List JobCheck → List JobCheck
register check [] sources = sources
register check (register_health ∷ rest) sources = register check rest (sources ++ (check ∷ []))
register check (_ ∷ rest) sources = register check rest sources

unfoldable pub server_add_jobs : ℕ → Jobs → Jobs
unfolding add_jobs
server_add_jobs n j =
    let (actions, added) = add_jobs n j.has_health_been_added in
    record j { has_health_been_added = added; sources = register j.check actions j.sources }

unfoldable pub server_add_all : List ℕ → Jobs → Jobs
server_add_all [] j = j
server_add_all (n ∷ ns) j = server_add_all ns (server_add_jobs n j)

-- Over any calls that add jobs, the check of jobs becomes a source of health once, when a call first
-- adds a job.
pub server_add_all-sources :
    (ns : List ℕ) (j : Jobs)
    → (server_add_all ns j).sources
      ≡ j.sources ++ (if not j.has_health_been_added && some_jobs ns then j.check ∷ [] else [])
unfolding server_add_all server_add_jobs
server_add_all-sources [] j = ground (arith, append-nil j.sources)
server_add_all-sources (n ∷ ns) j = ground (
  arith,
  server_add_all-sources ns (server_add_jobs n j),
  append-nil j.sources,
  append-nil (j.sources ++ (j.check ∷ [])),
)
