-- ===== src/Tasks/Shutdown.antt =====
-- When tasks shut the server down, and when the health of jobs is registered.
use witchcraft_go_server.Base.{
  ℕ, ◌≡◌, refl, Bool, true, false, not, ◌&&◌, ◌||◌, List, [], ◌∷◌, ◌==◌, bit, count_if,
  count_if-append, arith,
}
use witchcraft_go_server.Tasks.{
  Ending, Action, server_shutdown, ended, ended_all, JobAction, register_health, start_jobs,
  add_jobs, add_all,
}

abbrev pub is_shutdown : Action → Bool
is_shutdown server_shutdown = true
is_shutdown _ = false

-- A runnable that should not have ended like this.
abbrev pub is_fatal : Ending → Bool
is_fatal e = e.failed || (e.forever && not e.cancelled)

ended-shutdown : (e : Ending) → count_if is_shutdown (ended e) ≡ bit (is_fatal e)
unfolding ended count_if
ended-shutdown e = ground arith

-- Of any runnables that have ended, each that failed, or was to run for ever and ended without its
-- context being cancelled, asks once for the server's shutdown, and no other does.
pub ended_all-shutdown :
    (es : List Ending) → count_if is_shutdown (ended_all es) ≡ count_if is_fatal es
unfolding ended_all count_if
ended_all-shutdown [] = refl
ended_all-shutdown (e ∷ es) = omega (
  arith,
  count_if-append is_shutdown (ended e) (ended_all es),
  ended-shutdown e,
  ended_all-shutdown es,
)

abbrev pub is_registration : JobAction → Bool
is_registration register_health = true
is_registration (start_jobs n) = false

abbrev pub some_jobs : List ℕ → Bool
some_jobs [] = false
some_jobs (n ∷ ns) = not (n == 0) || some_jobs ns

add_jobs-registers :
    (n : ℕ) (has_health : Bool)
    → let (as1, h) = add_jobs n has_health in
      (count_if is_registration as1 ≡ bit (not has_health && not (n == 0)))
      × (h ≡ (has_health || not (n == 0)))
unfolding add_jobs count_if
add_jobs-registers n has_health = ground arith

-- Over any calls that add jobs to a manager, the health of jobs is registered once if it was not
-- before and some call adds a job, and else never.
pub add_all-registers :
    (ns : List ℕ) (has_health : Bool)
    → count_if is_registration (add_all ns has_health).0 ≡ bit (not has_health && some_jobs ns)
unfolding add_all count_if
add_all-registers [] has_health = ground arith
add_all-registers (n ∷ ns) has_health =
    let (as1, h1) = add_jobs n has_health in
    ground (
      arith,
      add_jobs-registers n has_health,
      add_all-registers ns h1,
      count_if-append is_registration as1 (add_all ns h1).0,
    )
