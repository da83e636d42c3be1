-- ===== src/Limiter/Tests.antt =====
-- The limiter at concrete requests.
use witchcraft_go_server.Limiter.Recovery.{is_pending, health_recovers}
use witchcraft_go_server.Base.{false, ◌≤◌, ◌≡◌, refl, true, some, [], ◌∷◌, arith, count_if}
use witchcraft_go_server.Base.Int.{ℤ, pos, pos_part}
use witchcraft_go_server.Health.{repairing, healthy}
use witchcraft_go_server.Limiter.{rejected, answered, reports, running, request_step}
use witchcraft_go_server.Limiter.Runs.{run, Reach-run, World, Reach, here, boot}
use witchcraft_go_server.Limiter.Bound.{is_running, running_bounded}

abbrev IsOne : ℤ → Type 0
IsOne n = pos_part n ≡ 1

-- Two requests arrive at a limit of one: the first runs, the second is throttled.
abbrev start : World
start = boot (pos 1) true (true ∷ true ∷ [])

abbrev full : World
full = run start (0 ∷ 0 ∷ 1 ∷ 1 ∷ 1 ∷ 1 ∷ [])

full_runs :
    (full.limiter ≡ record { max_in_flight = pos 1; health = some repairing; current = 2 })
    × (full.requests ≡ running ∷ rejected ∷ [])
unfolding run request_step
full_runs = (refl, refl)

full-Reach : Reach IsOne start full
full-Reach = Reach-run IsOne start start (0 ∷ 0 ∷ 1 ∷ 1 ∷ 1 ∷ 1 ∷ []) here

-- Then both leave, the throttled one last.
abbrev over : World
over = run full (0 ∷ 0 ∷ 0 ∷ 1 ∷ 1 ∷ 1 ∷ 1 ∷ 1 ∷ [])

over_runs : over.requests ≡ answered false ∷ answered true ∷ []
unfolding run request_step
over_runs = refl

over_pending : count_if is_pending over.requests ≡ 0
unfolding run request_step count_if
over_pending = refl

running_bounded_example : count_if is_running full.requests ≤ 1
running_bounded_example =
    running_bounded IsOne 1 (λ m h. omega arith) (pos 1) true (true ∷ true ∷ []) refl full-Reach

health_recovers_example : reports over.limiter.health healthy ≡ true
health_recovers_example =
    health_recovers IsOne (λ m h. omega arith) (pos 1) true (true ∷ true ∷ []) refl
      (Reach-run IsOne start full (0 ∷ 0 ∷ 0 ∷ 1 ∷ 1 ∷ 1 ∷ 1 ∷ 1 ∷ []) full-Reach) over_pending
