-- ===== src/Example/Runs.antt =====
-- The background job of app_example/main.go in its runs.
use mathlib.Core.Path.{subst}
use witchcraft_go_server.Base.{
  ℕ, zero, suc, Bool, true, false, some, List, [], ◌∷◌, ◌++◌, ◌≡◌, refl, ap, ◌∙◌, arith,
}
use witchcraft_go_server.Example.{
  Job, Event, fires, cancels, takes_tick, takes_done, is_ready, do_event, run_tick, run_job,
}

-- f of the numbers below n, in their order.
unfoldable pub listed : {A : Type 0} → (ℕ → A) → ℕ → List A
listed f zero = []
listed f (suc n) = listed f n ++ (f n ∷ [])

-- Every tick has had a span of its own, which its line carries and which is finished.
abbrev pub IsListed : Job → Type 0
IsListed j = (j.lines ≡ listed some j.started) × (j.finished ≡ listed (λ n. n) j.started)

run_job-rest :
    (has_tracer : Bool) (e : Event) (es : List Event) (j j' : Job)
    → run_job has_tracer (e ∷ es) j ≡ some j'
    → run_job has_tracer es (do_event has_tracer e j) ≡ some j'
unfolding run_job
run_job-rest has_tracer e es j j' h = ground arith

do_event-IsListed : (e : Event) (j : Job) → IsListed j → IsListed (do_event true e j)
unfolding do_event run_tick listed
do_event-IsListed fires j i = i
do_event-IsListed cancels j i = i
do_event-IsListed takes_tick j (l, f) =
    (ap (λ xs. xs ++ (some j.started ∷ [])) l, ap (λ xs. xs ++ (j.started ∷ [])) f)
do_event-IsListed takes_done j i = i

run_job-IsListed :
    (es : List Event) (j j' : Job) → IsListed j → run_job true es j ≡ some j' → IsListed j'
unfolding run_job
run_job-IsListed [] j j' i h = let same : j ≡ j' = cc in subst IsListed same i
run_job-IsListed (e ∷ es) j j' i h =
    run_job-IsListed es (do_event true e j) j' (do_event-IsListed e j i)
      (run_job-rest true e es j j' h)

unfoldable pub rounds : ℕ → List Event
rounds zero = []
rounds (suc n) = takes_done ∷ rounds n

run_job-append :
    (has_tracer : Bool) (es fs : List Event) (j j' : Job)
    → run_job has_tracer es j ≡ some j'
    → run_job has_tracer (es ++ fs) j ≡ run_job has_tracer fs j'
unfolding run_job
run_job-append has_tracer [] fs j j' h = let same : j ≡ j' = cc in ap (run_job has_tracer fs) same
run_job-append has_tracer (e ∷ es) fs j j' h =
    let rest =
      run_job-append has_tracer es fs (do_event has_tracer e j) j'
        (run_job-rest has_tracer e es j j' h) in
    ground arith

run_job-rounds :
    (has_tracer : Bool) (n : ℕ) (j : Job)
    → j.cancelled ≡ true
    → run_job has_tracer (rounds n) j ≡ some j
unfolding run_job rounds is_ready do_event
run_job-rounds has_tracer zero j c = refl
run_job-rounds has_tracer (suc n) j c = let rest = run_job-rounds has_tracer n j c in ground arith

run_job-tick :
    (has_tracer : Bool) (j : Job)
    → run_job has_tracer (fires ∷ takes_tick ∷ []) j
      ≡ some (run_tick has_tracer (record j { pending = false }))
unfolding run_job is_ready do_event
run_job-tick has_tracer j = refl

-- In every run of the job with a tracer, each line that it has logged carries a span of its own, in
-- order, and all spans are finished. The end of the context ends nothing: from then on the job can
-- go round its loop any number of times without waiting, and a tick that fires after it is still
-- logged.
pub run_job-goes_on :
    (es : List Event) (j j' : Job) (n : ℕ)
    → IsListed j
    → run_job true es j ≡ some j'
    → j'.cancelled ≡ true
    → IsListed j'
      × (run_job true (es ++ rounds n) j ≡ some j')
      × (run_job true (es ++ (fires ∷ takes_tick ∷ [])) j
          ≡ some (run_tick true (record j' { pending = false })))
run_job-goes_on es j j' n i h c = (
  run_job-IsListed es j j' i h,
  run_job-append true es (rounds n) j j' h ∙ run_job-rounds true n j' c,
  run_job-append true es (fires ∷ takes_tick ∷ []) j j' h ∙ run_job-tick true j',
)
