-- ===== src/Lifecycle/Threads.antt =====
-- Any number of calls of `Start` and of `Shutdown` or `Close` on one server, interleaved.
use witchcraft_go_server.Base.{
  ℕ, zero, suc, ◌≡◌, refl, Bool, Option, none, some, List, [], ◌∷◌, get_elem?, set,
}
use witchcraft_go_server.Lifecycle.{
  Shared, StartPc, StopPc, cas, entry, new_server, start_step, stop_step,
}

pub record World : Type 0 where
  pub shared : Shared
  pub starts : List StartPc
  pub stops : List StopPc

-- One call takes one step.
pub data Step : World → World → Type 0 where
  start :
      {w : World} (i : ℕ) (fails : Bool) (t t' : StartPc) (s' : Shared)
      → get_elem? w.starts i ≡ some t
      → start_step fails t w.shared ≡ some (t', s')
      → Step w (record w { shared = s'; starts = set w.starts i t' })
  stop :
      {w : World} (i : ℕ) (fails : Bool) (t t' : StopPc) (s' : Shared)
      → get_elem? w.stops i ≡ some t
      → stop_step fails t w.shared ≡ some (t', s')
      → Step w (record w { shared = s'; stops = set w.stops i t' })

pub data Reach (w : World) : World → Type 0 where
  here : Reach w w
  next : {u v : World} → Reach w u → Step u v → Reach w v

abbrev pub calls {ℓ} : {A : Type ℓ} → ℕ → A → List A
calls zero a = []
calls (suc n) a = a ∷ calls n a

-- A new server on which `m` calls of `Start` and `n` calls of `Shutdown` or `Close` are about to
-- run.
abbrev pub boot : ℕ → ℕ → World
boot m n = record { shared = new_server; starts = calls m cas; stops = calls n entry }

-- A schedule: which call moves next, and the choice that its environment makes.
pub data Move : Type 0 where
  start_at stop_at : ℕ → Bool → Move

start_moved : World → ℕ → Option (StartPc × Shared) → World
start_moved w i none = w
start_moved w i (some (t, s)) = record w { shared = s; starts = set w.starts i t }

stop_moved : World → ℕ → Option (StopPc × Shared) → World
stop_moved w i none = w
stop_moved w i (some (u, s)) = record w { shared = s; stops = set w.stops i u }

start_call : World → ℕ → Bool → Option StartPc → World
unfolding start_moved
start_call w i fails none = w
start_call w i fails (some t) = start_moved w i (start_step fails t w.shared)

stop_call : World → ℕ → Bool → Option StopPc → World
unfolding stop_moved
stop_call w i fails none = w
stop_call w i fails (some u) = stop_moved w i (stop_step fails u w.shared)

-- A call that is blocked or has ended does not move.
move : World → Move → World
unfolding start_call stop_call
move w (start_at i fails) = start_call w i fails (get_elem? w.starts i)
move w (stop_at i fails) = stop_call w i fails (get_elem? w.stops i)

-- The world after a schedule.
unfoldable pub run : World → List Move → World
unfolding move
run w [] = w
run w (m ∷ ms) = run (move w m) ms

Reach-start_call :
    (w : World) (i : ℕ) (fails : Bool) (o : Option StartPc)
    → get_elem? w.starts i ≡ o
    → Reach w (start_call w i fails o)
unfolding start_call
Reach-start_call w i fails none at = here
Reach-start_call w i fails (some t) at = moved (start_step fails t w.shared) refl
  where
    moved :
        (q : Option (StartPc × Shared))
        → start_step fails t w.shared ≡ q
        → Reach w (start_moved w i q)
    moved none e = here
    moved (some (t', s')) e = next here (start i fails t t' s' at e)

Reach-stop_call :
    (w : World) (i : ℕ) (fails : Bool) (o : Option StopPc)
    → get_elem? w.stops i ≡ o
    → Reach w (stop_call w i fails o)
unfolding stop_call
Reach-stop_call w i fails none at = here
Reach-stop_call w i fails (some u) at = moved (stop_step fails u w.shared) refl
  where
    moved :
        (q : Option (StopPc × Shared)) → stop_step fails u w.shared ≡ q → Reach w (stop_moved w i q)
    moved none e = here
    moved (some (u', s')) e = next here (stop i fails u u' s' at e)

Reach-move : (w : World) (m : Move) → Reach w (move w m)
unfolding move
Reach-move w (start_at i fails) = Reach-start_call w i fails (get_elem? w.starts i) refl
Reach-move w (stop_at i fails) = Reach-stop_call w i fails (get_elem? w.stops i) refl

pub Reach-trans : {u v w : World} → Reach u v → Reach v w → Reach u w
Reach-trans r here = r
Reach-trans r (next r' st) = next (Reach-trans r r') st

pub Reach-run : (w : World) (ms : List Move) → Reach w (run w ms)
unfolding run
Reach-run w [] = here
Reach-run w (m ∷ ms) = Reach-trans (Reach-move w m) (Reach-run (move w m) ms)
