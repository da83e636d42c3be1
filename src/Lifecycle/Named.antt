-- ===== src/Lifecycle/Named.antt =====
-- The names of the states (String of ServerState in witchcraft/server_state.go), and the error of a
-- call of `Start` that finds none of the states that it has a message for.
use witchcraft_go_server.Base.{
  ℕ, ◌<◌, ◌≡◌, ◌↔◌, refl, sym, ap, ◌∙◌, Bool, false, Option, some, List, [], ◌∷◌, String, arith,
  get_elem?,
}
use witchcraft_go_server.Lifecycle.{StartError}
use Prim.Native.String.{◌++◌ as str_append}
use witchcraft_go_server.Lifecycle.{
  ServerState, Shared, StartPc, StopPc, idle, initializing, running, shutting_down, unknown, int32,
  report, exit, unknown_state, start_step, stop_step, start_error,
}
use witchcraft_go_server.Lifecycle.Threads.{World, start, stop, Reach, here, next, boot}

-- String; `itoa` is strconv.Itoa.
unfoldable pub state_string : (ℕ → String) → ServerState → String
state_string itoa idle = "idle"
state_string itoa initializing = "initializing"
state_string itoa running = "running"
state_string itoa shutting_down = "shutting down"
state_string itoa (unknown n) = str_append "unknown state: " (itoa (int32 (unknown n)))

abbrev pub state_names : List String
state_names = "idle" ∷ "initializing" ∷ "running" ∷ "shutting down" ∷ []

start_step-int32 :
    (fails : Bool) (t t' : StartPc) (s s' : Shared)
    → start_step fails t s ≡ some (t', s')
    → int32 s.state < 4
    → int32 s'.state < 4
unfolding start_step
start_step-int32 fails t t' s s' h n = ground arith

stop_step-int32 :
    (fails : Bool) (t t' : StopPc) (s s' : Shared)
    → stop_step fails t s ≡ some (t', s')
    → int32 s.state < 4
    → int32 s'.state < 4
unfolding stop_step
stop_step-int32 fails t t' s s' h n = ground arith

Reach-int32 : {u w : World} → int32 u.shared.state < 4 → Reach u w → int32 w.shared.state < 4
Reach-int32 h here = h
Reach-int32 h (next {u = v} r (start i fails t t' s' at e)) =
    start_step-int32 fails t t' v.shared s' e (Reach-int32 h r)
Reach-int32 h (next {u = v} r (stop i fails t t' s' at e)) =
    stop_step-int32 fails t t' v.shared s' e (Reach-int32 h r)

string_lem :
    (itoa : ℕ → String) (s : ServerState)
    → int32 s < 4
    → get_elem? state_names (int32 s) ≡ some (state_string itoa s)
unfolding state_string
string_lem itoa idle h = refl
string_lem itoa initializing h = refl
string_lem itoa running h = refl
string_lem itoa shutting_down h = refl
string_lem itoa (unknown n) h = absurd (omega (arith, h))

error_iff : (x : ServerState) → int32 x < 4 → (start_error x ≡ unknown_state) ↔ (x ≡ idle)
unfolding start_error
error_iff idle h = (λ e. refl, λ e. refl)
error_iff initializing h = (λ e. absurd (cc), λ e. absurd (cc))
error_iff running h = (λ e. absurd (cc), λ e. absurd (cc))
error_iff shutting_down h = (λ e. absurd (cc), λ e. absurd (cc))
error_iff (unknown n) h = absurd (omega (arith, h))

report_lem : (s : Shared) → start_step false report s ≡ some (exit (some (start_error s.state)), s)
unfolding start_step
report_lem s = refl

exit_same :
    (a b : StartError) (s : Shared)
    → ◌≡◌ {A = Option (StartPc × Shared)} (some (exit (some a), s)) (some (exit (some b), s))
    → a ≡ b
exit_same a b s h = cc

report_iff :
    (s : Shared)
    → int32 s.state < 4
    → (start_step false report s ≡ some (exit (some unknown_state), s)) ↔ (s.state ≡ idle)
report_iff s h = (
  λ e.
      (error_iff s.state h).0
        (exit_same (start_error s.state) unknown_state s (sym (report_lem s) ∙ e)),
  λ e. report_lem s ∙ ap (λ a. some (exit (some a), s)) ((error_iff s.state h).1 e),
)

-- However many calls of `Start`, `Shutdown` and `Close` run and however they interleave, the state is
-- always one of the four constants, and its string is the word for that constant, never the one for
-- an unknown state. So a call of `Start` whose swap has failed returns the error that the server is
-- in an unknown state and must be stopped if and only if the server is idle when it looks.
pub state_string-named :
    (itoa : ℕ → String) (m n : ℕ) {w : World}
    → Reach (boot m n) w
    → (int32 w.shared.state < 4)
      × (get_elem? state_names (int32 w.shared.state) ≡ some (state_string itoa w.shared.state))
      × ((start_step false report w.shared ≡ some (exit (some unknown_state), w.shared))
          ↔ (w.shared.state ≡ idle))
state_string-named itoa m n {w} r =
    let h = Reach-int32 {u = boot m n} (omega arith) r in
    (h, string_lem itoa w.shared.state h, report_iff w.shared h)
