-- ===== src/Lifecycle.antt =====
-- The life cycle of a server: witchcraft/server_state.go (the state and its manager), and the parts
-- of witchcraft/witchcraft.go that several goroutines run at once, `Start` and `stopServer`.
-- Each atomic action of a goroutine is one step, so the world of Lifecycle.Threads has every
-- interleaving of any number of calls of `Start`, `Shutdown` and `Close`.
pub mod Threads
pub mod Owner
pub mod SingleRun
pub mod Restart
pub mod Alone
pub mod Named
mod Tests
use witchcraft_go_server.Health.{HealthState, healthy, terminal}
use witchcraft_go_server.Base.{
  ℕ, suc, ◌+◌, Bool, true, false, not, ◌&&◌, ◌||◌, Option, none, some, ◌==◌, if◌then◌else◌,
}

-- `type ServerState int32`; `unknown` stands for the values that no constant names.
pub data ServerState : Type 0 where
  idle initializing running shutting_down : ServerState
  unknown : ℕ → ServerState

abbrev pub int32 : ServerState → ℕ
int32 idle = 0
int32 initializing = 1
int32 running = 2
int32 shutting_down = 3
int32 (unknown n) = n + 4

abbrev pub same : ServerState → ServerState → Bool
same a b = int32 a == int32 b

-- What the fields of `Server` that `Start` and `stopServer` share hold. A channel is a number, and
-- `closed` says which channels are closed; `none` is the nil channel.
pub record Shared : Type 0 where
  pub state : ServerState
  pub shutdown_finished : Option ℕ
  pub closed : ℕ → Bool
  pub next_chan : ℕ
  pub has_logger : Bool  -- s.svcLogger != nil
  pub has_http_server : Bool  -- s.httpServer != nil

abbrev pub new_server : Shared
new_server = record {
  state = idle;
  shutdown_finished = none;
  closed = λ _. false;
  next_chan = 0;
  has_logger = false;
  has_http_server = false;
}

abbrev pub update : (ℕ → Bool) → ℕ → Bool → ℕ → Bool
update f k b j = if j == k then b else f j

-- compareAndSwapState: whether the swap was made, and the state after it.
unfoldable pub compare_and_swap_state : Shared → ServerState → ServerState → Bool × Shared
compare_and_swap_state s old new =
    if same s.state old then (true, record s { state = new }) else (false, s)

pub data StartError : Type 0 where
  already_initializing already_running is_shutting_down unknown_state : StartError
  init_failed shut_down_before_start server_failed : StartError

-- The error of serverStateManager.Start, from the state that is read after the swap has failed.
unfoldable pub start_error : ServerState → StartError
start_error initializing = already_initializing
start_error running = already_running
start_error shutting_down = is_shutting_down
start_error _ = unknown_state

unfoldable pub is_running : Shared → Bool
is_running s = same s.state running

-- The readiness and liveness code of the state manager.
unfoldable pub status : Shared → ℕ
unfolding is_running
status s = if not (is_running s) then 503 else 200

-- The state of the SERVER_STATUS check.
unfoldable pub health_status : Shared → HealthState
unfolding is_running
health_status s = if not (is_running s) then terminal else healthy

-- Where a call of `Start` stands. `r` is the error that it will return.
pub data StartPc : Type 0 where
  cas report make_chan load init run_cas serve : StartPc
  reset_read : Option StartError → StartPc
  reset : Option StartError → ServerState → StartPc
  await : Option StartError → Option ℕ → StartPc
  exit returned : Option StartError → StartPc

-- The deferred loop of `Start` that resets the state to idle, at its `switch`.
reset_step : Option StartError → ServerState → Shared → StartPc × Shared
unfolding compare_and_swap_state
reset_step r idle s = (exit r, s)
reset_step r shutting_down s = (await r s.shutdown_finished, s)
reset_step r cur s =
    let (swapped, s') = compare_and_swap_state s cur idle in
    (if swapped then exit r else reset_read r, s')

-- One atomic action of a call of `Start`. `fails` is the choice of the environment: whether what
-- the phase calls returns an error or panics. `none` is a call that is blocked, or has returned.
unfoldable pub start_step : Bool → StartPc → Shared → Option (StartPc × Shared)
unfolding reset_step compare_and_swap_state start_error
start_step fails cas s =
    let (swapped, s') = compare_and_swap_state s idle initializing in
    some (if swapped then make_chan else report, s')
start_step fails report s = some (exit (some (start_error s.state)), s)
start_step fails make_chan s = some (
  load,
  record s {
    shutdown_finished = some s.next_chan;
    closed = update s.closed s.next_chan false;
    next_chan = suc s.next_chan;
  },
)
start_step fails load s =
    some
      (if fails then (reset_read (some init_failed), s) else (init, record s { has_logger = true }))
start_step fails init s = some (
    if fails
    then (reset_read (some init_failed), s)
    else (run_cas, record s { has_http_server = true }))
start_step fails run_cas s =
    let (swapped, s') = compare_and_swap_state s initializing running in
    some (if swapped then serve else reset_read (some shut_down_before_start), s')
start_step fails serve s = some (reset_read (if fails then some server_failed else none), s)
start_step fails (reset_read r) s = some (reset r s.state, s)
start_step fails (reset r cur) s = some (reset_step r cur s)
start_step fails (await r none) s = none
start_step fails (await r (some k)) s = if s.closed k then some (reset_read r, s) else none
start_step fails (exit none) s = some (returned none, s)
start_step fails (exit (some e)) s = some (returned (some e), record s { has_logger = true })
start_step fails (returned r) s = none

-- Where a call of `Shutdown` or `Close` stands. `crashed` is a call that has panicked.
pub data StopPc : Type 0 where
  entry read : StopPc
  loop : ServerState → StopPc
  stopping : StopPc
  set_idle close_chan done : Bool → StopPc
  crashed : StopPc

unfoldable pub close_channel : Bool → Option ℕ → Shared → StopPc × Shared
close_channel failed none s = (crashed, s)
close_channel failed (some k) s =
    if s.closed k then (crashed, s) else (done failed, record s { closed = update s.closed k true })

-- The head of the loop of `stopServer`.
loop_step : ServerState → Shared → StopPc × Shared
unfolding compare_and_swap_state
loop_step cur s =
    let (swapped, s') = compare_and_swap_state s cur shutting_down in
    if same cur idle || same cur shutting_down
    then (done false, s)
    else (if swapped then stopping else read, s')

-- One atomic action of a call of `Shutdown` or `Close`: the log line, which needs the logger, then
-- `stopServer` and its deferred function. `fails`: the http server's stopper returns an error.
unfoldable pub stop_step : Bool → StopPc → Shared → Option (StopPc × Shared)
unfolding loop_step close_channel
stop_step fails entry s = some (if s.has_logger then read else crashed, s)
stop_step fails read s = some (loop s.state, s)
stop_step fails (loop cur) s = some (loop_step cur s)
stop_step fails stopping s = some (set_idle (s.has_http_server && fails), s)
stop_step fails (set_idle failed) s = some (close_chan failed, record s { state = idle })
stop_step fails (close_chan failed) s = some (close_channel failed s.shutdown_finished s)
stop_step fails (done failed) s = none
stop_step fails crashed s = none
