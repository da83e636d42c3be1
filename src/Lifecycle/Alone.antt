-- ===== src/Lifecycle/Alone.antt =====
-- The loops of stopServer and of the deferred function of Start, when no other goroutine changes
-- the server in between: both end, and in how many steps.
use witchcraft_go_server.Base.{
  ℕ, zero, suc, Bool, true, false, Option, none, some, ◌≡◌, ◌≢◌, refl, arith,
}
use witchcraft_go_server.Lifecycle.{
  ServerState, idle, initializing, running, shutting_down, unknown, Shared, StopPc, entry, done,
  stop_step, StartPc, StartError, reset_read, exit, start_step,
}

-- At most so many steps of a call of Shutdown or Close.
unfoldable pub stop_alone : ℕ → Bool → StopPc → Shared → StopPc × Shared
stop_alone zero fails pc s = (pc, s)
stop_alone (suc n) fails pc s = elim (stop_step fails pc s) [
  | none ↦ (pc, s)
  | some p ↦ stop_alone n fails p.0 p.1
]

-- At most so many steps of a call of Start.
unfoldable pub start_alone : ℕ → Bool → StartPc → Shared → StartPc × Shared
start_alone zero fails pc s = (pc, s)
start_alone (suc n) fails pc s = elim (start_step fails pc s) [
  | none ↦ (pc, s)
  | some p ↦ start_alone n fails p.0 p.1
]

abbrev pub is_done : StopPc → Bool
is_done (done failed) = true
is_done _ = false

stop_alone_ends :
    (fails : Bool) (s : Shared) (k : ℕ)
    → s.has_logger ≡ true
    → s.shutdown_finished ≡ some k
    → s.closed k ≡ false
    → s.state ≢ shutting_down
    → (is_done (stop_alone 6 fails entry s).0 ≡ true)
      × ((stop_alone 6 fails entry s).1.state ≡ idle)
unfolding stop_alone stop_step
stop_alone_ends fails s k h c o n = from_state s.state refl
  where
    from_state :
        (st : ServerState)
        → s.state ≡ st
        → (is_done (stop_alone 6 fails entry s).0 ≡ true)
          × ((stop_alone 6 fails entry s).1.state ≡ idle)
    from_state idle e = (ground arith, ground arith)
    from_state initializing e = (ground arith, ground arith)
    from_state running e = (ground arith, ground arith)
    from_state shutting_down e = absurd (n e)
    from_state (unknown m) e = (ground arith, ground arith)

reset_alone_ends :
    (fails : Bool) (r : Option StartError) (s : Shared)
    → s.state ≡ idle
    → (start_alone 2 fails (reset_read r) s).0 ≡ exit r
unfolding start_alone start_step
reset_alone_ends fails r s h = ground arith

-- A call of Shutdown or Close that runs alone, on a server with loggers and an open channel that no
-- other call is shutting down, returns within six steps and leaves the server idle; and the deferred
-- loop of Start that resets the state then ends within two steps.
pub stop_alone-is_done :
    (fails stop_fails : Bool) (r : Option StartError) (s : Shared) (k : ℕ)
    → s.has_logger ≡ true
    → s.shutdown_finished ≡ some k
    → s.closed k ≡ false
    → s.state ≢ shutting_down
    → (is_done (stop_alone 6 stop_fails entry s).0 ≡ true)
      × ((stop_alone 6 stop_fails entry s).1.state ≡ idle)
      × ((start_alone 2 fails (reset_read r) (stop_alone 6 stop_fails entry s).1).0 ≡ exit r)
stop_alone-is_done fails stop_fails r s k h c o n =
    let ends = stop_alone_ends stop_fails s k h c o n in
    (ends.0, ends.1, reset_alone_ends fails r (stop_alone 6 stop_fails entry s).1 ends.1)
