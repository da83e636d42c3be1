-- ===== src/Signals/Tests.antt =====
-- The handler of signals at concrete events.
use witchcraft_go_server.Base.{true, false, some, List, [], ◌∷◌, ◌≡◌, refl, map_option}
use witchcraft_go_server.Signals.{
  Event, signal, scheduled, returned, sigterm, sigint, run, init_shutdown_signal_handler, handle,
  received_shutdown_signal, failed_to_shutdown,
}

abbrev two_signals : List Event
two_signals =
    signal sigterm ∷ signal sigint ∷ scheduled ∷ signal sigint ∷ returned true ∷ scheduled ∷ []

one_shutdown :
    map_option (λ h. (run two_signals h).log) (init_shutdown_signal_handler false)
    ≡ some (received_shutdown_signal sigterm ∷ failed_to_shutdown ∷ [])
unfolding run handle init_shutdown_signal_handler
one_shutdown = refl
