-- ===== src/Options/Switches.antt =====
-- What the calls of the With functions make of the server: its switches, its lists, and its settings.
use mathlib.Core.List.{append-nil, append_assoc}
use witchcraft_go_server.Base.{
  ℕ, Bool, true, false, ◌||◌, List, [], ◌∷◌, ◌++◌, ◌≡◌, refl, sym, ap, ◌∙◌, arith,
}
use witchcraft_go_server.Options.{Server, current_sources}
use witchcraft_go_server.Options.Calls.{With, apply, configure}
use witchcraft_go_server.Options.Settings.{Setting, setting, last_given, or_else, configure-setting}

-- The switches, which a call turns on and none turns off.
pub data Switch : Type 0 where
  use_self_signed_server_certificate disable_sig_quit_handler disable_shutdown_signal_handler
        disable_service_dependency_health disable_go_runtime_metrics svc_log_origin_from_call_line
        disable_keep_alives disable_http2 dual_log_audit_v2_to_audit_v3
        dual_log_audit_v3_to_audit_v2 :
      Switch

abbrev pub switch : Switch → Server → Bool
switch Switch.use_self_signed_server_certificate s = s.use_self_signed_server_certificate
switch Switch.disable_sig_quit_handler s = s.disable_sig_quit_handler
switch Switch.disable_shutdown_signal_handler s = s.disable_shutdown_signal_handler
switch Switch.disable_service_dependency_health s = s.disable_service_dependency_health
switch Switch.disable_go_runtime_metrics s = s.disable_go_runtime_metrics
switch Switch.svc_log_origin_from_call_line s = s.svc_log_origin_from_call_line
switch Switch.disable_keep_alives s = s.disable_keep_alives
switch Switch.disable_http2 s = s.disable_http2
switch Switch.dual_log_audit_v2_to_audit_v3 s = s.dual_log_audit_v2_to_audit_v3
switch Switch.dual_log_audit_v3_to_audit_v2 s = s.dual_log_audit_v3_to_audit_v2

abbrev pub turns_on : Switch → With → Bool
turns_on Switch.use_self_signed_server_certificate With.self_signed_certificate = true
turns_on Switch.use_self_signed_server_certificate _ = false
turns_on Switch.disable_sig_quit_handler With.disable_sig_quit_handler = true
turns_on Switch.disable_sig_quit_handler _ = false
turns_on Switch.disable_shutdown_signal_handler With.disable_shutdown_signal_handler = true
turns_on Switch.disable_shutdown_signal_handler _ = false
turns_on Switch.disable_service_dependency_health With.disable_service_dependency_health = true
turns_on Switch.disable_service_dependency_health _ = false
turns_on Switch.disable_go_runtime_metrics With.disable_go_runtime_metrics = true
turns_on Switch.disable_go_runtime_metrics _ = false
turns_on Switch.svc_log_origin_from_call_line With.origin_from_call_line = true
turns_on Switch.svc_log_origin_from_call_line _ = false
turns_on Switch.disable_keep_alives With.disable_keep_alives = true
turns_on Switch.disable_keep_alives _ = false
turns_on Switch.disable_http2 With.disable_http2 = true
turns_on Switch.disable_http2 _ = false
turns_on Switch.dual_log_audit_v2_to_audit_v3 With.enable_dual_log_v2_to_v3 = true
turns_on Switch.dual_log_audit_v2_to_audit_v3 _ = false
turns_on Switch.dual_log_audit_v3_to_audit_v2 With.enable_dual_log_v3_to_v2 = true
turns_on Switch.dual_log_audit_v3_to_audit_v2 _ = false

unfoldable pub any_turns_on : Switch → List With → Bool
any_turns_on x [] = false
any_turns_on x (w ∷ ws) = turns_on x w || any_turns_on x ws

-- The lists that calls add to.
pub data Listing : Type 0 where
  handlers health_sources change_handlers : Listing

abbrev pub listed : Listing → Server → List ℕ
listed Listing.handlers s = s.handlers
listed Listing.health_sources s = current_sources s.health_check_sources
listed Listing.change_handlers s = s.health_status_change_handlers

abbrev pub added : Listing → With → List ℕ
added Listing.handlers (With.middleware m) = m ∷ []
added Listing.handlers _ = []
added Listing.health_sources (With.health sources) = sources
added Listing.health_sources _ = []
added Listing.change_handlers (With.health_status_change_handlers hs) = hs
added Listing.change_handlers _ = []

unfoldable pub all_added : Listing → List With → List ℕ
all_added l [] = []
all_added l (w ∷ ws) = added l w ++ all_added l ws

apply-switch :
    (x : Switch) (w : With) (s : Server) → switch x (apply w s) ≡ (turns_on x w || switch x s)
unfolding apply
apply-switch Switch.use_self_signed_server_certificate With.self_signed_certificate s = refl
apply-switch Switch.use_self_signed_server_certificate _ s = refl
apply-switch Switch.disable_sig_quit_handler With.disable_sig_quit_handler s = refl
apply-switch Switch.disable_sig_quit_handler _ s = refl
apply-switch Switch.disable_shutdown_signal_handler With.disable_shutdown_signal_handler s = refl
apply-switch Switch.disable_shutdown_signal_handler _ s = refl
apply-switch Switch.disable_service_dependency_health With.disable_service_dependency_health s =
    refl
apply-switch Switch.disable_service_dependency_health _ s = refl
apply-switch Switch.disable_go_runtime_metrics With.disable_go_runtime_metrics s = refl
apply-switch Switch.disable_go_runtime_metrics _ s = refl
apply-switch Switch.svc_log_origin_from_call_line With.origin_from_call_line s = refl
apply-switch Switch.svc_log_origin_from_call_line _ s = refl
apply-switch Switch.disable_keep_alives With.disable_keep_alives s = refl
apply-switch Switch.disable_keep_alives _ s = refl
apply-switch Switch.disable_http2 With.disable_http2 s = refl
apply-switch Switch.disable_http2 _ s = refl
apply-switch Switch.dual_log_audit_v2_to_audit_v3 With.enable_dual_log_v2_to_v3 s = refl
apply-switch Switch.dual_log_audit_v2_to_audit_v3 _ s = refl
apply-switch Switch.dual_log_audit_v3_to_audit_v2 With.enable_dual_log_v3_to_v2 s = refl
apply-switch Switch.dual_log_audit_v3_to_audit_v2 _ s = refl

configure-switch :
    (x : Switch) (ws : List With) (s : Server)
    → switch x (configure ws s) ≡ (any_turns_on x ws || switch x s)
unfolding configure any_turns_on
configure-switch x [] s = refl
configure-switch x (w ∷ ws) s =
    ground (arith, configure-switch x ws (apply w s), apply-switch x w s)

apply-listed :
    (l : Listing) (w : With) (s : Server) → listed l (apply w s) ≡ listed l s ++ added l w
unfolding apply
apply-listed Listing.handlers (With.middleware m) s = refl
apply-listed Listing.handlers _ s = sym (append-nil _)
apply-listed Listing.health_sources (With.health sources) s = refl
apply-listed Listing.health_sources _ s = sym (append-nil _)
apply-listed Listing.change_handlers (With.health_status_change_handlers hs) s = refl
apply-listed Listing.change_handlers _ s = sym (append-nil _)

configure-listed :
    (l : Listing) (ws : List With) (s : Server)
    → listed l (configure ws s) ≡ listed l s ++ all_added l ws
unfolding configure all_added
configure-listed l [] s = sym (append-nil _)
configure-listed l (w ∷ ws) s =
    configure-listed l ws (apply w s)
    ∙ ap (λ xs. xs ++ all_added l ws) (apply-listed l w s)
    ∙ append_assoc (listed l s) (added l w) (all_added l ws)

-- After any calls of the With functions, in any order: a setting has the value that the last call
-- gave that gives it one, and else the one it had, so no call touches another's setting; a switch is
-- on if some call turned it on or it was on; and a list has what it had and what the calls added,
-- in their order.
pub configure_lem :
    (ws : List With) (s : Server) (x : Setting) (y : Switch) (l : Listing)
    → (setting x (configure ws s) ≡ or_else (last_given x ws) (setting x s))
      × (switch y (configure ws s) ≡ (any_turns_on y ws || switch y s))
      × (listed l (configure ws s) ≡ listed l s ++ all_added l ws)
configure_lem ws s x y l =
    (configure-setting x ws s, configure-switch y ws s, configure-listed l ws s)
