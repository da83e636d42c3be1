-- ===== src/Startup/Cleanups.antt =====
-- The deferred functions of Start: which of them run, and in which order, however Start ends.
pub mod Released
use mathlib.Core.List.{append-nil, append_assoc}
use witchcraft_go_server.Base.{
  Bool, true, false, ◌≡◌, ◌∙◌, refl, sym, ap, Option, Option-cases, inl, inr, none, some, List, [],
  ◌∷◌, ◌++◌, if◌then◌else◌, map,
}
use witchcraft_go_server.Startup.Action.{
  Cleanup, Event, deferred, released, completed, using, serving_health, logged, logged_panic, World,
  Phase, Source, Attempt, returns, fails, panics, Action, ◌>>=◌, call, defer_call, modify, when,
  Error, record_event, proceed, user, server_status,
}
use witchcraft_go_server.Startup.Start.{
  Environment, Options, Install, body, run_deferred, handle_exit, exit_of, finish, start, Exit,
  run_servers, run_init, serve_routes, start_management, ensure_loggers, log_error, error_of,
  init_loggers, announce_health, with_health, has_management, wrap, swap_to_running,
  internal_sources,
}
use witchcraft_go_server.Startup.Finish.{Closes, finish-keeps}

-- Whether the initialization of the application returned a cleanup function.
abbrev pub has_cleanup : Attempt Bool → Bool
has_cleanup (returns b) = b
has_cleanup _ = false

-- What a phase that has completed leaves to be done at the end, in the order in which it is done.
abbrev pub owed : Environment → Phase → List Cleanup
owed env Phase.start_state = Cleanup.reset_state ∷ []
owed env Phase.install = Cleanup.cancel_ctx ∷ []
owed env Phase.metrics = Cleanup.stop_metrics ∷ []
owed env Phase.runtime =
    Cleanup.unsubscribe_audit_update ∷ Cleanup.unsubscribe_audit_config ∷ Cleanup.unsubscribe_level
    ∷ []
owed env Phase.init = if has_cleanup env.init_fn then Cleanup.init_cleanup ∷ [] else []
owed env Phase.new_management_server = Cleanup.shut_down_management ∷ []
owed env _ = []

-- What the completed phases leave to be done, the last phase's first.
unfoldable pub owed_after : Environment → List Event → List Cleanup → List Cleanup
owed_after env [] st = st
owed_after env (completed p ∷ es) st = owed_after env es (owed env p ++ st)
owed_after env (_ ∷ es) st = owed_after env es st

-- The deferred functions that have run, in their order.
unfoldable pub released_in : List Event → List Cleanup
released_in [] = []
released_in (released c ∷ es) = c ∷ released_in es
released_in (_ ∷ es) = released_in es

pub owed_after-last :
    (env : Environment) (es : List Event) (e : Event) (st : List Cleanup)
    → owed_after env (es ++ (e ∷ [])) st ≡ owed_after env (e ∷ []) (owed_after env es st)
unfolding owed_after
owed_after-last env [] e st = refl
owed_after-last env (completed p ∷ es) e st = owed_after-last env es e (owed env p ++ st)
owed_after-last env (deferred p ∷ es) e st = owed_after-last env es e st
owed_after-last env (released p ∷ es) e st = owed_after-last env es e st
owed_after-last env (using p ∷ es) e st = owed_after-last env es e st
owed_after-last env (serving_health p ∷ es) e st = owed_after-last env es e st
owed_after-last env (logged p ∷ es) e st = owed_after-last env es e st
owed_after-last env (logged_panic p ∷ es) e st = owed_after-last env es e st

pub released_in-last :
    (es : List Event) (e : Event)
    → released_in (es ++ (e ∷ [])) ≡ released_in es ++ released_in (e ∷ [])
unfolding released_in
released_in-last [] e = refl
released_in-last (released p ∷ es) e = ap (λ cs. p ∷ cs) (released_in-last es e)
released_in-last (completed p ∷ es) e = released_in-last es e
released_in-last (deferred p ∷ es) e = released_in-last es e
released_in-last (using p ∷ es) e = released_in-last es e
released_in-last (serving_health p ∷ es) e = released_in-last es e
released_in-last (logged p ∷ es) e = released_in-last es e
released_in-last (logged_panic p ∷ es) e = released_in-last es e

-- Nothing has been released, and the stack is what the completed phases owe, but for `missing`, which
-- are still to be deferred.
pub record IsOwing (env : Environment) (missing : List Cleanup) (w : World) : Type 0 where
  pub stack_owed : owed_after env w.events [] ≡ missing ++ w.stack
  pub none_released : released_in w.events ≡ []

module _ (env : Environment) where
  -- How an action ends: with `Q` if it returns, and else with nothing missing.
  abbrev pub Ends : {A : Type 0} → (A → World → Type 0) → Attempt A × World → Type 0
  Ends Q (returns a, w) = Q a w
  Ends Q (fails e, w) = IsOwing env [] w
  Ends Q (panics p, w) = IsOwing env [] w

  pub record Moves {A : Type 0} (P : World → Type 0) (m : Action A) (Q : A → World → Type 0)
      : Type 0 where
    pub at : (w : World) → P w → Ends Q (m w)

  pub Moves->>= :
      {A B : Type 0} {P : World → Type 0} {m : Action A} {f : A → Action B} {Q : A → World → Type 0}
      {R : B → World → Type 0}
      → Moves P m Q
      → ((a : A) → Moves (Q a) (f a) R)
      → Moves P (m >>= f) R
  unfolding ◌>>=◌
  Moves->>= {m = m} {f = f} {Q = Q} {R = R} mm mf = record {
    at = λ w h. after (m w).0 (m w).1 (mm.at w h);
  }
    where
      after : (r : Attempt _) (w : World) → Ends Q (r, w) → Ends R (proceed f r w)
      after (returns a) w h = (mf a).at w h
      after (fails e) w h = h
      after (panics p) w h = h

  event-IsOwing :
      (e : Event) (w : World) (cs : List Cleanup)
      → ((st : List Cleanup) → owed_after env (e ∷ []) st ≡ cs ++ st)
      → released_in (e ∷ []) ≡ []
      → IsOwing env [] w
      → IsOwing env cs (record_event e w)
  event-IsOwing e w cs h r i = record {
    stack_owed = owed_after-last env w.events e [] ∙ h _ ∙ ap (λ st. cs ++ st) i.stack_owed;
    none_released =
        released_in-last w.events e ∙ ap (λ ds. ds ++ released_in (e ∷ [])) i.none_released ∙ r;
  }

  pub Moves-call :
      {A : Type 0} (p : Phase) (a : Attempt A) (cs : A → List Cleanup)
      → ((x : A) → a ≡ returns x → owed env p ≡ cs x)
      → Moves (IsOwing env []) (call p a) (λ x. IsOwing env (cs x))
  unfolding call owed_after released_in
  Moves-call p (returns x) cs h = record {
    at = λ w i. event-IsOwing (completed p) w (cs x) (λ st. ap (λ ds. ds ++ st) (h x refl)) refl i;
  }
  Moves-call p (fails e) cs h = record { at = λ w i. i }
  Moves-call p (panics r) cs h = record { at = λ w i. i }

  -- A phase that owes the same whatever it returns.
  pub Moves-phase :
      {A : Type 0} (p : Phase) (a : Attempt A)
      → Moves (IsOwing env []) (call p a) (λ x. IsOwing env (owed env p))
  Moves-phase p a = Moves-call p a (λ x. owed env p) (λ x h. refl)

  pub Moves-defer :
      (c : Cleanup) (cs : List Cleanup)
      → Moves (IsOwing env (cs ++ (c ∷ []))) (defer_call c) (λ x. IsOwing env cs)
  unfolding owed_after released_in
  Moves-defer c cs = record {
    at = λ w i. record {
      stack_owed =
          owed_after-last env w.events (deferred c) []
          ∙ i.stack_owed
          ∙ append_assoc cs (c ∷ []) w.stack;
      none_released =
          released_in-last w.events (deferred c)
          ∙ append-nil (released_in w.events)
          ∙ i.none_released;
    };
  }

  pub Moves-modify :
      (f : World → World)
      → ((w : World) → IsOwing env [] w → IsOwing env [] (f w))
      → Moves (IsOwing env []) (modify f) (λ x. IsOwing env [])
  Moves-modify f h = record { at = h }

  pub Moves-when :
      (b : Bool) {m : Action (Unit {0})}
      → Moves (IsOwing env []) m (λ x. IsOwing env [])
      → Moves (IsOwing env []) (when b m) (λ x. IsOwing env [])
  Moves-when true k = k
  Moves-when false k = record { at = λ w i. i }

  pub Moves-when_defer :
      (b : Bool) (c : Cleanup)
      → Moves (IsOwing env (if b then c ∷ [] else [])) (when b (defer_call c)) (λ x. IsOwing env [])
  Moves-when_defer true c = Moves-defer c []
  Moves-when_defer false c = record { at = λ w i. i }

  pub Moves-health :
      (ss : List Source) → Moves (IsOwing env []) (modify (with_health ss)) (λ x. IsOwing env [])
  Moves-health ss =
      Moves-modify _ (λ w i. record { stack_owed = i.stack_owed; none_released = i.none_released })

  pub Moves-serving : Moves (IsOwing env []) (modify announce_health) (λ x. IsOwing env [])
  unfolding owed_after released_in
  Moves-serving =
      Moves-modify _ (λ w. event-IsOwing (serving_health w.sources) w [] (λ st. refl) refl)

  pub Moves-loggers :
      (cfg : Install) → Moves (IsOwing env []) (modify (init_loggers cfg)) (λ x. IsOwing env [])
  unfolding owed_after released_in
  Moves-loggers cfg = Moves-modify _ (λ w i.
      let j = event-IsOwing (using _) w [] (λ st. refl) refl i in
      record { stack_owed = j.stack_owed; none_released = j.none_released })
