-- ===== src/Startup/Health.antt =====
-- The sources of health that the health endpoint serves once Start has set up the server.
pub mod Served
use mathlib.Core.List.{append-nil, append_assoc}
use witchcraft_go_server.Base.{
  ℕ, Bool, true, false, ◌≡◌, refl, sym, ap, ◌∙◌, Option, Option-cases, inl, inr, none, some, List,
  [], ◌∷◌, ◌++◌, if◌then◌else◌, arith, map,
}
use witchcraft_go_server.Startup.Action.{
  World, Source, user, server_status, Event, Action, Attempt, returns, fails, panics, Phase,
  completed, Cleanup, deferred, released, using, serving_health, logged, logged_panic, record_event,
  proceed, ◌>>=◌, call, defer_call, modify, when, Error,
}
use witchcraft_go_server.Startup.Finish.{Closes, finish-keeps}
use witchcraft_go_server.Startup.Start.{
  Environment, Options, Install, Exit, body, run_deferred, handle_exit, finish, start, run_servers,
  run_init, serve_routes, start_management, ensure_loggers, init_loggers, with_health,
  announce_health, internal_sources, log_error, error_of, exit_of, has_management, swap_to_running,
  wrap,
}

-- The sources that the health endpoint was set up with last.
unfoldable pub health_served : List Event → Option (List Source)
health_served [] = none
health_served (serving_health ss ∷ es) = elim (health_served es) [
  | none ↦ some ss
  | some later ↦ some later
]
health_served (_ ∷ es) = health_served es

abbrev pub Seen : Type 0
Seen = List Source × Option (List Source)

abbrev pub seen : World → Seen
seen w = (w.sources, health_served w.events)

-- If `m` returns, then it has changed what is seen by `f`.
pub record Changes {A : Type 0} (m : Action A) (f : Seen → Seen) : Type 0 where
  pub at : (w : World) (a : A) → (m w).0 ≡ returns a → seen (m w).1 ≡ f (seen w)

abbrev pub same : Seen → Seen
same x = x

abbrev pub adds : List Source → Seen → Seen
adds ss (sources, served) = (sources ++ ss, served)

abbrev pub serves : Seen → Seen
serves (sources, served) = (sources, some sources)

pub health_served-other :
    (es : List Event) (e : Event)
    → health_served (e ∷ []) ≡ none
    → health_served (es ++ (e ∷ [])) ≡ health_served es
unfolding health_served
health_served-other [] e h = h
health_served-other (serving_health ss ∷ es) e h =
    ap (λ z. elim z [ none ↦ some ss | some later ↦ some later ]) (health_served-other es e h)
health_served-other (completed p ∷ es) e h = health_served-other es e h
health_served-other (deferred p ∷ es) e h = health_served-other es e h
health_served-other (released p ∷ es) e h = health_served-other es e h
health_served-other (using p ∷ es) e h = health_served-other es e h
health_served-other (logged p ∷ es) e h = health_served-other es e h
health_served-other (logged_panic p ∷ es) e h = health_served-other es e h

pub health_served-last :
    (es : List Event) (ss : List Source) → health_served (es ++ (serving_health ss ∷ [])) ≡ some ss
unfolding health_served
health_served-last [] ss = refl
health_served-last (serving_health ts ∷ es) ss =
    ap (λ z. elim z [ none ↦ some ts | some later ↦ some later ]) (health_served-last es ss)
health_served-last (completed p ∷ es) ss = health_served-last es ss
health_served-last (deferred p ∷ es) ss = health_served-last es ss
health_served-last (released p ∷ es) ss = health_served-last es ss
health_served-last (using p ∷ es) ss = health_served-last es ss
health_served-last (logged p ∷ es) ss = health_served-last es ss
health_served-last (logged_panic p ∷ es) ss = health_served-last es ss

pub Changes->>= :
    {A B : Type 0} {m : Action A} {f : A → Action B} {g k : Seen → Seen}
    → Changes m g
    → ((a : A) → Changes (f a) k)
    → Changes (m >>= f) (λ x. k (g x))
unfolding ◌>>=◌
Changes->>= {m = m} {f = f} {g = g} {k = k} cm cf = record {
  at = λ w b h. after w (m w).0 (m w).1 b (cm.at w) h;
}
  where
    after :
        (w : World) (r : Attempt _) (w' : World) (b : _)
        → ((a : _) → r ≡ returns a → seen w' ≡ g (seen w))
        → (proceed f r w').0 ≡ returns b
        → seen (proceed f r w').1 ≡ k (g (seen w))
    after w (returns a) w' b hm h = (cf a).at w' b h ∙ ap k (hm a refl)
    after w (fails e) w' b hm h = ground arith
    after w (panics e) w' b hm h = ground arith

pub Changes-call : {A : Type 0} (p : Phase) (a : Attempt A) → Changes (call p a) same
unfolding call health_served
Changes-call p (returns a) = record {
  at = λ w b h. ap (λ z. (w.sources, z)) (health_served-other w.events (completed p) refl);
}
Changes-call p (fails e) = record { at = λ w b h. refl }
Changes-call p (panics e) = record { at = λ w b h. refl }

-- A call whose result is known where it returns.
pub Changes-call_then :
    {A B : Type 0} (p : Phase) (a : Attempt A) {f : A → Action B} {k : Seen → Seen}
    → ((x : A) → a ≡ returns x → Changes (f x) k)
    → Changes (call p a >>= f) k
unfolding ◌>>=◌ call
Changes-call_then p (returns a) {k = k} cf = record {
  at = λ w b h. (cf a refl).at _ b h ∙ ap k ((Changes-call p (returns a)).at w a refl);
}
Changes-call_then p (fails e) cf = record { at = λ w b h. ground arith }
Changes-call_then p (panics e) cf = record { at = λ w b h. ground arith }

pub Changes-modify :
    (f : World → World) (g : Seen → Seen)
    → ((w : World) → seen (f w) ≡ g (seen w))
    → Changes (modify f) g
Changes-modify f g h = record { at = λ w b e. h w }

pub Changes-defer : (c : Cleanup) → Changes (defer_call c) same
unfolding health_served
Changes-defer c =
    Changes-modify _ same
      (λ w. ap (λ z. (w.sources, z)) (health_served-other w.events (deferred c) refl))

pub Changes-when-adds :
    (c : Bool) (m : Action (Unit {0})) (ss : List Source)
    → Changes m (adds ss)
    → Changes (when c m) (adds (if c then ss else []))
Changes-when-adds true m ss k = k
Changes-when-adds false m ss k = record {
  at = λ w b e. ap (λ z. (z, health_served w.events)) (sym (append-nil w.sources));
}

pub Changes-when-same :
    (c : Bool) {m : Action (Unit {0})} → Changes m same → Changes (when c m) same
Changes-when-same true k = k
Changes-when-same false k = record { at = λ w b e. refl }

pub Changes-with_health : (ss : List Source) → Changes (modify (with_health ss)) (adds ss)
Changes-with_health ss = Changes-modify _ (adds ss) (λ w. refl)
