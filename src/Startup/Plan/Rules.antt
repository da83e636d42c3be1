-- ===== src/Startup/Plan/Rules.antt =====
-- When an action does what a plan says, one rule for each way to build an action.
use witchcraft_go_server.Base.{
  Bool, true, false, ◌≡◌, refl, sym, ap, ◌∙◌, List, [], ◌∷◌, ◌++◌, arith,
}
use mathlib.Core.List.{append-nil, append_assoc}
use witchcraft_go_server.Startup.Action.{
  Phase, Event, completed, World, Action, Attempt, returns, fails, panics, proceed, ◌>>=◌, call,
  defer_call, modify, when, Cleanup,
}
use witchcraft_go_server.Startup.Plan.{Plan, forget, perform, completed_phases, only, plan_then}

-- `m` does what the plan says.
pub record Follows {A : Type 0} (m : Action A) (ps : Plan) : Type 0 where
  pub result : (w : World) → forget (m w).0 ≡ (perform ps).1
  pub phases :
      (w : World) → completed_phases (m w).1.events ≡ completed_phases w.events ++ (perform ps).0

completed_phases-append :
    (es fs : List Event) → completed_phases (es ++ fs) ≡ completed_phases es ++ completed_phases fs
unfolding completed_phases
completed_phases-append [] fs = refl
completed_phases-append (completed p ∷ es) fs = ap (λ x. p ∷ x) (completed_phases-append es fs)
completed_phases-append (Event.deferred c ∷ es) fs = completed_phases-append es fs
completed_phases-append (Event.released c ∷ es) fs = completed_phases-append es fs
completed_phases-append (Event.using l ∷ es) fs = completed_phases-append es fs
completed_phases-append (Event.serving_health l ∷ es) fs = completed_phases-append es fs
completed_phases-append (Event.logged l ∷ es) fs = completed_phases-append es fs
completed_phases-append (Event.logged_panic l ∷ es) fs = completed_phases-append es fs

pub Follows-call :
    {A : Type 0} (p : Phase) (a : Attempt A) → Follows (call p a) ((p, forget a) ∷ [])
unfolding call perform completed_phases
Follows-call p (returns a) = record {
  result = λ w. refl;
  phases = λ w. completed_phases-append w.events (completed p ∷ []);
}
Follows-call p (fails e) = record { result = λ w. refl; phases = λ w. sym (append-nil _) }
Follows-call p (panics e) = record { result = λ w. refl; phases = λ w. sym (append-nil _) }

abbrev extend : List Phase × Attempt (Unit {0}) → Plan → List Phase × Attempt (Unit {0})
extend (ps, returns a) qs = (ps ++ (perform qs).0, (perform qs).1)
extend (ps, fails e) qs = (ps, fails e)
extend (ps, panics r) qs = (ps, panics r)

perform-append : (ps qs : Plan) → perform (ps ++ qs) ≡ extend (perform ps) qs
unfolding perform
perform-append [] qs = refl
perform-append ((p, returns a) ∷ ps) qs =
    ap (λ x. (p ∷ x.0, x.1)) (perform-append ps qs) ∙ extend_cons p (perform ps) qs
  where
    extend_cons :
        (p : Phase) (x : List Phase × Attempt (Unit {0})) (qs : Plan)
        → (p ∷ (extend x qs).0, (extend x qs).1) ≡ extend (p ∷ x.0, x.1) qs
    extend_cons p (ps, returns a) qs = refl
    extend_cons p (ps, fails e) qs = refl
    extend_cons p (ps, panics r) qs = refl
perform-append ((p, fails e) ∷ ps) qs = refl
perform-append ((p, panics r) ∷ ps) qs = refl

module _ {A B : Type 0} (f : A → Action B) (qs : Plan) (kf : (a : A) → Follows (f a) qs) where
  proceed-result :
      (l : List Phase) (x : Attempt (Unit {0})) (r : Attempt A) (w : World)
      → forget r ≡ x
      → forget (proceed f r w).0 ≡ (extend (l, x) qs).1
  proceed-result l (returns u) (returns a) w h = (kf a).result w
  proceed-result l (fails e) (fails e') w h = h
  proceed-result l (panics e) (panics e') w h = h
  proceed-result l x r w h = ground arith

  proceed-phases :
      (l : List Phase) (x : Attempt (Unit {0})) (r : Attempt A) (w : World) (es : List Phase)
      → forget r ≡ x
      → completed_phases w.events ≡ es ++ l
      → completed_phases (proceed f r w).1.events ≡ es ++ (extend (l, x) qs).0
  proceed-phases l (returns u) (returns a) w es h k =
      (kf a).phases w ∙ ap (λ z. z ++ (perform qs).0) k ∙ append_assoc es l (perform qs).0
  proceed-phases l (fails e) (fails e') w es h k = k
  proceed-phases l (panics e) (panics e') w es h k = k
  proceed-phases l x r w es h k = ground arith

  pub Follows->>= : (m : Action A) (ps : Plan) → Follows m ps → Follows (m >>= f) (ps ++ qs)
  unfolding ◌>>=◌
  Follows->>= m ps km = record {
    result = λ w.
        proceed-result _ (perform ps).1 (m w).0 (m w).1 (km.result w)
        ∙ sym (ap (λ x. x.1) (perform-append ps qs));
    phases = λ w.
        proceed-phases _ (perform ps).1 (m w).0 (m w).1 _ (km.result w) (km.phases w)
        ∙ sym (ap (λ x. completed_phases w.events ++ x.0) (perform-append ps qs));
  }

pub then-Follows :
    {A B : Type 0} {m : Action A} {f : A → Action B} {ps qs : Plan}
    → Follows m ps
    → ((a : A) → Follows (f a) qs)
    → Follows (m >>= f) (ps ++ qs)
then-Follows km kf = Follows->>= _ _ kf _ _ km

pub Follows-call_then :
    {A B : Type 0} (p : Phase) (a : Attempt A) (f : A → Action B) (q : A → Plan)
    → ((x : A) → Follows (f x) (q x))
    → Follows (call p a >>= f) ((p, forget a) ∷ plan_then q a)
unfolding call ◌>>=◌ perform completed_phases
Follows-call_then p (returns a) f q kf = record {
  result = λ w. (kf a).result _;
  phases = λ w.
      (kf a).phases _
      ∙ ap (λ z. z ++ (perform (q a)).0) (completed_phases-append w.events (completed p ∷ []))
      ∙ append_assoc (completed_phases w.events) (p ∷ []) _;
}
Follows-call_then p (fails e) f q kf = record {
  result = λ w. refl;
  phases = λ w. sym (append-nil _);
}
Follows-call_then p (panics e) f q kf = record {
  result = λ w. refl;
  phases = λ w. sym (append-nil _);
}

pub Follows-modify :
    (f : World → World)
    → ((w : World) → completed_phases (f w).events ≡ completed_phases w.events)
    → Follows (modify f) []
unfolding perform
Follows-modify f k = record { result = λ w. refl; phases = λ w. k w ∙ sym (append-nil _) }

pub quiet :
    (e : Event) (es : List Event)
    → completed_phases (e ∷ []) ≡ []
    → completed_phases (es ++ (e ∷ [])) ≡ completed_phases es
quiet e es h =
    completed_phases-append es (e ∷ []) ∙ ap (λ z. completed_phases es ++ z) h ∙ append-nil _

pub Follows-defer : (c : Cleanup) → Follows (defer_call c) []
unfolding completed_phases
Follows-defer c = Follows-modify _ (λ w. quiet (Event.deferred c) w.events refl)

pub Follows-when :
    (c : Bool) (m : Action (Unit {0})) (ps : Plan) → Follows m ps → Follows (when c m) (only c ps)
unfolding perform
Follows-when true m ps k = k
Follows-when false m ps k = Follows-modify (λ w. w) (λ w. refl)

pub Follows-quiet_when : (c : Bool) {m : Action (Unit {0})} → Follows m [] → Follows (when c m) []
Follows-quiet_when true k = k
Follows-quiet_when false k = Follows-modify (λ w. w) (λ w. refl)
