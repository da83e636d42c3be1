-- ===== src/Lifecycle/SingleRun/Progress.antt =====
-- While one call of `Start` runs on a new server, something can always move until all have ended.
use witchcraft_go_server.Base.{
  ℕ, ◌+◌, ◌≤◌, ◌≡◌, refl, ap, ◌∙◌, Bool, true, false, Option, none, some, List, [], ◌∷◌, arith, ◌⊎◌,
  inl, inr, count_if, count_if_find, Found, ltb, Bool-cases,
}
use witchcraft_go_server.Lifecycle.{
  Shared, StartError, StartPc, StopPc, reset_read, await, exit, returned, done, crashed, start_step,
  stop_step,
}
use witchcraft_go_server.Lifecycle.Threads.{World, Step, start, stop, Reach, boot}
use witchcraft_go_server.Lifecycle.Owner.{owns}
use witchcraft_go_server.Lifecycle.SingleRun.{Facts, Single, Single-Reach, Single-boot, pending}

abbrev pub unfinished : StopPc → Bool
unfinished (done _) = false
unfinished crashed = false
unfinished _ = true

-- Every call has returned, or is a stopping call that has panicked for want of a logger.
abbrev pub Ended : World → Type 0
Ended w = (r : Option StartError) × (w.starts ≡ returned r ∷ []) × (count_if unfinished w.stops ≡ 0)

stop_step_moves :
    (u : StopPc) (s : Shared)
    → unfinished u ≡ true
    → (r : StopPc × Shared) × (stop_step false u s ≡ some r)
unfolding stop_step
stop_step_moves (done b) s h = cc
stop_step_moves crashed s h = cc
stop_step_moves u s h = (_, refl)

count-le : (us : List StopPc) → count_if owns us + count_if pending us ≤ count_if unfinished us
unfolding count_if
count-le [] = omega arith
count-le (u ∷ us) = ground (arith, count-le us)

await_moves :
    (r : Option StartError) (c : Option ℕ) (s : Shared) (l : ℕ)
    → Facts (await r c) s 0 0 l
    → start_step false (await r c) s ≡ some (reset_read r, s)
unfolding start_step
await_moves r none s l f = ground arith
await_moves r (some k) s l f = ground arith

-- With no stopping call under way, `Start` has returned or can move.
start_moves :
    (t : StartPc) (s : Shared) (o p l : ℕ)
    → Facts t s o p l
    → o ≡ 0
    → p ≡ 0
    → ((r : Option StartError) × (t ≡ returned r))
      ⊎ ((q : StartPc × Shared) × (start_step false t s ≡ some q))
unfolding start_step
start_moves (returned r) s o p l f ho hp = inl (r, refl)
start_moves (await r c) s o p l f ho hp = inr (_, await_moves r c s l (rw ho at (rw hp at f)))
start_moves (exit none) s o p l f ho hp = inr (_, refl)
start_moves (exit (some e)) s o p l f ho hp = inr (_, refl)
start_moves t s o p l f ho hp = inr (_, refl)

Single-moves :
    {w : World} → Single w → count_if unfinished w.stops ≡ 0 → Ended w ⊎ ((w' : World) × Step w w')
Single-moves {w} (t, one, f) z =
    elim (start_moves t w.shared _ _ _ f (omega (arith, count-le w.stops))
      (omega (arith, count-le w.stops))) [
        | inl (r, e) ↦ inl (r, one ∙ ap (λ u. u ∷ []) e, z)
        | inr (q, h) ↦ inr (_, start 0 false t q.0 q.1 (rw one) h)
      ]

stop_moves : {w : World} → Found unfinished w.stops → (w' : World) × Step w w'
stop_moves {w} (i, u, at, un) =
    let (q, h) = stop_step_moves u w.shared un in (_, stop i false u q.0 q.1 at h)

-- While one call of `Start` runs on a new server, in every world that can be reached either all
-- calls have ended, `Start` by returning, or some call can take a step: no call waits for ever on
-- the channel.
pub no_deadlock : (n : ℕ) {w : World} → Reach (boot 1 n) w → Ended w ⊎ ((w' : World) × Step w w')
no_deadlock n {w} r = elim (Bool-cases (ltb 0 (count_if unfinished w.stops))) [
  | inl h ↦ inr (stop_moves (count_if_find unfinished w.stops (ground arith)))
  | inr h ↦ Single-moves (Single-Reach (Single-boot n) r) (ground arith)
]
