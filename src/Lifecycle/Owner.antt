-- ===== src/Lifecycle/Owner.antt =====
-- At any time at most one call of `Shutdown` or `Close` is between its swap to "shutting down" and
-- its store of "idle", and the state says whether there is one.
use witchcraft_go_server.Base.{
  ℕ, zero, suc, ◌+◌, ◌≤◌, ◌≡◌, refl, Bool, true, false, some, List, arith, bit, get_elem?, count_if,
  count_if-set, count_if_pos, set,
}
use witchcraft_go_server.Lifecycle.{
  ServerState, Shared, StartPc, StopPc, shutting_down, stopping, set_idle, start_step, stop_step,
}
use witchcraft_go_server.Lifecycle.Threads.{World, Step, start, stop, Reach, here, next, boot}

abbrev pub is_shutting_down : ServerState → Bool
is_shutting_down shutting_down = true
is_shutting_down _ = false

-- Between the swap and the store of "idle".
abbrev pub owns : StopPc → Bool
owns stopping = true
owns (set_idle _) = true
owns _ = false

-- No action of `Start` enters or leaves the state "shutting down".
start_step-flag :
    (fails : Bool) (t t' : StartPc) (s s' : Shared)
    → start_step fails t s ≡ some (t', s')
    → is_shutting_down s'.state ≡ is_shutting_down s.state
unfolding start_step
start_step-flag fails t t' s s' h = ground arith

stop_step-flag :
    (fails : Bool) (t t' : StopPc) (s s' : Shared)
    → stop_step fails t s ≡ some (t', s')
    → bit (owns t) ≤ bit (is_shutting_down s.state)
    → bit (owns t') + bit (is_shutting_down s.state)
      ≡ bit (owns t) + bit (is_shutting_down s'.state)
unfolding stop_step
stop_step-flag fails t t' s s' h o = ground arith

abbrev pub OwnerCounted : World → Type 0
OwnerCounted w = count_if owns w.stops ≡ bit (is_shutting_down w.shared.state)

OwnerCounted-start :
    (fails : Bool) (t t' : StartPc) (s s' : Shared) (us : List StopPc)
    → start_step fails t s ≡ some (t', s')
    → count_if owns us ≡ bit (is_shutting_down s.state)
    → count_if owns us ≡ bit (is_shutting_down s'.state)
OwnerCounted-start fails t t' s s' us h c = rw (start_step-flag fails t t' s s' h) c

OwnerCounted-stop :
    (fails : Bool) (t t' : StopPc) (s s' : Shared) (us : List StopPc) (i : ℕ)
    → get_elem? us i ≡ some t
    → stop_step fails t s ≡ some (t', s')
    → count_if owns us ≡ bit (is_shutting_down s.state)
    → count_if owns (set us i t') ≡ bit (is_shutting_down s'.state)
OwnerCounted-stop fails t t' s s' us i at h c = omega (
  arith,
  count_if-set owns us i t t' at,
  stop_step-flag fails t t' s s' h (omega (arith, count_if_pos owns us i t at)),
)

OwnerCounted-Step : {w w' : World} → Step w w' → OwnerCounted w → OwnerCounted w'
OwnerCounted-Step {w} (start i fails t t' s' at h) c =
    OwnerCounted-start fails t t' w.shared s' w.stops h c
OwnerCounted-Step {w} (stop i fails t t' s' at h) c =
    OwnerCounted-stop fails t t' w.shared s' w.stops i at h c

OwnerCounted-boot : (m n : ℕ) → OwnerCounted (boot m n)
unfolding count_if
OwnerCounted-boot m zero = refl
OwnerCounted-boot m (suc n) = omega (arith, OwnerCounted-boot m n)

OwnerCounted-Reach : {u w : World} → OwnerCounted u → Reach u w → OwnerCounted w
OwnerCounted-Reach h here = h
OwnerCounted-Reach h (next r st) = OwnerCounted-Step st (OwnerCounted-Reach h r)

-- However many calls of `Start`, `Shutdown` and `Close` run and however they interleave, the number
-- of stopping calls between their swap to "shutting down" and their store of "idle" is one while
-- the state is "shutting down", and zero in every other state.
pub stop_exclusive :
    (m n : ℕ) {w : World}
    → Reach (boot m n) w
    → count_if owns w.stops ≡ bit (is_shutting_down w.shared.state)
stop_exclusive m n r = OwnerCounted-Reach (OwnerCounted-boot m n) r
