-- ===== src/Limiter/Recovery.antt =====
-- A throttled limiter is healthy again when its requests are gone.
use witchcraft_go_server.Base.{
  ℕ, ◌+◌, ◌≤◌, ◌≡◌, refl, Bool, true, false, not, some, List, [], ◌∷◌, arith, bit, count_if,
  count_if-set, count_if_pos, ◌==◌,
}
use witchcraft_go_server.Base.Int.{ℤ, pos_part}
use witchcraft_go_server.Health.{healthy}
use witchcraft_go_server.Limiter.{
  Limiter, Pc, new_limiter, left, checking, recovering, answered, limit, reports, request_step,
}
use witchcraft_go_server.Limiter.Runs.{World, Step, act, refresh, Reach, here, next, boot}
use witchcraft_go_server.Limiter.Bound.{is_counted, current_exact, current-step}

-- Past the decrement, and bound to look at the health state: the request that left nobody behind,
-- or one that found the counter below the limit.
abbrev recovers : Pc → Bool
recovers (left _ c) = c == 0
recovers (checking _) = true
recovers (recovering _) = true
recovers _ = false

abbrev is_ill : Limiter → Bool
is_ill l = not (reports l.health healthy)

heal-step :
    (t t' : Pc) (l l' : Limiter) (f f' : ℕ)
    → request_step t l ≡ some (t', l')
    → 1 ≤ limit l
    → bit (is_counted t) ≤ l.current
    → bit (recovers t) ≤ f
    → f' + bit (recovers t) ≡ f + bit (recovers t')
    → bit (is_ill l) ≤ l.current + f
    → bit (is_ill l') ≤ l'.current + f'
unfolding request_step
heal-step t t' l l' f f' h one c b e ill = ground arith

abbrev pub is_pending : Pc → Bool
is_pending (answered _) = false
is_pending _ = true

all_answered :
    (ts : List Pc)
    → count_if is_pending ts ≡ 0
    → (count_if is_counted ts ≡ 0) × (count_if recovers ts ≡ 0)
unfolding count_if
all_answered [] h = (refl, refl)
all_answered (t ∷ ts) h = ground (arith, all_answered ts)

limit-step-pos :
    (t t' : Pc) (l l' : Limiter) → request_step t l ≡ some (t', l') → 1 ≤ limit l → 1 ≤ limit l'
unfolding request_step
limit-step-pos t t' l l' h one = ground arith

new_not_ill : (m : ℤ) (has_health : Bool) (k : ℕ) → bit (is_ill (new_limiter m has_health)) ≤ 0 + k
new_not_ill m has_health k = ground arith

module _ (Allowed : ℤ → Type 0) (positive : (m : ℤ) → Allowed m → 1 ≤ pos_part m) where
  record Heals (w : World) : Type 0 where
    open_ : 1 ≤ limit w.limiter
    exact : w.limiter.current ≡ count_if is_counted w.requests
    ill : bit (is_ill w.limiter) ≤ w.limiter.current + count_if recovers w.requests

  Heals-Step : {w w' : World} → Step Allowed w w' → Heals w → Heals w'
  Heals-Step {w} (act i t t' l' at h) b =
      let c : bit (is_counted t) ≤ w.limiter.current =
        omega (arith, b.exact, count_if_pos is_counted w.requests i t at) in
      record {
        open_ = limit-step-pos t t' w.limiter l' h b.open_;
        exact = omega (
          arith,
          b.exact,
          count_if-set is_counted w.requests i t t' at,
          current-step t t' w.limiter l' h c,
        );
        ill =
            heal-step t t' w.limiter l' _ _ h b.open_ c (count_if_pos recovers w.requests i t at)
              (count_if-set recovers w.requests i t t' at) b.ill;
      }
  Heals-Step {w} (refresh m ok) b = record { open_ = positive m ok; exact = b.exact; ill = b.ill }

  Heals-Reach : {u w : World} → Heals u → Reach Allowed u w → Heals w
  Heals-Reach e here = e
  Heals-Reach e (next r st) = Heals-Step st (Heals-Reach e r)

  -- If every limit that is set is at least one, then whenever all requests have been answered, the
  -- health component, if there is one, reports healthy, whatever was throttled before.
  pub health_recovers :
      (m : ℤ) (has_health : Bool) (matched : List Bool) {w : World}
      → Allowed m
      → Reach Allowed (boot m has_health matched) w
      → count_if is_pending w.requests ≡ 0
      → reports w.limiter.health healthy ≡ true
  health_recovers m has_health matched {w} ok r done =
      let start : Heals (boot m has_health matched) = record {
        open_ = positive m ok;
        exact = current_exact Allowed m has_health matched here;
        ill = new_not_ill m has_health _;
      } in
      let end = Heals-Reach start r in
      ground (arith, all_answered w.requests done, end.exact, end.ill)
