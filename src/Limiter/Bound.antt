-- ===== src/Limiter/Bound.antt =====
-- The counter is the number of counted requests, and no more than the limit of them run.
use witchcraft_go_server.Base.{
  ℕ, ◌+◌, ◌≤◌, ◌≡◌, ◌⊎◌, refl, Bool, true, false, some, List, [], ◌∷◌, map, arith, bit, leb,
  count_if, count_if-set, count_if_pos,
}
use witchcraft_go_server.Base.Int.{ℤ, pos_part}
use witchcraft_go_server.Limiter.{
  Limiter, Pc, arrived, counted, throttling, reporting, rejected, running, leaving, limit,
  request_step,
}
use witchcraft_go_server.Limiter.Runs.{World, Step, act, refresh, Reach, here, next, boot}

-- Between the atomic add of `increment` and that of `decrement`.
abbrev pub is_counted : Pc → Bool
is_counted (counted _) = true
is_counted throttling = true
is_counted reporting = true
is_counted rejected = true
is_counted running = true
is_counted (leaving _) = true
is_counted _ = false

abbrev pub is_running : Pc → Bool
is_running running = true
is_running _ = false

-- Runs, or was told a number within the limit `n`.
abbrev within : ℕ → Pc → Bool
within n (counted c) = leb c n
within n running = true
within n _ = false

-- What a step of one request changes, with the request's part of each count.
pub current-step :
    (t t' : Pc) (l l' : Limiter)
    → request_step t l ≡ some (t', l')
    → bit (is_counted t) ≤ l.current
    → l'.current + bit (is_counted t) ≡ l.current + bit (is_counted t')
unfolding request_step
current-step t t' l l' h b = ground arith

within-step :
    (n : ℕ) (t t' : Pc) (l l' : Limiter)
    → request_step t l ≡ some (t', l')
    → limit l ≤ n
    → (bit (within n t') ≤ bit (within n t)) ⊎ (l.current + bit (within n t') ≤ n)
unfolding request_step
within-step n t t' l l' h b = ground arith

limit-step :
    (t t' : Pc) (l l' : Limiter)
    → request_step t l ≡ some (t', l')
    → l'.max_in_flight ≡ l.max_in_flight
unfolding request_step
limit-step t t' l l' h = ground arith

within-le : (n : ℕ) (ts : List Pc) → count_if (within n) ts ≤ count_if is_counted ts
unfolding count_if
within-le n [] = omega arith
within-le n (t ∷ ts) = ground (arith, within-le n ts)

running-le : (n : ℕ) (ts : List Pc) → count_if is_running ts ≤ count_if (within n) ts
unfolding count_if
running-le n [] = omega arith
running-le n (t ∷ ts) = ground (arith, running-le n ts)

abbrev IsExact : World → Type 0
IsExact w = w.limiter.current ≡ count_if is_counted w.requests

module _ (Allowed : ℤ → Type 0) where
  IsExact-Step : {w w' : World} → Step Allowed w w' → IsExact w → IsExact w'
  IsExact-Step {w} (act i t t' l' at h) e = omega (
    arith,
    count_if-set is_counted w.requests i t t' at,
    current-step t t' w.limiter l' h (omega (arith, count_if_pos is_counted w.requests i t at)),
  )
  IsExact-Step (refresh n ok) e = e

  IsExact-Reach : {u w : World} → IsExact u → Reach Allowed u w → IsExact w
  IsExact-Reach e here = e
  IsExact-Reach e (next r st) = IsExact-Step st (IsExact-Reach e r)

counted-arrived :
    (n : ℕ) (ms : List Bool)
    → (count_if is_counted (map arrived ms) ≡ 0) × (count_if (within n) (map arrived ms) ≡ 0)
unfolding count_if
counted-arrived n [] = (refl, refl)
counted-arrived n (m ∷ ms) = omega (arith, counted-arrived n ms)

-- However requests interleave and however the limit changes, the counter is the number of requests
-- between their increment and their decrement; so it never falls below zero, and is zero again
-- when none is left.
pub current_exact :
    (Allowed : ℤ → Type 0) (n : ℤ) (has_health : Bool) (matched : List Bool) {w : World}
    → Reach Allowed (boot n has_health matched) w
    → w.limiter.current ≡ count_if is_counted w.requests
current_exact Allowed n has_health matched r =
    IsExact-Reach Allowed (rw (counted-arrived 0 matched).0) r

module _ (Allowed : ℤ → Type 0) (n : ℕ) (below : (m : ℤ) → Allowed m → pos_part m ≤ n) where
  record IsWithin (w : World) : Type 0 where
    exact : IsExact w
    low : limit w.limiter ≤ n
    few : count_if (within n) w.requests ≤ n

  IsWithin-Step : {w w' : World} → Step Allowed w w' → IsWithin w → IsWithin w'
  IsWithin-Step {w} (act i t t' l' at h) b = record {
    exact = IsExact-Step Allowed (act i t t' l' at h) b.exact;
    low = rw (limit-step t t' w.limiter l' h) b.low;
    few = omega (
      arith,
      b.exact,
      b.few,
      within-le n w.requests,
      count_if-set (within n) w.requests i t t' at,
      within-step n t t' w.limiter l' h b.low,
      count_if_pos (within n) w.requests i t at,
    );
  }
  IsWithin-Step {w} (refresh m ok) b = record { exact = b.exact; low = below m ok; few = b.few }

  IsWithin-Reach : {u w : World} → IsWithin u → Reach Allowed u w → IsWithin w
  IsWithin-Reach e here = e
  IsWithin-Reach e (next r st) = IsWithin-Step st (IsWithin-Reach e r)

  -- If no limit that is set exceeds `n`, then at any time at most `n` matched requests run.
  pub running_bounded :
      (m : ℤ) (has_health : Bool) (matched : List Bool) {w : World}
      → Allowed m
      → Reach Allowed (boot m has_health matched) w
      → count_if is_running w.requests ≤ n
  running_bounded m has_health matched {w} ok r =
      let start : IsWithin (boot m has_health matched) = record {
        exact = rw (counted-arrived n matched).0;
        low = below m ok;
        few = rw (counted-arrived n matched).1 (omega arith);
      } in
      omega (arith, running-le n w.requests, (IsWithin-Reach start r).few)
