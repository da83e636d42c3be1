-- ===== src/Limiter/Runs.antt =====
-- Requests interleaved, while the limit is refreshed. `Allowed` says which limits it is given.
use witchcraft_go_server.Base.{
  [], ◌∷◌, ℕ, ◌≡◌, Bool, Option, none, some, refl, List, map, get_elem?, set,
}
use witchcraft_go_server.Base.Int.{ℤ}
use witchcraft_go_server.Limiter.{Limiter, Pc, arrived, new_limiter, request_step}

pub record World : Type 0 where
  pub limiter : Limiter
  pub requests : List Pc

module _ (Allowed : ℤ → Type 0) where
  pub data Step : World → World → Type 0 where
    act :
        {w : World} (i : ℕ) (t t' : Pc) (l' : Limiter)
        → get_elem? w.requests i ≡ some t
        → request_step t w.limiter ≡ some (t', l')
        → Step w (record { limiter = l'; requests = set w.requests i t' })
    refresh :
        {w : World} (n : ℤ)
        → Allowed n
        → Step w (record w { limiter = record w.limiter { max_in_flight = n } })

  pub data Reach (w : World) : World → Type 0 where
    here : Reach w w
    next : {u v : World} → Reach w u → Step u v → Reach w v

-- A new limiter, at which requests are about to arrive: for each, whether the limiter matches it.
abbrev pub boot : ℤ → Bool → List Bool → World
boot n has_health matched = record {
  limiter = new_limiter n has_health;
  requests = map arrived matched;
}

acted : World → ℕ → Option (Pc × Limiter) → World
acted w i none = w
acted w i (some (t, l)) = record { limiter = l; requests = set w.requests i t }

act_at : World → ℕ → Option Pc → World
unfolding acted
act_at w i none = w
act_at w i (some t) = acted w i (request_step t w.limiter)

-- The world after the requests of a schedule have moved in turn.
unfoldable pub run : World → List ℕ → World
unfolding act_at
run w [] = w
run w (i ∷ is) = run (act_at w i (get_elem? w.requests i)) is

module _ (Allowed : ℤ → Type 0) where
  Reach-act_at :
      (u w : World) (i : ℕ) (o : Option Pc)
      → get_elem? w.requests i ≡ o
      → Reach Allowed u w
      → Reach Allowed u (act_at w i o)
  unfolding act_at
  Reach-act_at u w i none at r = r
  Reach-act_at u w i (some t) at r = moved (request_step t w.limiter) refl
    where
      moved :
          (q : Option (Pc × Limiter)) → request_step t w.limiter ≡ q → Reach Allowed u (acted w i q)
      moved none e = r
      moved (some (t', l')) e = next r (act i t t' l' at e)

  pub Reach-run : (u w : World) (is : List ℕ) → Reach Allowed u w → Reach Allowed u (run w is)
  unfolding run
  Reach-run u w [] r = r
  Reach-run u w (i ∷ is) r =
      Reach-run u (act_at w i (get_elem? w.requests i)) is (Reach-act_at u w i _ refl r)
