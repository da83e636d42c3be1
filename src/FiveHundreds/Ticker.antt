-- ===== src/FiveHundreds/Ticker.antt =====
-- The goroutine of NewEndpointFiveHundredsHealthCheck in
-- witchcraft/internal/middleware/endpoint_five_hundreds.go: it shifts the windows at each tick until
-- the context is done. Where both are ready, the select statement takes either.
use witchcraft_go_server.Base.{
  String, ◌∙◌, sym, ap, ℕ, zero, suc, Bool, true, false, List, [], ◌∷◌, ◌≡◌, refl, map,
}
use witchcraft_go_server.FiveHundreds.{Status, Endpoints, shift}

-- What the select statement takes.
pub data Case : Type 0 where
  done tick : Case

abbrev pub on_status : (Status → Status) → String × Status → String × Status
on_status f (endpoint, s) = (endpoint, f s)

-- shiftWindow
abbrev pub shift_window : Endpoints → Endpoints
shift_window es = map (on_status shift) es

-- The cases that are taken, in their order: the endpoints after them, and whether the goroutine has
-- returned.
unfoldable pub run_ticker : List Case → Endpoints → Endpoints × Bool
run_ticker [] es = (es, false)
run_ticker (done ∷ cs) es = (es, true)
run_ticker (tick ∷ cs) es = run_ticker cs (shift_window es)

-- The ticks before the context is done.
unfoldable pub ticks_before : List Case → ℕ
ticks_before [] = 0
ticks_before (done ∷ cs) = 0
ticks_before (tick ∷ cs) = suc (ticks_before cs)

unfoldable pub shifts : ℕ → Status → Status
shifts zero s = s
shifts (suc n) s = shifts n (shift s)

map-shifts :
    (n : ℕ) (es : Endpoints)
    → map (on_status (shifts n)) (shift_window es) ≡ map (on_status (shifts (suc n))) es
unfolding shifts
map-shifts n [] = refl
map-shifts n (e ∷ es) = ap (λ fs. on_status (shifts (suc n)) e ∷ fs) (map-shifts n es)

map-same : (es : Endpoints) → map (on_status (shifts 0)) es ≡ es
unfolding shifts
map-same [] = refl
map-same (e ∷ es) = ap (λ fs. e ∷ fs) (map-same es)

-- Every endpoint has its windows shifted once for each tick before the context is done, and never
-- after.
pub run_ticker_lem :
    (cs : List Case) (es : Endpoints)
    → (run_ticker cs es).0 ≡ map (on_status (shifts (ticks_before cs))) es
unfolding run_ticker ticks_before
run_ticker_lem [] es = sym (map-same es)
run_ticker_lem (done ∷ cs) es = sym (map-same es)
run_ticker_lem (tick ∷ cs) es =
    run_ticker_lem cs (shift_window es) ∙ map-shifts (ticks_before cs) es
