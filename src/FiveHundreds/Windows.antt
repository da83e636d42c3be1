-- ===== src/FiveHundreds/Windows.antt =====
-- The six windows of an endpoint against its whole history.
use witchcraft_go_server.Base.{
  ℕ, zero, suc, ◌<◌, ◌≡◌, ◌↔◌, refl, Bool, true, false, some, List, [], ◌∷◌, arith, get_elem?,
  if◌then◌else◌, ◌==◌, ltb, ◌||◌,
}
use witchcraft_go_server.FiveHundreds.{Status, new_status, is_error, shift, mark_code, all_true}

-- What happens to one endpoint: a response with a code, or the tick that shifts the windows.
pub data Event : Type 0 where
  response : ℕ → Event
  tick : Event

apply : Event → Status → Status
apply (response code) s = mark_code code s
apply tick s = shift s

-- The status after some events, the latest first.
unfoldable pub after : List Event → Status
unfolding apply
after [] = new_status
after (e ∷ es) = apply e (after es)

-- Whether the latest response of the current window that was a 500 or a success was a 500.
unfoldable pub open_window : List Event → Bool
open_window [] = false
open_window (tick ∷ es) = false
open_window (response code ∷ es) =
    let earlier = open_window es in
    if code == 500 then true else if ltb code 400 then false else earlier

-- The same for the windows that have ended, the latest first.
unfoldable pub closed_windows : List Event → List Bool
unfolding open_window
closed_windows [] = []
closed_windows (tick ∷ es) = open_window es ∷ closed_windows es
closed_windows (response code ∷ es) = closed_windows es

-- Whether any response was a success.
unfoldable pub any_success : List Event → Bool
any_success [] = false
any_success (tick ∷ es) = any_success es
any_success (response code ∷ es) = ltb code 400 || any_success es

-- The first `n` entries, with windows that never were taken as false.
pad : ℕ → List Bool → List Bool
pad zero ws = []
pad (suc n) [] = false ∷ pad n []
pad (suc n) (w ∷ ws) = w ∷ pad n ws

abbrev window_state : Bool → List Bool → Bool → Status
window_state w ws had = record { windows = w ∷ pad 5 ws; had_success_ever = had }

shift_pad :
    (w : Bool) (ws : List Bool) (had : Bool)
    → shift (window_state w ws had) ≡ window_state false (w ∷ ws) had
unfolding shift pad
shift_pad w [] had = refl
shift_pad w (a ∷ []) had = refl
shift_pad w (a ∷ b ∷ []) had = refl
shift_pad w (a ∷ b ∷ c ∷ []) had = refl
shift_pad w (a ∷ b ∷ c ∷ d ∷ []) had = refl
shift_pad w (a ∷ b ∷ c ∷ d ∷ e ∷ ws) had = refl

mark_pad :
    (code : ℕ) (w : Bool) (ws : List Bool) (had : Bool)
    → mark_code code (window_state w ws had)
      ≡ window_state
          (if code == 500 then true else if ltb code 400 then false else w)
          ws
          (ltb code 400 || had)
unfolding mark_code
mark_pad code w ws had = ground arith

-- The record of an endpoint is a bounded view of its whole history.
after_history :
    (es : List Event)
    → after es ≡ window_state (open_window es) (closed_windows es) (any_success es)
unfolding after open_window closed_windows any_success pad
after_history [] = refl
after_history (tick ∷ es) =
    rw (after_history es) (shift_pad (open_window es) (closed_windows es) (any_success es))
after_history (response code ∷ es) =
    rw (after_history es) (mark_pad code (open_window es) (closed_windows es) (any_success es))

all_true-pad :
    (n : ℕ) (ws : List Bool)
    → (all_true (pad n ws) ≡ true) ↔ ((i : ℕ) → i < n → get_elem? ws i ≡ some true)
unfolding all_true pad
all_true-pad zero ws = (λ h i lt. elim lt [ ], λ h. refl)
all_true-pad (suc n) [] = (λ h. cc, λ h. cc (h 0 (omega arith)))
all_true-pad (suc n) (true ∷ ws) = (
  λ h. heads (all_true-pad n ws).0 h,
  λ h. (all_true-pad n ws).1 (λ i lt. h (suc i) (omega arith)),
)
  where
    heads :
        (all_true (pad n ws) ≡ true → (i : ℕ) → i < n → get_elem? ws i ≡ some true)
        → all_true (pad n ws) ≡ true
        → (i : ℕ) → i < suc n
        → get_elem? (true ∷ ws) i ≡ some true
    heads ih h zero lt = refl
    heads ih h (suc i) lt = ih h i (omega arith)
all_true-pad (suc n) (false ∷ ws) = (λ h. cc, λ h. cc (h 0 (omega arith)))

-- After any responses and ticks, the endpoint counts as erring exactly when at least five windows
-- have ended and, in each of the last five, the latest response that was a 500 or below 400 was a
-- 500; the current window and codes from 400 up other than 500 have no part in it. The endpoint
-- counts as having succeeded exactly when some response was below 400.
pub is_error_iff :
    (es : List Event)
    → ((is_error (after es) ≡ true)
        ↔ ((i : ℕ) → i < 5 → get_elem? (closed_windows es) i ≡ some true))
      × ((after es).had_success_ever ≡ any_success es)
unfolding is_error
is_error_iff es = rw (after_history es) (all_true-pad 5 (closed_windows es), refl)
