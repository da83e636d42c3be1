-- ===== src/Lifecycle/SingleRun.antt =====
-- One call of `Start` on a new server, with any number of calls of `Shutdown` and `Close`.
pub mod Progress
use witchcraft_go_server.Base.{
  ℕ, zero, suc, ◌+◌, ◌≤◌, ◌≡◌, refl, Bool, true, false, Option, none, some, List, [], ◌∷◌, arith,
  bit, get_elem?, set, count_if, count_if-set, count_if_pos, count_if_find, Found,
}
use witchcraft_go_server.Lifecycle.{
  ServerState, Shared, StartError, StartPc, StopPc, idle, initializing, running, shutting_down,
  unknown, cas, report, make_chan, load, init, run_cas, serve, reset_read, reset, await, exit,
  returned, entry, read, loop, stopping, set_idle, close_chan, done, crashed, new_server,
  start_step, stop_step,
}
use witchcraft_go_server.Lifecycle.Threads.{
  World, Step, start, stop, Reach, here, next, calls, boot,
}
use witchcraft_go_server.Lifecycle.Owner.{is_shutting_down, owns}

abbrev pub pending : StopPc → Bool
pending (close_chan _) = true
pending _ = false

-- Past the log line, and before the swap.
abbrev pub live : StopPc → Bool
live read = true
live (loop _) = true
live _ = false

abbrev is_active : ServerState → Bool
is_active idle = false
is_active shutting_down = false
is_active _ = true

abbrev chan_closed : Option ℕ → (ℕ → Bool) → ℕ
chan_closed none closed = 0
chan_closed (some k) closed = bit (closed k)

-- Before the loggers are set.
abbrev is_early : StartPc → Bool
is_early cas = true
is_early make_chan = true
is_early load = true
is_early _ = false

abbrev is_cas : StartPc → Bool
is_cas cas = true
is_cas _ = false

abbrev has_no_chan : StartPc → Bool
has_no_chan cas = true
has_no_chan make_chan = true
has_no_chan _ = false

abbrev is_report : StartPc → Bool
is_report report = true
is_report _ = false

-- The call has seen, or made, the final state "idle".
abbrev is_settled : StartPc → Bool
is_settled (reset _ idle) = true
is_settled (exit _) = true
is_settled (returned _) = true
is_settled _ = false

abbrev is_waiting : StartPc → Bool
is_waiting (reset _ shutting_down) = true
is_waiting (await _ _) = true
is_waiting _ = false

-- The channel that the call is blocked on, if it is.
abbrev waits_on : StartPc → Option ℕ → Option ℕ
waits_on (await _ c) d = c
waits_on _ d = d

abbrev is_made : Option ℕ → Bool
is_made none = false
is_made (some _) = true

-- `o`, `p` and `l` count the stopping calls that own the shutdown, that are about to close the
-- channel, and that have not tried the swap.
record Facts (t : StartPc) (s : Shared) (o p l : ℕ) : Type 0 where
  owners : o ≡ bit (is_shutting_down s.state)
  no_report : is_report t ≡ false
  first : is_cas t ≡ true → (s.state ≡ idle) × (s.shutdown_finished ≡ none)
  quiet : is_early t ≡ true → (o ≡ 0) × (p ≡ 0) × (l ≡ 0) × (s.has_logger ≡ false)
  one_way : bit (is_active s.state) + o + p + chan_closed s.shutdown_finished s.closed ≤ 1
  chan : has_no_chan t ≡ false → is_made s.shutdown_finished ≡ true
  settled : is_settled t ≡ true → s.state ≡ idle
  waiting : is_waiting t ≡ true → o + p + chan_closed s.shutdown_finished s.closed ≡ 1
  blocked : waits_on t s.shutdown_finished ≡ s.shutdown_finished

start_step-Facts :
    (fails : Bool) (t t' : StartPc) (s s' : Shared) (o p l : ℕ)
    → start_step fails t s ≡ some (t', s')
    → Facts t s o p l
    → Facts t' s' o p l
unfolding start_step
start_step-Facts fails t t' s s' o p l h f = record {
  owners = ground arith;
  no_report = ground arith;
  first = ground arith;
  quiet = ground arith;
  one_way = ground arith;
  chan = ground arith;
  settled = ground arith;
  waiting = ground arith;
  blocked = ground arith;
}

stop_step-Facts :
    (fails : Bool) (u u' : StopPc) (t : StartPc) (s s' : Shared) (o p l o' p' l' : ℕ)
    → stop_step fails u s ≡ some (u', s')
    → o' + bit (owns u) ≡ o + bit (owns u')
    → p' + bit (pending u) ≡ p + bit (pending u')
    → l' + bit (live u) ≡ l + bit (live u')
    → bit (owns u) ≤ o
    → bit (pending u) ≤ p
    → bit (live u) ≤ l
    → Facts t s o p l
    → Facts t s' o' p' l'
unfolding stop_step
stop_step-Facts fails u u' t s s' o p l o' p' l' h ho hp hl bo bp bl f = record {
  owners = ground arith;
  no_report = f.no_report;
  first = ground arith;
  quiet = ground arith;
  one_way = ground arith;
  chan = ground arith;
  settled = ground arith;
  waiting = ground arith;
  blocked = ground arith;
}

abbrev Single : World → Type 0
Single w =
    (t : StartPc) × (w.starts ≡ t ∷ [])
    × Facts t w.shared (count_if owns w.stops) (count_if pending w.stops) (count_if live w.stops)

only_call :
    (ts : List StartPc) (i : ℕ) (t t₁ t' : StartPc)
    → ts ≡ t ∷ []
    → get_elem? ts i ≡ some t₁
    → (t₁ ≡ t) × (set ts i t' ≡ t' ∷ [])
only_call [] i t t₁ t' e at = cc
only_call (x ∷ ts) zero t t₁ t' e at = (cc, cc)
only_call (x ∷ []) (suc i) t t₁ t' e at = cc
only_call (x ∷ y ∷ ts) (suc i) t t₁ t' e at = cc

Single-Step : {w w' : World} → Step w w' → Single w → Single w'
Single-Step {w} (start i fails t₁ t' s' at h) (t, one, f) =
    let (same_call, one') = only_call w.starts i t t₁ t' one at in
    (t', one', start_step-Facts fails t t' w.shared s' _ _ _ (rw same_call at h) f)
Single-Step {w} (stop i fails u u' s' at h) (t, one, f) = (
  t,
  one,
  stop_step-Facts fails u u' t w.shared s' _ _ _ _ _ _ h (count_if-set owns w.stops i u u' at)
      (count_if-set pending w.stops i u u' at) (count_if-set live w.stops i u u' at)
      (count_if_pos owns w.stops i u at) (count_if_pos pending w.stops i u at)
      (count_if_pos live w.stops i u at) f,
)

calls-entry :
    (n : ℕ)
    → (count_if owns (calls n entry) ≡ 0)
      × (count_if pending (calls n entry) ≡ 0)
      × (count_if live (calls n entry) ≡ 0)
unfolding count_if
calls-entry zero = (refl, refl, refl)
calls-entry (suc n) = omega (arith, calls-entry n)

Single-boot : (n : ℕ) → Single (boot 1 n)
Single-boot n = (cas, refl, ground (arith, calls-entry n))

Single-Reach : {u w : World} → Single u → Reach u w → Single w
Single-Reach h here = h
Single-Reach h (next r st) = Single-Step st (Single-Reach h r)

-- What a call that is about to close the channel finds: a channel, and one that is open.
abbrev pub CanClose : Shared → Type 0
CanClose s = (k : ℕ) × (s.shutdown_finished ≡ some k) × (s.closed k ≡ false)

open_chan :
    (c : Option ℕ) (closed : ℕ → Bool)
    → is_made c ≡ true
    → chan_closed c closed ≡ 0
    → (k : ℕ) × (c ≡ some k) × (closed k ≡ false)
open_chan none closed made open_ = cc
open_chan (some k) closed made open_ = (k, refl, ground arith)

CanClose-of_Facts : (t : StartPc) (s : Shared) (o p l : ℕ) → Facts t s o p l → 1 ≤ p → CanClose s
CanClose-of_Facts t s o p l f h =
    open_chan s.shutdown_finished s.closed (ground arith) (ground arith)

-- While one call of `Start` runs on a new server, `close(s.shutdownFinished)` never panics: a
-- stopping call that is about to close the channel finds that it has been made and is open.
pub close_safe :
    (n : ℕ) {w : World} (i : ℕ) (failed : Bool)
    → Reach (boot 1 n) w
    → get_elem? w.stops i ≡ some (close_chan failed)
    → CanClose w.shared
close_safe n {w} i failed r at =
    let (t, one, f) = Single-Reach (Single-boot n) r in
    CanClose-of_Facts t w.shared _ _ _ f (count_if_pos pending w.stops i (close_chan failed) at)

-- While one call of `Start` runs on a new server, the state is idle when it returns, and stays so.
pub returned_idle :
    (n : ℕ) {w : World} (r : Option StartError)
    → Reach (boot 1 n) w
    → get_elem? w.starts 0 ≡ some (returned r)
    → w.shared.state ≡ idle
returned_idle n {w} r reach at =
    let (t, one, f) = Single-Reach (Single-boot n) reach in
    f.settled (rw (← (only_call w.starts 0 t (returned r) t one at).0) refl)
