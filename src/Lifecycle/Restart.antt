-- ===== src/Lifecycle/Restart.antt =====
-- What a second call of `Start` may meet, when it comes between the store of "idle" and the close
-- of the channel in the deferred function of `stopServer`.
use witchcraft_go_server.Base.{ℕ, suc, ◌≡◌, refl, Bool, true, false, some, arith, get_elem?, set}
use witchcraft_go_server.Base.{get_elem?-set_self}
use witchcraft_go_server.Lifecycle.{
  Shared, idle, initializing, cas, make_chan, load, close_chan, done, crashed, update, start_step,
  stop_step,
}
use witchcraft_go_server.Lifecycle.Threads.{World, start, stop, Reach, here, next}

abbrev swapped : Shared → Shared
swapped s = record s { state = initializing }

abbrev made : Shared → Shared
made s = record (swapped s) {
  shutdown_finished = some s.next_chan;
  closed = update s.closed s.next_chan false;
  next_chan = suc s.next_chan;
}

abbrev closed_again : Shared → Shared
closed_again s = record (made s) { closed = update (made s).closed s.next_chan true }

-- The world in which the new run has made its channel and the old stopping call has closed it.
abbrev restarted : World → ℕ → ℕ → Bool → World
restarted w i j failed = record {
  shared = closed_again w.shared;
  starts = set (set w.starts j make_chan) j load;
  stops = set w.stops i (done failed);
}

swap_step : (s : Shared) → s.state ≡ idle → start_step false cas s ≡ some (make_chan, swapped s)
unfolding start_step
swap_step s h = ground arith

make_step :
    (s : Shared)
    → start_step false make_chan s
      ≡ some (
        load,
        record s {
          shutdown_finished = some s.next_chan;
          closed = update s.closed s.next_chan false;
          next_chan = suc s.next_chan;
        },
      )
unfolding start_step
make_step s = refl

close_made :
    (s : Shared) (failed : Bool)
    → stop_step false (close_chan failed) (made s) ≡ some (done failed, closed_again s)
unfolding stop_step
close_made s failed = ground arith

close_closed :
    (s : Shared) (k : ℕ) (fails failed : Bool)
    → s.shutdown_finished ≡ some k
    → s.closed k ≡ true
    → stop_step fails (close_chan failed) s ≡ some (crashed, s)
unfolding stop_step
close_closed s k fails failed c h = ground arith

closed_next : (s : Shared) → (closed_again s).closed s.next_chan ≡ true
closed_next s = ground arith

-- When a stopping call has stored "idle" and not yet closed the channel, and a call of `Start`
-- comes then, there is an interleaving in which the old stopping call closes the channel of the new
-- run: the new run is initializing, its channel is closed already, and whatever call comes to close
-- it again panics.
pub start_before_close :
    (w : World) (i j : ℕ) (failed : Bool)
    → get_elem? w.stops i ≡ some (close_chan failed)
    → get_elem? w.starts j ≡ some cas
    → w.shared.state ≡ idle
    → (w' : World) × Reach w w'
      × (w'.shared.state ≡ initializing)
      × (get_elem? w'.starts j ≡ some load)
      × (w'.shared.shutdown_finished ≡ some w.shared.next_chan)
      × (w'.shared.closed w.shared.next_chan ≡ true)
      × ((fails b : Bool) → stop_step fails (close_chan b) w'.shared ≡ some (crashed, w'.shared))
start_before_close w i j failed at_stop at_start is_idle =
    let at_make = get_elem?-set_self w.starts j cas make_chan at_start in
    (
      restarted w i j failed,
      next
          (next (next here (start j false cas make_chan _ at_start (swap_step w.shared is_idle)))
            (start j false make_chan load (made w.shared) at_make (make_step (swapped w.shared))))
          (stop i false (close_chan failed) (done failed) _ at_stop (close_made w.shared failed)),
      refl,
      get_elem?-set_self (set w.starts j make_chan) j make_chan load at_make,
      refl,
      closed_next w.shared,
      λ fails b.
          close_closed (closed_again w.shared) w.shared.next_chan fails b refl
            (closed_next w.shared),
    )
