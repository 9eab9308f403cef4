-- ===== src/SdlSink/Render/Quit.antt =====
-- That `processSDLEvents` ends the loop (src/sdl_sink.cpp).
use twincam.Base.{
  ℕ, zero, suc, ◌+◌, ◌≡◌, List, [], ◌∷◌, pos, arith, Bool, true, false, if◌then◌else◌,
}
use twincam.EventLoop.{EventLoop, exit}
use twincam.SdlSink.Render.{SdlEvent, sdl_quit, other_event, process_sdl_events}

-- How many quit events there are.
abbrev pub quits : List SdlEvent → ℕ
quits [] = 0
quits (sdl_quit ∷ es) = suc (quits es)
quits (other_event ∷ es) = quits es

abbrev pub some_of : ℕ → Bool
some_of zero = false
some_of (suc n) = true

-- The loop is broken once for each quit event, with the exit code 0; without one nothing changes. Deferred calls
-- and events stay as they are.
pub process_sdl_events_lem :
    {C : Type 0} (es : List SdlEvent) (l : EventLoop C)
    → let l' = process_sdl_events es l in
      (l'.breaks ≡ l.breaks + quits es)
      × (l'.exit_code ≡ (if some_of (quits es) then pos 0 else l.exit_code))
      × (l'.calls ≡ l.calls)
      × (l'.events ≡ l.events)
unfolding process_sdl_events exit
process_sdl_events_lem [] l = ground arith
process_sdl_events_lem (sdl_quit ∷ es) l =
    ground (arith, process_sdl_events_lem es (exit (pos 0) l))
process_sdl_events_lem (other_event ∷ es) l = ground (arith, process_sdl_events_lem es l)
