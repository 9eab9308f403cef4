-- ===== src/EventLoop/Timer.antt =====
-- The period of a timer as libevent's seconds and microseconds (src/event_loop.cpp, addTimerEvent).
use twincam.Base.{ℕ, ◌+◌, ◌*◌, ◌<◌, ◌^◌, ◌≡◌, pos, arith}
use twincam.EventLoop.{timeval_of}

-- A period of n microseconds that fits 64 bits is split exactly: seconds and microseconds add up
-- to it, and the microseconds stay below a second.
pub timeval_of_exact :
    (n : ℕ)
    → n < 2 ^ 64
    → let tv = timeval_of (pos n) in (tv.tv_sec * 1000000 + tv.tv_usec ≡ n) × (tv.tv_usec < 1000000)
timeval_of_exact n h = omega arith
