-- ===== src/EventLoop/Tests.antt =====
-- Runs of the event loop, and its theorems at concrete inputs.
use mathlib.Core.List.{Perm}
use twincam.Base.{ℕ, ◌+◌, ◌*◌, ◌<◌, ◌≡◌, refl, some, List, [], ◌∷◌, ◌++◌, map, pos, neg, arith, All}
use twincam.EventLoop.Deferred
use twincam.EventLoop.{
  EventType, LibEvent, runs, timeval_of, destroy_all, push_call_list, dispatch_call,
}
use twincam.EventLoop.Timer.{timeval_of_exact}
use twincam.EventLoop.Registration.{Registration, add_all, destroy_all-add_all-perm}
use twincam.EventLoop.Deferred.{Step, Reach, System, start, deferred_calls_fifo}

-- A libevent that creates handle 7 for a descriptor, and refuses to add it.
abbrev refusing : LibEvent
refusing = record {
  event_new = λ fd flags. some 7;
  event_add = λ h tv. neg 1;
  event_base_once = pos 0;
}

abbrev accepting : LibEvent
accepting = record {
  event_new = λ fd flags. some 8;
  event_add = λ h tv. pos 0;
  event_base_once = pos 0;
}

abbrev two_events : List (Registration ℕ)
two_events =
    Registration.fd refusing (pos 3) EventType.read 1
    ∷ Registration.timer accepting (pos 10000) 2
    ∷ []

timeval_of_exact_example :
    let tv = timeval_of (pos 2500000) in
    (tv.tv_sec * 1000000 + tv.tv_usec ≡ 2500000) × (tv.tv_usec < 1000000)
timeval_of_exact_example = timeval_of_exact 2500000 (omega arith)

destroy_all-add_all-perm_example :
    let l' = add_all two_events (start ℕ).loop in
    Perm (destroy_all l'.events l').deleted (some 7 ∷ some 8 ∷ [])
destroy_all-add_all-perm_example = destroy_all-add_all-perm two_events (start ℕ).loop

-- Two threads defer calls 5 and 6; one event is accepted and fires.
abbrev after_push : System ℕ
after_push = record (start ℕ) {
  loop = push_call_list 6 (push_call_list 5 (start ℕ).loop);
  posting = 2;
  pushed = 5 ∷ 6 ∷ [];
}

abbrev after_accept : System ℕ
after_accept = record after_push { posting = 1; pending = 1 }

abbrev after_fire : System ℕ
after_fire = record after_accept {
  loop = (dispatch_call after_push.loop).1;
  pending = 0;
  called = (dispatch_call after_push.loop).0 ∷ [];
}

fired : Reach (start ℕ) after_fire
fired =
    Reach.next
      (Reach.next (Reach.next (Reach.next Reach.here (Step.push 5)) (Step.push 6))
        (Step.accept accepting 1 refl refl))
      (Step.fire 0 refl)

deferred_calls_fifo_example :
    All Deferred.IsRun after_fire.called
    × (runs 5 ∷ runs 6 ∷ [] ≡ after_fire.called ++ map runs after_fire.loop.calls)
deferred_calls_fifo_example = deferred_calls_fifo fired
