-- ===== src/EventLoop.antt =====
-- src/event_loop.h and src/event_loop.cpp: the wrapper of libevent's loop.
-- libevent itself is a parameter: `LibEvent` gives the results of its calls. Closures are values
-- of a type `C`; what running one does is the caller's.
pub mod Timer
pub mod Registration
pub mod Watching
pub mod Deferred
mod Tests
use twincam.Base.{
  ℕ, ◌+◌, ◌-◌, ◌/◌, ◌%◌, ◌^◌, Bool, true, false, Option, none, some, List, [], ◌∷◌, ◌++◌, ℤ, pos,
  negsuc, neg, is_neg, if◌then◌else◌,
}

-- `EventLoop::EventType`
pub data EventType : Type 0 where
  read write : EventType

-- The flags that the code hands to `event_new`: EV_READ, EV_WRITE and EV_PERSIST.
pub record EventFlags : Type 0 where
  pub ev_read : Bool
  pub ev_write : Bool
  pub ev_persist : Bool

-- `struct timeval`
pub record Timeval : Type 0 where
  pub tv_sec : ℕ
  pub tv_usec : ℕ

-- The results of libevent's calls. `event_new` takes the descriptor and gives a handle or null;
-- `event_add` takes the handle and the timeout.
pub record LibEvent : Type 0 where
  pub event_new : ℤ → EventFlags → Option ℕ
  pub event_add : ℕ → Option Timeval → ℤ
  pub event_base_once : ℤ

-- `EventLoop::Event`, with the libevent handle or null.
pub record Event (C : Type 0) : Type 0 where
  pub callback : C
  pub event : Option ℕ

-- `deleted` holds what `event_del` and `event_free` have been given, and `breaks` counts the calls
-- of `event_base_loopbreak`.
pub record EventLoop (C : Type 0) : Type 0 where
  pub exit_code : ℤ
  pub calls : List C
  pub events : List (Event C)
  pub deleted : List (Option ℕ)
  pub breaks : ℕ

-- What `call()` does: it runs a closure, or throws `std::bad_function_call` on an empty one.
pub data Called (C : Type 0) : Type 0 where
  runs : C → Called C
  throws : Called C

-- `period.count()` as the unsigned 64-bit number that the division by `1000000ULL` makes of it.
abbrev to_u64 : ℤ → ℕ
to_u64 (pos n) = n % 2 ^ 64
to_u64 (negsuc n) = (2 ^ 64 - 1 - n % 2 ^ 64) % 2 ^ 64

abbrev pub timeval_of : ℤ → Timeval
timeval_of period = record { tv_sec = to_u64 period / 1000000; tv_usec = to_u64 period % 1000000 }

abbrev fd_flags : EventType → EventFlags
fd_flags EventType.read = record { ev_read = true; ev_write = false; ev_persist = true }
fd_flags EventType.write = record { ev_read = false; ev_write = true; ev_persist = true }

module _ {C : Type 0} where
  -- `EventLoop::exit`
  unfoldable pub exit : ℤ → EventLoop C → EventLoop C
  exit code l = record l { exit_code = code; breaks = l.breaks + 1 }

  -- `EventLoop::exec`. `ran` is what the callbacks that `event_base_loop` runs do to the loop.
  pub exec : (EventLoop C → EventLoop C) → EventLoop C → ℤ × EventLoop C
  exec ran l = let l' = ran (record l { exit_code = neg 1 }) in (l'.exit_code, l')

  pub push_call_list : C → EventLoop C → EventLoop C
  push_call_list func l = record l { calls = l.calls ++ func ∷ [] }

  -- The result is the return code of `event_base_once`, which the code drops.
  unfoldable pub call_later : LibEvent → C → EventLoop C → EventLoop C × ℤ
  unfolding push_call_list
  call_later env func l = (push_call_list func l, env.event_base_once)

  -- `Event::~Event`
  pub destroy : Event C → EventLoop C → EventLoop C
  destroy e l = record l { deleted = e.event ∷ l.deleted }

  -- `EventLoop::~EventLoop`: the events go first, in the order of the list.
  pub destroy_all : List (Event C) → EventLoop C → EventLoop C
  unfolding destroy
  destroy_all [] l = record l { events = [] }
  destroy_all (e ∷ es) l = destroy_all es (destroy e l)

  -- The end of `addFdEvent` and `addTimerEvent`, once `event_new` has answered: the event is kept
  -- if it exists and `event_add` takes it, and is destroyed on the two early returns.
  pub register : LibEvent → C → Option ℕ → Option Timeval → EventLoop C → EventLoop C
  unfolding destroy
  register env callback none tv l = destroy (record { callback = callback; event = none }) l
  register env callback (some h) tv l =
      let e : Event C = record { callback = callback; event = some h } in
      if is_neg (env.event_add h tv) then destroy e l else record l { events = l.events ++ e ∷ [] }

  pub add_fd_event : LibEvent → ℤ → EventType → C → EventLoop C → EventLoop C
  unfolding register
  add_fd_event env fd type callback l =
      register env callback (env.event_new fd (fd_flags type)) none l

  pub add_timer_event : LibEvent → ℤ → C → EventLoop C → EventLoop C
  unfolding register
  add_timer_event env period callback l =
      register env callback
        (env.event_new (neg 1) (record { ev_read = false; ev_write = false; ev_persist = true }))
        (some (timeval_of period)) l

  pop_front : List C → EventLoop C → Option C × EventLoop C
  pop_front [] l = (none, l)
  pop_front (call ∷ rest) l = (some call, record l { calls = rest })

  -- `none` leaves the caller's closure empty.
  pop_call_list : EventLoop C → Option C × EventLoop C
  unfolding pop_front
  pop_call_list l = pop_front l.calls l

  abbrev call_of : Option C → Called C
  call_of none = throws
  call_of (some c) = runs c

  -- `dispatchCall`, and `dispatchCallback`, which only calls it.
  unfoldable pub dispatch_call : EventLoop C → Called C × EventLoop C
  unfolding pop_call_list
  dispatch_call l = let (call, l') = pop_call_list l in (call_of call, l')

  -- `EventLoop::Event::dispatch`
  pub dispatch : Event C → Called C
  dispatch e = runs e.callback
