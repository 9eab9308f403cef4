-- ===== src/EventLoop/Watching.antt =====
-- What a call of `addFdEvent` leaves in the loop (src/event_loop.cpp).
use twincam.Base.{
  ℕ, ℤ, ◌≡◌, ◌⊎◌, inl, inr, true, false, none, some, [], ◌∷◌, ◌++◌, is_neg, arith, Bool-cases,
  Option-cases,
}
use twincam.EventLoop.{EventType, EventFlags, LibEvent, EventLoop, destroy, register, add_fd_event}

-- libevent watches a descriptor for reading, again and again.
abbrev pub read_events : EventFlags
read_events = record { ev_read = true; ev_write = false; ev_persist = true }

-- libevent has made an event for the descriptor and has taken it, and the loop keeps it.
abbrev pub IsWatched : {C : Type 0} → LibEvent → ℤ → C → EventLoop C → EventLoop C → Type 0
IsWatched env fd callback l l' =
    (h : ℕ) × (env.event_new fd read_events ≡ some h)
    × (is_neg (env.event_add h none) ≡ false)
    × (l'.events ≡ l.events ++ (record { callback = callback; event = some h } ∷ []))

-- libevent has refused the event, and the loop keeps none.
abbrev pub IsRefused : {C : Type 0} → LibEvent → ℤ → EventLoop C → EventLoop C → Type 0
IsRefused env fd l l' =
    ((env.event_new fd read_events ≡ none)
      ⊎ ((h : ℕ) × (env.event_new fd read_events ≡ some h)
          × (is_neg (env.event_add h none) ≡ true)))
    × (l'.events ≡ l.events)

pub add_fd_event-cases :
    {C : Type 0} (env : LibEvent) (fd : ℤ) (callback : C) (l : EventLoop C)
    → let l' = add_fd_event env fd EventType.read callback l in
      IsWatched env fd callback l l' ⊎ IsRefused env fd l l'
unfolding add_fd_event register destroy
add_fd_event-cases env fd callback l = elim (Option-cases (env.event_new fd read_events)) [
  | inl null ↦ inr (inl null, ground (arith, null))
  | inr (h, made) ↦ elim (Bool-cases (is_neg (env.event_add h none))) [
    | inl refused ↦ inr (inr (h, made, refused), ground (arith, made, refused))
    | inr taken ↦ inl (h, made, taken, ground (arith, made, taken))
  ]
]
