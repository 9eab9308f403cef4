-- ===== src/EventLoop/Registration.antt =====
-- The events that a loop owns and deletes (src/event_loop.cpp).
use mathlib.Core.List.{Perm, perm_middle, map-append}
use mathlib.Core.List.Perm
use twincam.Base.{
  ℕ, inl, inr, true, false, Option, none, some, List, [], ◌∷◌, ◌++◌, map, append_assoc, Bool-cases,
  neg, ℤ, is_neg,
}
use twincam.EventLoop.{
  EventType, Timeval, LibEvent, Event, EventLoop, register, add_fd_event, add_timer_event,
  destroy_all, fd_flags, timeval_of,
}

-- A call of `addFdEvent` or `addTimerEvent`, with what libevent answers.
pub data Registration (C : Type 0) : Type 0 where
  fd : LibEvent → ℤ → EventType → C → Registration C
  timer : LibEvent → ℤ → C → Registration C

module _ {C : Type 0} where
  pub add : Registration C → EventLoop C → EventLoop C
  add (fd env n type callback) = add_fd_event env n type callback
  add (timer env period callback) = add_timer_event env period callback

  pub add_all : List (Registration C) → EventLoop C → EventLoop C
  add_all [] l = l
  add_all (r ∷ rs) l = add_all rs (add r l)

  -- What `event_new` gives to a call.
  abbrev pub created : Registration C → Option ℕ
  created (fd env n type callback) = env.event_new n (fd_flags type)
  created (timer env period callback) =
      env.event_new (neg 1) (record { ev_read = false; ev_write = false; ev_persist = true })

  abbrev pub handles : EventLoop C → List (Option ℕ)
  handles l = map (λ e. e.event) l.events

  -- The handle goes to the list or to `~Event`.
  register-Perm :
      (env : LibEvent) (callback : C) (h : Option ℕ) (tv : Option Timeval) (l : EventLoop C)
      → let l' = register env callback h tv l in
        Perm (handles l' ++ l'.deleted) (h ∷ handles l ++ l.deleted)
  unfolding register
  register-Perm env callback none tv l = perm_middle (handles l) l.deleted
  register-Perm env callback (some h) tv l = elim (Bool-cases (is_neg (env.event_add h tv))) [
    | inl e ↦ rw e (perm_middle (handles l) l.deleted)
    | inr e ↦ rw (e, map-append, append_assoc) (perm_middle (handles l) l.deleted)
  ]

  add-Perm :
      (r : Registration C) (l : EventLoop C)
      → Perm (handles (add r l) ++ (add r l).deleted) (created r ∷ handles l ++ l.deleted)
  unfolding add add_fd_event add_timer_event
  add-Perm (fd env n type callback) l = register-Perm env callback _ none l
  add-Perm (timer env period callback) l = register-Perm env callback _ (some (timeval_of period)) l

  add_all-Perm :
      (rs : List (Registration C)) (l : EventLoop C)
      → Perm
          (handles (add_all rs l) ++ (add_all rs l).deleted)
          (map created rs ++ handles l ++ l.deleted)
  unfolding add_all
  add_all-Perm [] l = Perm.refl _
  add_all-Perm (r ∷ rs) l = Perm.trans (add_all-Perm rs (add r l)) (
      rw (append_assoc, append_assoc)
        (Perm.trans (Perm.append_left (map created rs) (add-Perm r l))
          (perm_middle (map created rs) (handles l ++ l.deleted))))

  deleted-destroy_all :
      (es : List (Event C)) (l : EventLoop C)
      → Perm (destroy_all es l).deleted (map (λ e. e.event) es ++ l.deleted)
  unfolding destroy_all
  deleted-destroy_all [] l = Perm.refl _
  deleted-destroy_all (e ∷ es) l =
      Perm.trans (deleted-destroy_all es _) (perm_middle (map (λ e. e.event) es) l.deleted)

  -- Whatever libevent answers to calls that add events to a loop, the destructor of the loop then
  -- leaves deleted, each exactly once, every handle that `event_new` gave to these calls and every
  -- handle that the loop owned or had deleted before. (A null that `event_new` gave is among
  -- them: it is handed to `event_del` and `event_free` too.)
  pub destroy_all-add_all-perm :
      (rs : List (Registration C)) (l : EventLoop C)
      → let l' = add_all rs l in
        Perm (destroy_all l'.events l').deleted (map created rs ++ handles l ++ l.deleted)
  destroy_all-add_all-perm rs l =
      Perm.trans (deleted-destroy_all (add_all rs l).events (add_all rs l)) (add_all-Perm rs l)
