-- ===== src/EventLoop/Deferred.antt =====
-- Deferred calls across threads: `callLater` on one thread, `dispatchCall` on the loop's
-- (src/event_loop.cpp). A step is one locked section or one call of libevent.
use mathlib.Core.List.{map-append}
use twincam.Base.{
  ℕ, suc, ◌+◌, ◌≤◌, ◌≡◌, refl, true, false, List, [], ◌∷◌, ◌++◌, map, append_assoc, All, ◌∙◌, ℤ,
  pos, is_neg, arith, length, length-append,
}
use twincam.EventLoop.{
  EventLoop, LibEvent, Called, runs, throws, push_call_list, dispatch_call, exit,
}

-- The loop with its surroundings: `posting` threads stand between the push and `event_base_once`,
-- `pending` one-shot events have been accepted and not fired. `pushed` and `called` are the history.
pub record System (C : Type 0) : Type 0 where
  pub loop : EventLoop C
  pub posting : ℕ
  pub pending : ℕ
  pub pushed : List C
  pub called : List (Called C)

-- What one step may be. libevent fires a one-shot event at most once, and only one that it accepted.
pub data Step {C : Type 0} (s : System C) : System C → Type 0 where
  push :
      (func : C)
      → Step s (record s {
        loop = push_call_list func s.loop;
        posting = suc s.posting;
        pushed = s.pushed ++ func ∷ [];
      })
  accept :
      (env : LibEvent) (n : ℕ)
      → s.posting ≡ suc n
      → is_neg env.event_base_once ≡ false
      → Step s (record s { posting = n; pending = suc s.pending })
  refuse :
      (env : LibEvent) (n : ℕ)
      → s.posting ≡ suc n
      → is_neg env.event_base_once ≡ true
      → Step s (record s { posting = n })
  fire :
      (n : ℕ)
      → s.pending ≡ suc n
      → Step s (record s {
        loop = (dispatch_call s.loop).1;
        pending = n;
        called = s.called ++ (dispatch_call s.loop).0 ∷ [];
      })
  leave : (code : ℤ) → Step s (record s { loop = exit code s.loop })

pub data Reach {C : Type 0} (s : System C) : System C → Type 0 where
  here : Reach s s
  next : {t u : System C} → Reach s t → Step t u → Reach s u

-- Every accepted or coming event has its call in the list, and what was pushed is what has run,
-- followed by what waits.
pub record Inv {C : Type 0} (s : System C) : Type 0 where
  pub enough : s.pending + s.posting ≤ length s.loop.calls
  pub fifo : map runs s.pushed ≡ s.called ++ map runs s.loop.calls

-- What is dispatched is the front of the list.
dispatch_call-cons :
    {C : Type 0} (c : C) (rest : List C) (l : EventLoop C)
    → l.calls ≡ c ∷ rest
    → dispatch_call l ≡ (runs c, record l { calls = rest })
unfolding dispatch_call
dispatch_call-cons c rest l e = ground arith

fire-Inv :
    {C : Type 0} (calls : List C) (n : ℕ) (s : System C)
    → s.loop.calls ≡ calls
    → s.pending ≡ suc n
    → Inv s
    → Inv (record s {
      loop = (dispatch_call s.loop).1;
      pending = n;
      called = s.called ++ (dispatch_call s.loop).0 ∷ [];
    })
fire-Inv [] n s e p v = absurd (ground (arith, v.enough))
fire-Inv (c ∷ rest) n s e p v =
    rw (dispatch_call-cons c rest s.loop e)
      (record { enough = ground (arith, v.enough); fifo = v.fifo ∙ (rw e (simp append_assoc)) })

Step-Inv : {C : Type 0} {s t : System C} → Step s t → Inv s → Inv t
unfolding push_call_list exit
Step-Inv {s} (push func) v = record {
  enough = ground (arith, length-append s.loop.calls (func ∷ []));
  fifo = simp (map-append, v.fifo, append_assoc);
}
Step-Inv (accept env n e ok) v = record { enough = omega (arith, v.enough); fifo = v.fifo }
Step-Inv (refuse env n e bad) v = record { enough = omega (arith, v.enough); fifo = v.fifo }
Step-Inv {s} (fire n e) v = fire-Inv s.loop.calls n s refl e v
Step-Inv (leave code) v = record { enough = v.enough; fifo = v.fifo }

Reach-Inv : {C : Type 0} {s t : System C} → Inv s → Reach s t → Inv t
Reach-Inv v here = v
Reach-Inv v (next r st) = Step-Inv st (Reach-Inv v r)

-- No step has thrown.
abbrev pub IsRun : {C : Type 0} → Called C → Type 0
IsRun (runs _) = Unit
IsRun throws = ⊥

All-IsRun :
    {C : Type 0} (cs : List (Called C)) (pushed calls : List C)
    → map runs pushed ≡ cs ++ map runs calls
    → All IsRun cs
All-IsRun [] pushed calls e = tt
All-IsRun (c ∷ cs) [] calls e = cc
All-IsRun (runs c ∷ cs) (p ∷ ps) calls e = (tt, All-IsRun cs ps calls (ground arith))
All-IsRun (throws ∷ cs) (p ∷ ps) calls e = cc

abbrev pub start : (C : Type 0) → System C
start C = record {
  loop = record { exit_code = pos 0; calls = []; events = []; deleted = []; breaks = 0 };
  posting = 0;
  pending = 0;
  pushed = [];
  called = [];
}

start-Inv : (C : Type 0) → Inv (start C)
start-Inv C = record { enough = omega arith; fifo = refl }

-- In every interleaving of threads that defer calls, refused or accepted events, fired events and
-- exits, no dispatch finds the list empty and throws, and the calls that have run, followed by
-- those that wait, are the calls that were deferred, in that order.
pub deferred_calls_fifo :
    {C : Type 0} {s : System C}
    → Reach (start C) s
    → All IsRun s.called × (map runs s.pushed ≡ s.called ++ map runs s.loop.calls)
deferred_calls_fifo {C} {s} r =
    let v = Reach-Inv (start-Inv C) r in (All-IsRun s.called s.pushed s.loop.calls v.fifo, v.fifo)
