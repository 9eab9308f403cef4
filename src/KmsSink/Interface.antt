-- ===== src/KmsSink/Interface.antt =====
-- `KMSSink` as a `FrameSink` (src/kms_sink.h), and what it promises about the requests that it holds.
use twincam.Base.{
  ◌>>=◌, ℕ, ◌≡◌, refl, sym, ap, inl, inr, ◌∙◌, Bool, true, false, Option, none, some, List, [], ◌∷◌,
  ◌++◌, map, pos, arith, to_list, if◌then◌else◌, Option-cases, append-nil,
}
use mathlib.Core.List.{map-append}
use twincam.Camera.{PixelFormat, Request}
use twincam.Drm.AtomicRequest.{AtomicApi}
use twincam.Drm.FrameBuffer.{PrimeApi}
use twincam.CameraSession.State.{FrameSink}
use twincam.CameraSession.Frames.Keeper.{Keeper}
use twincam.KmsSink.State.{KmsSink}
use twincam.KmsSink.Setup.{map_buffer}
use twincam.KmsSink.Pipeline.{configure}
use twincam.KmsSink.Queue.{Processed, Completed, advance, stop, process_request, request_complete}
use twincam.KmsSink.Queue.System.{held}
use twincam.KmsSink.Queue.Cases.{process_request-cases, request_complete-cases}
use twincam.KmsSink.Queue.Order.{accept-history, accept-done, advance-history}

abbrev process : AtomicApi → Request → KmsSink → Option (Bool × KmsSink)
process api r k = do out ← process_request api r k; some (out.done, out.sink)

-- Its operations; `start` is that of the base class.
unfoldable pub kms_sink : AtomicApi → PrimeApi → (PixelFormat → ℕ) → FrameSink KmsSink
kms_sink api prime fourcc = record {
  configure = λ config k. elim config [ [] ↦ none | cfg ∷ cfgs ↦ configure fourcc cfg k ];
  map_buffer = map_buffer prime fourcc;
  start = λ k. some (pos 0, k);
  stop = stop api;
  process_request = process api;
}

abbrev addresses : List Request → List ℕ
addresses rs = map (λ (r : Request). r.address) rs

-- A page flip of any request, whatever libdrm answers to the commit of the next one.
abbrev pub Flip : KmsSink → Option Request → KmsSink → Type 0
Flip k o k' =
    (api : AtomicApi) × (a : ℕ) × (out : Completed) × (request_complete api a k ≡ some out)
    × (o ≡ out.emitted)
    × (k' ≡ out.sink)

kms_process_held :
    (api : AtomicApi) (r : Request) (k : KmsSink) (out : Processed)
    → process_request api r k ≡ some out
    → held out.sink ≡ held k ++ (if out.done then [] else r ∷ [])
kms_process_held api r k out e = elim (process_request-cases api r k out e) [
  | inl drop ↦ rw drop (sym (append-nil (held k)))
  | inr (o, fb, free, took) ↦ rw (took, accept-done api o fb r k) (accept-history api o fb r k free)
]

addresses-append : (xs ys : List Request) → addresses (xs ++ ys) ≡ addresses xs ++ addresses ys
addresses-append xs ys = map-append (λ (r : Request). r.address) xs ys

addresses_if :
    (b : Bool) (r : Request)
    → addresses (if b then [] else r ∷ []) ≡ (if b then [] else r.address ∷ [])
addresses_if true r = refl
addresses_if false r = refl

process_held :
    (api : AtomicApi) (r : Request) (k : KmsSink) (done : Bool) (k' : KmsSink)
    → process api r k ≡ some (done, k')
    → addresses (held k') ≡ addresses (held k) ++ (if done then [] else r.address ∷ [])
process_held api r k done k' e = elim (Option-cases (process_request api r k)) [
  | inl crash ↦ absurd (ground arith)
  | inr (out, got) ↦
      let d : done ≡ out.done = ground arith in
      let s : k' ≡ out.sink = ground arith in
      rw (d, s)
        (ap addresses (kms_process_held api r k out got)
          ∙ addresses-append (held k) (if out.done then [] else r ∷ [])
          ∙ ap (◌++◌ (addresses (held k))) (addresses_if out.done r))
]

release_held :
    (k : KmsSink) (o : Option Request) (k' : KmsSink)
    → Flip k o k'
    → addresses (held k) ≡ addresses (to_list o) ++ addresses (held k')
release_held k o k' (api, a, out, e, f, g) =
    let (q, full, same, took) = request_complete-cases api a k out e in
    let next = advance api q k.pending k in
    rw (f, g, took)
      (ap addresses (advance-history api q k full)
        ∙ addresses-append (to_list next.emitted) (held next.sink))

-- The sink keeps the promise of the interface.
pub kms_keeper :
    (api : AtomicApi) (prime : PrimeApi) (fourcc : PixelFormat → ℕ)
    → Keeper (kms_sink api prime fourcc)
unfolding kms_sink
kms_keeper api prime fourcc = record {
  held = λ k. addresses (held k);
  Release = Flip;
  process_held = process_held api;
  release_held = release_held;
}
