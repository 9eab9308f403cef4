-- ===== src/FileSink/Interface.antt =====
-- `FileSink` and the promise of a sink (src/file_sink.cpp).
use twincam.Base.{◌≡◌, inl, inr, Bool, some, [], ◌∷◌, arith, Option-cases, if◌then◌else◌, ◌++◌}
use twincam.Camera.{Request, buffers}
use twincam.Image.{MmapApi}
use twincam.CameraSession.Frames.Keeper.{Keeper}
use twincam.FileSink.{FileApi, FileSink, file_sink, process_request, write_buffers}

process_held :
    (api : FileApi) (r : Request) (k : FileSink) (done : Bool) (k' : FileSink)
    → process_request api r k ≡ some (done, k')
    → [] ≡ [] ++ (if done then [] else r.address ∷ [])
unfolding process_request
process_held api r k done k' e = elim (Option-cases (write_buffers api (buffers r) k)) [
  | inl crash ↦ absurd (ground arith)
  | inr (k1, wrote) ↦ ground arith
]

-- The sink keeps the promise of the interface: it is done with a request when `process_request` returns.
pub file_keeper : (api : FileApi) (mmap : MmapApi) → Keeper (file_sink api mmap)
unfolding file_sink
file_keeper api mmap = record {
  held = λ k. [];
  Release = λ k o k'. ⊥;
  process_held = process_held api;
  release_held = λ k o k' e. absurd e;
}
