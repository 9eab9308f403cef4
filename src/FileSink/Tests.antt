-- ===== src/FileSink/Tests.antt =====
-- The theorem on the writes at a concrete input.
use twincam.Base.{◌≡◌, refl, ◌⊎◌, some, List, [], ◌∷◌, pos, arith, length}
use twincam.Base.Maps.{map_find}
use twincam.Camera.{FrameBuffer}
use twincam.Image.{Image, num_planes}
use twincam.FileSink.{Write, FileApi, FileSink, write_buffer}
use twincam.FileSink.Writes.{AllWritten, IsCut, write_buffer-AllWritten}

-- Every write is of all its bytes.
abbrev api : FileApi
api = record { open_file = some 9; write = λ w. pos w.length }

-- The first plane is not full; the metadata tell more for the second than it has.
abbrev buffer : FrameBuffer
buffer = record {
  address = 100;
  planes =
      record { fd = 5; offset = 0; length = 640 }
      ∷ record { fd = 5; offset = 640; length = 320 }
      ∷ [];
  metadata = record { sequence = 7; timestamp = 1000; planes = 600 ∷ 400 ∷ [] };
}

abbrev two_spans : Image
two_spans = record {
  maps = record { address = 4096; size = 960 } ∷ [];
  planes = record { address = 4096; size = 640 } ∷ record { address = 4736; size = 320 } ∷ [];
}

abbrev sink : FileSink
sink = record { mapped = (100, two_spans) ∷ []; written = [] }

mapped_here : map_find 100 sink.mapped ≡ some two_spans
unfolding map_find
mapped_here = refl

write_buffer_run :
    write_buffer api buffer sink
    ≡ some (
        record { fd = 9; address = 4096; length = 600 }
        ∷ record { fd = 9; address = 4736; length = 320 }
        ∷ [])
unfolding write_buffer map_find
write_buffer_run = refl

write_buffer-AllWritten_example :
    (ws : List Write) × (write_buffer api buffer sink ≡ some ws)
    × AllWritten 9 two_spans buffer.metadata.planes 0 ws
    × ((length ws ≡ length buffer.planes) ⊎ IsCut api ws)
unfolding num_planes
write_buffer-AllWritten_example =
    write_buffer-AllWritten api buffer sink two_spans 9 mapped_here (omega arith) (omega arith) refl
