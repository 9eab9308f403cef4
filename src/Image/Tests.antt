-- ===== src/Image/Tests.antt =====
-- The theorems on images at concrete inputs.
use twincam.Base.{◌+◌, ◌<◌, ◌≡◌, refl, ◌⊎◌, some, List, [], ◌∷◌, arith, get_elem?}
use twincam.Camera.{FramePlane}
use twincam.Image.{
  MapMode, MmapApi, Image, Span, plane_end, image, from_frame_buffer, num_planes, plane_data, span,
  out_of_bounds, assertion_failed,
}
use twincam.Image.Bounds.{AllInside, from_frame_buffer-AllInside}
use twincam.Image.Overflow.{wrapped_plane_escapes}
use twincam.Image.Access.{plane_data-cases}

-- A file of 460800 bytes, mapped at 4096.
abbrev api : MmapApi
api = record { lseek_end = λ fd. 460800; mmap = λ fd prot length. some 4096 }

abbrev two_planes : List FramePlane
two_planes =
    record { fd = 5; offset = 0; length = 307200 }
    ∷ record { fd = 5; offset = 307200; length = 153600 }
    ∷ []

abbrev two_spans : Image
two_spans = record {
  maps = record { address = 4096; size = 460800 } ∷ [];
  planes =
      record { address = 4096; size = 307200 } ∷ record { address = 311296; size = 153600 } ∷ [];
}

from_frame_buffer_run : from_frame_buffer api two_planes MapMode.read_only ≡ image two_spans
unfolding from_frame_buffer
from_frame_buffer_run = refl

from_frame_buffer-AllInside_example : AllInside api two_spans.maps two_planes two_spans.planes
from_frame_buffer-AllInside_example =
    from_frame_buffer-AllInside api two_planes MapMode.read_only two_spans
      (omega arith, (omega arith, tt)) from_frame_buffer_run

abbrev wrapping : FramePlane
wrapping = record { fd = 5; offset = 4096; length = 4294967295 }

wrapped_plane_escapes_example :
    (from_frame_buffer api (wrapping ∷ []) MapMode.read_only
      ≡ image (record {
        maps = record { address = 4096; size = plane_end wrapping } ∷ [];
        planes = record { address = 4096 + wrapping.offset; size = wrapping.length } ∷ [];
      }))
    × (plane_end wrapping < wrapping.offset + wrapping.length)
wrapped_plane_escapes_example =
    wrapped_plane_escapes api wrapping MapMode.read_only 4096 (omega arith) (omega arith)
      (omega arith) (omega arith) (omega arith) refl

plane_data-cases_example :
    ((2 < num_planes two_spans)
      × ((s : Span) × (get_elem? two_spans.planes 2 ≡ some s) × (plane_data two_spans 2 ≡ span s)))
    ⊎ ((2 ≡ num_planes two_spans) × (plane_data two_spans 2 ≡ out_of_bounds))
    ⊎ ((num_planes two_spans < 2) × (plane_data two_spans 2 ≡ assertion_failed))
plane_data-cases_example = plane_data-cases two_spans 2
