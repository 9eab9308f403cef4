-- ===== src/CameraSession/Frames/Tests.antt =====
-- The printed line of a buffer at a concrete input.
use twincam.Base.{◌≡◌, refl, [], ◌∷◌, map, to_string}
use twincam.CameraSession.Frames.{planes_text}
use twincam.CameraSession.Frames.Text.{joined, planes_text-joined}

planes_text_run : planes_text 0 2 (307200 ∷ 153600 ∷ []) ≡ "307200/153600"
unfolding planes_text to_string
planes_text_run = refl

planes_text-joined_example :
    planes_text 1 3 (307200 ∷ 153600 ∷ []) ≡ joined "/" (map to_string (307200 ∷ 153600 ∷ []))
planes_text-joined_example = planes_text-joined (307200 ∷ 153600 ∷ []) 1
