-- ===== src/CameraSession/Tests.antt =====
-- The theorems on the choice of the camera and of the sink at concrete inputs.
use twincam.Base.{
  ◌≡◌, refl, ◌⊎◌, true, false, none, some, List, [], ◌∷◌, pos, negsuc, arith, if◌then◌else◌, ◌==◌,
}
use twincam.Camera.{PixelFormat, StreamConfiguration}
use twincam.CameraSession.State.{Options, Build, ConfigStatus, CameraApi}
use twincam.CameraSession.Selection.{init, try_camera, new_session, destroy}
use twincam.CameraSession.Selection.Ownership.{
  Tried, init-Tried, destroy-init, failed_acquire_released,
}
use twincam.CameraSession.SinkChoice.{SinkKind, choose_sink, Has, IsFirst, Asks, choose_sink_lem}

abbrev opts : Options
opts = record {
  camera = negsuc 0;
  drm = false;
  sdl = true;
  pf = PixelFormat.nv12;
  filename = "frame.raw";
}

abbrev one_stream : List StreamConfiguration
one_stream =
    record {
      pixel_format = PixelFormat.yuyv;
      size = record { width = 640; height = 480 };
      stride = 1280;
      stream = 1;
    }
    ∷ []

-- Camera 0 is taken, camera 1 is free.
abbrev pub api : CameraApi
api = record {
  acquire = λ c. if c == 0 then negsuc 15 else pos 0;
  generate_configuration = λ c. some one_stream;
  validate = λ cfg. (ConfigStatus.adjusted, cfg);
  configure = λ cfg. pos 0;
  allocate = λ stream. pos 2;
  buffers = λ stream. [];
  create_request = λ i. true;
  add_buffer = λ i stream buffer. pos 0;
  start = pos 0;
  queue_request = λ i. pos 0;
}

init-Tried_example : Tried (init api opts 2 new_session)
init-Tried_example = init-Tried api opts 2

init_run : (init api opts 2 new_session).0 ≡ pos 0
unfolding init try_camera
init_run = refl

destroy-init_example :
    let s = destroy (init api opts 2 new_session).1 in (s.held ≡ none) × (s.stray ≡ [])
destroy-init_example = destroy-init api opts 2 init_run

abbrev first_camera : Options
first_camera = record opts { camera = pos 0 }

failed_acquire_released_example :
    let out = init api first_camera 2 new_session in
    (out.0 ≡ pos 1) × (out.1.held ≡ none) × ((destroy out.1).stray ≡ 0 ∷ [])
failed_acquire_released_example =
    failed_acquire_released api first_camera 2 0 refl (omega arith) refl

abbrev build : Build
build = record { have_sdl = false; have_drm = true }

choose_sink_lem_example :
    IsFirst (Asks build opts) (choose_sink build opts)
    ⊎ (((k : SinkKind) → ¬ Asks build opts k) × IsFirst (Has build) (choose_sink build opts))
choose_sink_lem_example = choose_sink_lem build opts
