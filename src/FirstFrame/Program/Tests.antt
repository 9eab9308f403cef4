-- ===== src/FirstFrame/Program/Tests.antt =====
-- Runs of first_frame (src/first_frame.c) on a kernel at hand.
use twincam.Base.{
  ◌+◌, ◌≡◌, ◌≢◌, refl, true, none, some, List, [], ◌∷◌, pos, arith, leb, if◌then◌else◌,
}
use twincam.CamApp.Startup.{poll}
use twincam.FirstFrame.State.{
  io_method_mmap, io_method_userptr, queued_pointer, read_into, opened, closed, requested, mapped,
  unmapped, allocated, freed, queued, dequeued, stream_on, stream_off, written, shown, World, dqbuf,
  PixFormat, ready, failed, Kernel, ok, looping,
}
use twincam.FirstFrame.Capture.{
  find_buffer, read_by_read, take_userptr, queue_userptr, process_image, xioctl, must, take_mmap,
  dequeue_and, read_frame, grab, grab_frames, mainloop, queue_mmap, start_stream, start_capturing,
  stop_stream, stop_capturing,
}
use twincam.FirstFrame.Capture.Retry.{xioctl_lem}
use twincam.FirstFrame.Device.{
  alloc_buffers, free_buffers, init_read, init_userp, at_least_bytes, supports, unmap_buffers,
  release_buffers, uninit_device, close_device, open_device, map_buffers, request_buffers,
  init_mmap, reset_crop, init_buffers, set_format, init_device,
}
use twincam.FirstFrame.Ends.{IsSettled}
use twincam.FirstFrame.Program.{
  Opt, to_u32, handle, parse_options, wait_for, grab_all, grab_with, main,
}
use twincam.FirstFrame.Program.Conformance.{main-RunsWell, RunsWell, method, wanted}
use twincam.FirstFrame.Program.Progress.{main-ne-looping}
use twincam.FirstFrame.Protocol.{Ensures}

-- Everything succeeds: two buffers are granted, and the driver always gives back the first.
abbrev working : Kernel
working = record {
  sysfs_exists = λ t. true;
  video_exists = λ t. true;
  media_exists = λ t. true;
  stat = λ t. some true;
  open_file = λ t. some 3;
  close = λ t. true;
  ioctl = λ t r. none;
  capabilities = λ t. record { video_capture = true; readwrite = true; streaming = true };
  format = λ t. record { width = 640; height = 480; bytesperline = 0; sizeimage = 0 };
  granted = λ t. 2;
  query_length = λ t. 614400;
  dequeue = λ t. record { index = 0; userptr = 0; length = 614400; bytesused = 614400 };
  mmap = λ t. some (4096 + t);
  munmap = λ t. true;
  malloc = λ t. some (8192 + t);
  calloc = λ t. some 1024;
  read = λ t. none;
  select = λ t. ready;
}

-- A signal interrupts the calls up to the second, and the third call of `select` too.
abbrev interrupted : Kernel
interrupted = record working {
  ioctl = λ t r. if leb t 1 then some 4 else none;
  select = λ t. if leb t 2 then failed 4 else ready;
}

abbrev at_start : World
at_start = record { now = 0; events = [] }

abbrev asked : List Opt
asked = Opt.output ∷ Opt.count (some (pos 1)) ∷ []

main_run :
    main working 3 asked at_start
    ≡ ok (
      pos 0,
      record {
        now = 22;
        events =
            closed
            ∷ freed 1024
            ∷ unmapped 4107
            ∷ unmapped 4105
            ∷ stream_off
            ∷ queued 0
            ∷ shown 4105
            ∷ written 4105 614400
            ∷ dequeued 0
            ∷ stream_on
            ∷ queued 1
            ∷ queued 0
            ∷ mapped 4107
            ∷ mapped 4105
            ∷ allocated 1024
            ∷ requested io_method_mmap 2
            ∷ opened
            ∷ [];
      },
    )
unfolding main wait_for poll grab_with parse_options handle to_u32 grab_all open_device init_device
    set_format reset_crop init_buffers init_mmap request_buffers map_buffers at_least_bytes supports
    must xioctl start_capturing queue_mmap start_stream mainloop grab_frames grab read_frame
    dequeue_and take_mmap process_image stop_capturing stop_stream uninit_device release_buffers
    unmap_buffers close_device
main_run = refl

main-RunsWell_example : Ensures (RunsWell (wanted asked 1)) (main working 3 asked at_start)
unfolding method
main-RunsWell_example = main-RunsWell working 3 asked tt tt 0

interrupted-IsSettled : IsSettled interrupted 3
interrupted-IsSettled = record {
  no_signal = λ t r late. ground (arith, late);
  frame = λ t late. ground (arith, late);
  select = λ t late. ground (arith, late);
  read = λ t late. cc;
}

main-ne-looping_example : main interrupted 4 asked at_start ≢ looping
main-ne-looping_example =
    main-ne-looping interrupted 3 interrupted-IsSettled 4 (omega arith) asked at_start

xioctl_lem_example :
    xioctl interrupted 3 dqbuf at_start ≡ ok (none, record { now = 3; events = [] })
xioctl_lem_example =
    xioctl_lem interrupted 3 2 dqbuf at_start (omega arith) (omega arith)
      (λ t late early. ground (arith, early)) (ground arith)

abbrev vga : PixFormat
vga = record { width = 640; height = 480; bytesperline = 640; sizeimage = 1000000 }

vga_bytes : at_least_bytes vga ≡ record vga { bytesperline = 1280 }
unfolding at_least_bytes
vga_bytes = refl

-- The driver gives back the third of four user pointers.
abbrev pointers : Kernel
pointers = record working {
  granted = λ t. 4;
  dequeue = λ t. record { index = 2; userptr = 8202; length = 614400; bytesused = 614400 };
}

userptr_run :
    main pointers 3 (Opt.userp ∷ []) at_start
    ≡ ok (
      pos 0,
      record {
        now = 22;
        events =
            closed
            ∷ freed 1024
            ∷ freed 8203
            ∷ freed 8202
            ∷ freed 8201
            ∷ freed 8200
            ∷ stream_off
            ∷ queued_pointer 2 8202
            ∷ shown 8202
            ∷ dequeued 2
            ∷ stream_on
            ∷ queued_pointer 3 8203
            ∷ queued_pointer 2 8202
            ∷ queued_pointer 1 8201
            ∷ queued_pointer 0 8200
            ∷ allocated 8203
            ∷ allocated 8202
            ∷ allocated 8201
            ∷ allocated 8200
            ∷ allocated 1024
            ∷ requested io_method_userptr 4
            ∷ opened
            ∷ [];
      },
    )
unfolding main wait_for poll grab_with parse_options handle grab_all open_device init_device
    set_format reset_crop init_buffers init_userp alloc_buffers request_buffers at_least_bytes
    supports must xioctl start_capturing queue_userptr start_stream mainloop grab_frames grab
    read_frame dequeue_and take_userptr find_buffer process_image stop_capturing stop_stream
    uninit_device release_buffers free_buffers close_device
userptr_run = refl

read_run :
    main working 3 (Opt.read ∷ Opt.count (some (pos 2)) ∷ []) at_start
    ≡ ok (
      pos 0,
      record {
        now = 13;
        events =
            closed
            ∷ freed 1024
            ∷ freed 8199
            ∷ shown 8199
            ∷ read_into 8199
            ∷ shown 8199
            ∷ read_into 8199
            ∷ allocated 8199
            ∷ allocated 1024
            ∷ opened
            ∷ [];
      },
    )
unfolding main wait_for poll grab_with parse_options handle to_u32 grab_all open_device init_device
    set_format reset_crop init_buffers init_read at_least_bytes supports must xioctl start_capturing
    mainloop grab_frames grab read_frame read_by_read process_image stop_capturing uninit_device
    release_buffers free_buffers close_device
read_run = refl
