-- ===== src/Lib.antt =====
-- twincam: a camera viewer for early boot on top of libcamera.
--
-- The program finds a camera (CameraSession), chooses a sink for its frames (the screen by DRM/KMS or
-- by SDL, or a file), and lets requests go round: libcamera fills a request's buffers in a thread of
-- its own and reports it, the event loop (EventLoop) processes it, the sink shows or writes it,
-- at once or until a later page flip, and then it is queued again.
--
-- Base: lists, integers, tests, texts and maps that the other modules share. Int has C's `int`.
-- Camera: the data of libcamera that the program reads.
-- EventLoop (src/event_loop.cpp): events and deferred calls. A callback is a parameter type. The two
--   sections under the lock, pushCallList and popCallList, are steps of their own in
--   EventLoop.Deferred, where threads that defer calls and the loop alternate in every order.
-- Drm (src/drm.cpp): Types has the classes, Objects their constructors, Lookup the search for
--   objects and properties, Resources getResources with the functions that it calls, AtomicRequest the
--   atomic requests, FrameBuffer createFrameBuffer and Opening openCard, Device::init and drmEvent. A
--   pointer to an element of one of the device's lists is its position in the list.
-- Image (src/image.cpp): the mapping of a buffer's planes into memory.
-- KmsSink (src/kms_sink.cpp): Setup has the constructor, findRequestedConnector and mapBuffer;
--   Pipeline selectPipeline, configurePipeline and configure; Queue stop, processRequest and
--   requestComplete. Queue.System has the kernel around it, which reports a page flip for each commit
--   that it took. Interface makes the sink a FrameSink.
-- SdlSink (src/sdl_sink.cpp, src/sdl_texture.cpp and those of the three formats): Texture has the
--   textures and the decompression of JPEG, Window configure, start and stop, Render mapBuffer,
--   processRequest and processSDLEvents. The calls of SDL are a log, which Ownership replays.
-- FileSink (src/file_sink.cpp, src/frame_sink.cpp): the sink that writes to a file.
-- CameraSession (src/camera_session.cpp): State has the interface of a sink (src/frame_sink.h) and that
--   of libcamera; Selection init and validateConfig; SinkChoice parse_args; Capture start,
--   startCapture and stop; Frames requestComplete, processRequest and sinkRelease. Frames.Keeper
--   has the session with libcamera, the event loop and a sink around it: Keeper is what a sink has
--   to promise, and KmsSink.Interface, SdlSink.Interface and FileSink.Interface are its instances.
-- CamApp (src/twincam.cpp): CommandLine has processArgs, behind getopt_long; Devices the search of sysfs,
--   /dev and udev; Startup the waits of CamApp::init, with time counted in sleeps of 10 ms, and
--   CamApp::run; Devices.Hosts the waits with the searches in them; Main cameraName, the signal
--   handlers, CamApp::exec and main.
-- Stdio (src/twncm_stdio.h, src/uptime.cpp): STRING_PRINTF and the macros that print. A float is a
--   parameter type.
-- Pid (src/twncm_fnctl.cpp, src/twncm_stdlib.h): the number in the pid file.
-- FirstFrame (src/first_frame.c), a program of its own: Capture has the frames and the streaming, Device
--   the set up and the release of the device, Program the options and main. Protocol is the
--   specification: a device that accepts or refuses the events of a run, in their order. The answers of
--   the kernel are functions of a time, which is counted in its calls.
--
-- State is passed on as records. libcamera, libdrm, libevent and the system calls are
-- parameters: records of the results that their calls give (CameraApi, Libdrm, AtomicApi, PrimeApi,
-- LibEvent, MmapApi, FileApi). Where an operation runs into undefined behaviour or a failed assertion,
-- its result is none, or a case of its own. Unsigned 32-bit and 64-bit numbers wrap around, written out
-- where the code computes with them. Most loops are over a list, or over a count that is known
-- before. Fuel is used in three places: the twenty digits of to_string, enough for 64 bits; the ten digits
-- of a pid, enough for 32; and the loops of FirstFrame that go on while a signal interrupts a call or no
-- frame is there, whose fuel is enough once it is more than the number of calls after which neither
-- happens any more.
--
-- Not modelled: what only prints, the memory that libdrm and libcamera free, the opening and the closing of
-- files that only pass a result on (src/twncm_fnctl.cpp), the registration of the signal handlers, the set
-- up of libjpeg's error manager (src/jpeg_error_manager.cpp; that an error ends the decompression is), and
-- the services and scripts.
pub mod Base
pub mod EventLoop
pub mod Camera
pub mod Drm
pub mod Image
pub mod KmsSink
pub mod SdlSink
pub mod FileSink
pub mod CameraSession
pub mod CamApp
pub mod Stdio
pub mod Pid
pub mod FirstFrame
