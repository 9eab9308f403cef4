-- ===== src/SdlSink.antt =====
-- src/sdl_sink.h and src/sdl_sink.cpp with the textures of src/sdl_texture*.cpp: the sink that shows the
-- first stream in a window. SDL and libjpeg are parameters.
pub mod State
pub mod Texture
pub mod Window
pub mod Render
pub mod Ownership
pub mod Lifecycle
pub mod Runs
pub mod Interface
pub mod Scanlines
mod Tests
