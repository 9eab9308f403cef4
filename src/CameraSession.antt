-- ===== src/CameraSession.antt =====
-- src/camera_session.h and src/camera_session.cpp: one camera, one sink, and the requests that go
-- round between them.
pub mod State
pub mod Selection
pub mod SinkChoice
pub mod Capture
pub mod Frames
mod Tests
