-- ===== src/Drm.antt =====
-- src/drm.h and src/drm.cpp: the objects of a DRM device and the requests that are made of them.
pub mod Types
pub mod Lookup
pub mod Objects
pub mod Resources
pub mod AtomicRequest
pub mod FrameBuffer
pub mod Opening
pub mod Tests
