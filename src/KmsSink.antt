-- ===== src/KmsSink.antt =====
-- src/kms_sink.h and src/kms_sink.cpp: the sink that shows frames through DRM/KMS.
pub mod State
pub mod Setup
pub mod Pipeline
pub mod Queue
pub mod Interface
mod Tests
