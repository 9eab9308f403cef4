-- ===== src/FirstFrame.antt =====
-- first_frame (src/first_frame.c), a program of its own that grabs frames through V4L2.
pub mod State
pub mod Capture
pub mod Device
pub mod Program
pub mod Ends
pub mod Protocol
