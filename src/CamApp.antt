-- ===== src/CamApp.antt =====
-- src/twincam.cpp and src/twincam.h: the command line and the start of the program.
pub mod CommandLine
pub mod Startup
pub mod Devices
pub mod Main
mod Tests
