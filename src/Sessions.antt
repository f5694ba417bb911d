-- ===== src/Sessions.antt =====
-- session.h and session.cc, and the commands of session_commands.cc that change a session.
pub mod Channels
pub mod Delivery
pub mod Frames
pub mod Trip
pub mod Suffixes
