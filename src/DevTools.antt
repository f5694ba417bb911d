-- ===== src/DevTools.antt =====
-- chrome/devtools_client_impl.h and chrome/devtools_client_impl.cc, but for the dialogs.
pub mod Errors
pub mod Messages
pub mod Routing
pub mod Tunnel
pub mod Transparency
pub mod Asks
pub mod Commands
pub mod Pending
pub mod Awaiting
pub mod Answers
pub mod Notify
pub mod Order
