-- ===== src/HttpHandler.antt =====
-- server/http_handler.h and server/http_handler.cc.
pub mod Text
pub mod Response
pub mod AlertText
pub mod ErrorCodes
pub mod Routing
pub mod Paths
pub mod Routes
pub mod Connections
pub mod Buckets
pub mod Bindings
pub mod Steps
pub mod Closes
pub mod Messages
pub mod Replies
