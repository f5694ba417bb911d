-- ===== src/Examples.antt =====
-- Tests, and the theorems at concrete inputs.
mod Json
mod PromptBehaviors
mod Statuses
mod Navigation
mod Http
mod Bidi
mod Frames
mod Dialogs
mod Waits
mod Fed
mod Keys
mod Tools
mod Pages
mod Limits
mod Channels
mod Windows
mod Dispatching
mod Matching
mod Switching
mod Parameters
mod Routing
