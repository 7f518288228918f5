-- ===== src/Handlers.antt =====
-- src/handlers.rs and its children: the HTTP handlers, as actions on the world.
pub mod Pages
pub mod Links
pub mod Moves
pub mod Traces
pub mod Overlaps
pub mod Answers
pub mod Journeys
pub mod Bearer
pub mod Confirm
pub mod Unsubscribe
pub mod Webhooks
pub mod Archive
pub mod Send
pub mod Subscribe
