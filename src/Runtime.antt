-- ===== src/Runtime.antt =====
-- runtime/emqtt.c with runtime/include/emqtt.h: the owner's session on top of the client.
pub mod State
pub mod Events
pub mod Session
pub mod Subscriptions
pub mod Bounds
pub mod Changes
pub mod Steps
mod Runs
