-- ===== src/Client.antt =====
-- mqtt_client.c: the client's task and its calls, for MQTT 3.1 and 3.1.1.
pub mod State
pub mod Receive
pub mod Deliver
pub mod Write
pub mod Abort
pub mod Send
pub mod Request
pub mod Keepalive
pub mod Resend
pub mod Connect
pub mod Process
pub mod Task
mod Sample
mod Runs
