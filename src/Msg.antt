-- ===== src/Msg.antt =====
-- lib/mqtt_msg.c with lib/include/mqtt_msg.h: building and reading MQTT 3.1 and 3.1.1 packets.
pub mod Types
pub mod Build
pub mod Connect
pub mod Read
pub mod Length
pub mod Layout
pub mod Ids
pub mod Publish
pub mod ReadBack
pub mod RoundTrip
pub mod Behind
pub mod Acks
mod Runs
