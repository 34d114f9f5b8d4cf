-- ===== src/Utils.antt =====
-- lib/mqtt_utils/mqtt_utils.c: percent decoding of URIs.
pub mod Percent
mod Runs
