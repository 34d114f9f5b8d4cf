-- ===== src/Contract.antt =====
-- runtime/emqtt_contract.c with runtime/include/emqtt_contract.h and
-- runtime/emqtt_receive_internal.h: what the runtime accepts from its user and from the network.
pub mod Utf8
pub mod Topic
pub mod Receive
pub mod Suback
mod Runs
