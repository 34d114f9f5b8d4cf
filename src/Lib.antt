-- ===== src/Lib.antt =====
-- A model of the MQTT client library in C and of the session runtime on top of it.
--
-- The program. An application talks to the runtime (runtime/emqtt.c). The runtime's owner starts and
-- stops a session, subscribes, publishes and polls for events; the client's worker task calls the
-- runtime back for each thing that happens, and the runtime turns that into notices in a bounded
-- queue and into messages in three slots. Text, topics, return codes and the fragments of messages
-- that come from outside are examined by the contract (runtime/emqtt_contract.c with
-- runtime/emqtt_receive_internal.h). Below stands the client (mqtt_client.c), which builds and reads
-- packets (lib/mqtt_msg.c) and keeps those that wait for an answer in the outbox
-- (lib/mqtt_outbox.c).
--
-- The files.
--   Base      shared names, Boolean tests, lists over native numbers, words of 32 and 64 bits,
--             integers, strings in memory.
--   Contract  runtime/emqtt_contract.c and runtime/emqtt_receive_internal.h: Utf8 is `utf8`, Topic
--             is `emqtt_topic_valid`, Receive is `emqtt_receive_into` and `emqtt_receive`, Suback is
--             `emqtt_suback_valid`. The children of Utf8 and Receive hold the proofs.
--   Msg       lib/mqtt_msg.c with lib/include/mqtt_msg.h: Types has the connection and the header
--             accessors, Build and Connect the packet builders over the shared buffer, Read the
--             readers. Length is about the remaining length, Layout and Publish about what stands
--             in the buffer, ReadBack, RoundTrip and Acks about reading what was built, Ids about
--             the message ids.
--   Outbox    lib/mqtt_outbox.c: the queue as a list, in order. Counting is about the size
--             counter, Search about finding and deleting, Expiry about expired messages and about
--             `mqtt_delete_expired_messages` of mqtt_client.c.
--   Runtime   runtime/emqtt.c: State has the session and its queues, Events the callback
--             `on_event`, Session the owner's calls. Subscriptions, Bounds, Steps and Changes
--             are about the list of subscriptions in every session.
--   Client    mqtt_client.c: State has the client, its transport and its events, Receive is
--             `mqtt_message_receive`, Deliver `deliver_publish` and `deliver_suback`, Write
--             `esp_mqtt_write`, Abort `esp_mqtt_abort_connection`, Connect `esp_mqtt_connect`,
--             Keepalive `process_keepalive`, Resend `mqtt_resend_queued` and
--             `mqtt_resend_pubrel`, Send the calls that publish, Request those that subscribe,
--             unsubscribe, ping and disconnect, Process `mqtt_process_receive`, Task a round of
--             `esp_mqtt_task`. The children hold the proofs, Sample the data for the runs.
--   Utils     lib/mqtt_utils/mqtt_utils.c: percent decoding.
-- A definition has the name of the C function that it models; a helper with another name says which
-- part of a function it is. A module called Runs holds runs on concrete data.
--
-- The conventions. A buffer is the list of its bytes, a pointer into it an offset, NULL is `none`.
-- A string that the code takes by `strlen` is the memory behind its pointer, up to the first NUL in
-- it or the end of the list (Base/Text).
-- Sums of `size_t` are taken modulo 2 ^ 32 where they are compared with a capacity, the outbox's
-- counter modulo 2 ^ 64, message ids modulo 2 ^ 16. A signed value that may be negative is an
-- integer, or its word of 32 bits: the length that `fini_message` encodes is the word of an `int`, and
-- what `esp_mqtt_client_publish` sent of a payload is a wrapped difference of sizes read as an `int`. What the code gets from outside (allocation, random numbers, the clock and, for the
-- runtime, the client's answers) is an argument. The client's transport and clock are scripts in its
-- state, of the answers still to come: a stream of bytes may arrive in pieces of any size, with
-- timeouts and errors in between, and a write may take a part. The events dispatched are collected in
-- the state; their handlers leave the client alone.
--
-- Bounds and fuel. The loops run over a list, or over as many rounds as the code's own bound gives:
-- four bytes of a remaining length (five rounds of reading, since the loop ends with six bytes),
-- a round for each byte of a payload that is still to come or to send, a reading of the clock for
-- each wait for CONNACK, the length of the buffer for the readers that skip it, two rounds of counting
-- for a message id. A run that would write behind the four bytes of
-- `encoded_lens`, or that would not end, is `none`.
--
-- Not modelled: the set-up of the client in mqtt_client.c, its start and stop, calls of the
-- application in the middle of a round of the task, MQTT 5 (mqtt5_client.c, lib/mqtt5_msg.c), the check of a configuration, the diagnostic counters of the runtime and
-- its creation of the client, locks, and the wiping of memory.
pub mod Base
pub mod Outbox
pub mod Contract
pub mod Msg
pub mod Runtime
pub mod Utils
pub mod Client
