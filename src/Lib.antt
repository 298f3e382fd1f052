-- ===== src/Lib.antt =====
-- A verification library for the firmware of the Mi remote USB bridge: the wire protocol, its payload
-- encoding, the product server, the fault log, the voice engine of the remote and the client's decoder.
--
-- The bridge receives key and voice data of a Bluetooth remote and reports them to a host over a USB
-- serial link. The host and the product server (firmware/product/rbp_server.c) exchange frames; a
-- frame's payload is a list of tagged values. An adapter per remote model feeds the server; its voice
-- engine turns control and audio notifications into calls of a sink.
--
-- Base holds what the parts share: Boolean tests on native numbers (Base/Tests), lists as byte
-- sequences and C arrays (Base/Lists), and laws of the native bit operations (Base/Bits).
--
-- Wire is protocol/src/rbp_frame.c with protocol/include/rbp/frame.h and defs.h.
--   Wire/Cobs      rbp_cobs_encode and rbp_cobs_decode, the latter once into another buffer and, in
--                  Wire/Cobs/InPlace, with source and destination in one buffer, as the receiver
--                  calls it. The encoder keeps its back-patched code bytes.
--   Wire/Crc       the table and rbp_crc32c. Wire/Crc/Serial has the bit-serial definition.
--   Wire/Header    rbp_header_t, rbp_header_pack, rbp_header_parse.
--   Wire/Frame     encode_payload, rbp_frame_encode, and the frame builder rbp_txframe_*. A payload
--                  pointer is an option, none for a null pointer.
--   Wire/Receiver  rbp_rxparser_feed with the cursor on which it resumes, and rbp_rx_drain. The
--                  callback is the list of events that a run reports.
--
-- Tlv is protocol/src/rbp_tlv.c with protocol/include/rbp/tlv.h.
--   Tlv/Writer     rbp_tlv_writer_init and rbp_tlv_put_*.
--   Tlv/Reader     rbp_tlv_reader_init, rbp_tlv_next and the scan; Tlv/Reader/Seen is the bitset of
--                  tags, Tlv/Reader/Items an item in a message, Tlv/Reader/Scan the scan.
--   Tlv/Utf8       utf8_valid. Tlv/Getters has rbp_tlv_get_*.
--   Tlv/RoundTrip  what a writer was given, found by a scan; Tlv/Values the same for typed values.
--
-- Faults is firmware/product/faults.c: a ring of four records, and in Faults/Log the log it stands
-- for.
--
-- Atvv is firmware/adapters/rc003/rc003_atvv.c. Atvv/Events has the sink: which callbacks are null
-- and what those with a result answer are parameters of an operation, and the calls made are a list of
-- events. Atvv/Capabilities has atvv_parse_caps, Atvv/Control rc003_atvv_on_control, Atvv/Audio
-- rc003_atvv_on_audio, Atvv the requests and rc003_atvv_tick, Atvv/Phases the flags that may
-- hold together, and Atvv/Begin what capabilities are accepted. A call of the sink may ask for a stop before it
-- returns, as the server does: which calls do is a parameter too. Such a stop is modelled inside the
-- operation where the engine goes on after the call, and as an operation of its own, right after, where
-- the call is the last step. Of rc003_adapter.c, Atvv has rc003_adapter_mic_start, which sets the
-- engine's flags itself, and Atvv/Phases/Reach the fields that the adapter sets besides.
--
-- Server is firmware/product/rbp_server.c with rbp_server.h beside it.
--   Server/State   struct rbp_server in the groups of its comments, and the callbacks of
--                  rbp_server_cfg_t as a record of functions, Env: code of each platform, which is a
--                  parameter. A backend call may report back before it returns, so that it is a
--                  function on the state. Server/Codes has the constants of defs.h, Server/Init the
--                  initial state.
--   Server/Ring    ring_write and audio_read; Server/Ring/Contents has what a ring holds, as a list.
--   Server/Output  the sessions, out_try_frame and out_drain. What the sink has accepted is kept in
--                  the state beside its fields, as wire. Server/Output/Delivery follows frames from
--                  there to the receiver of the other side.
--   Server/Put     the writer's puts in sequence. Server/Control has the control queue,
--                  Server/KeyQueue the key queue, Server/Events the device description and the
--                  results of operations, Server/Slots the arrays that are used as rings.
--   Server/Media   the media queue and its pool. Server/Flush is rbp_server_flush_output,
--                  Server/Voice the delivery of a stream, and Server/Voice/Events the voice events.
--   Server/Radio   the reports of the radio, with pairing in Server/Radio/Pairing.
--   Server/Tick    rbp_server_tick, one function for each timer, and the introspection.
--   Server/Requests the requests by their groups; Server/Dispatch is dispatch_request, and
--                  Server/Frames the greeting, process_frame and rbp_server_on_usb_rx.
--
-- The sizes of the server's buffers and queues are the defaults of rbp_server.c: 2048 bytes for the
-- output ring and for the pool, 6 slots and 3072 bytes for the control queue, 16 media markers. The board
-- is built with smaller ones (firmware/Makefile sets 768, 960, 6 and 1536, 8, and a pool of 448 in a
-- debug build), so that the theorems are about a build with the defaults.
--
-- Client is the decoder of the C client, which turns the units that the server has sent as audio
-- frames into samples, by the format that came with them. Client/Ima is client/c/ima_decoder.c, with a
-- sample held as its distance from the smallest one, and Client/Decoder is client/c/rbp_decoder.c as it
-- is built without RBP_WITH_ICO. Client/Decoder/Units is a stream of units, Client/Decoder/Whole what a
-- failure leaves.
--
-- Numbers are natural numbers; a value of w bits wraps by a remainder where the source wraps. Loops
-- over bytes recur on the bytes. Decoding, a scan and the UTF-8 test have as many rounds as bytes, and
-- every round reads at least one; draining has one round more than it has bytes, since every round
-- reads one. The pump of the output ring has one round more than the ring has bytes, the scheduler one
-- more than the three queues have entries, and the loops over codecs as many as bytes.
--
-- Not modelled are the rest of the RC003 adapter, the report map, the tables of the device model, and
-- the USB and radio code, which call these parts; the vendor library, the trace output with the code
-- under RBP_DEBUG, the key reducer of the C client, and the clients and the demo in other languages.
pub mod Base
pub mod Wire
pub mod Tlv
pub mod Faults
pub mod Atvv
pub mod Server
pub mod Client
