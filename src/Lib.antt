-- ===== src/Lib.antt =====
-- nanokvm-rdp is a remote-desktop gateway for one NanoKVM device: an agent on the device packs
-- the captured H.264 stream into RTP packets and turns control messages into USB HID reports,
-- and a gateway on another host reassembles the stream and serves it to one RDP client.
--
-- This library models the parts of the program that decide what is sent and when:
--
-- - Bytes.antt, big-endian numbers of src/protocol.c, which src/rtp_h264.c repeats.
-- - Protocol.antt, src/protocol.c, the frames of the control channel. `protocol_send` and
--   `protocol_receive_available` are functions of what the system calls answer, a list of
--   events. Protocol/Framing and Protocol/Sending hold the proofs.
-- - Rtp.antt, src/rtp_h264.c. Rtp/Packetizer is the sending half and Rtp/Reassembler the
--   receiving half, with the callbacks as functions on the state of their context. Rtp/Fields,
--   Rtp/Receive, Rtp/Fragments and Rtp/RoundTrip join the two; Rtp/Bounds and Rtp/Sizes are
--   about memory and packet sizes, Rtp/Context about what the callbacks keep, Rtp/Wire about
--   the packets that a callback takes, and Rtp/Split about the units of an access unit.
-- - Client.antt, src/rtp_client.c, the gateway's reader of the stream, as functions of what
--   `recv` answers. Client/Assembled and Client/Bounds are about its memory; Client/Delivery,
--   Client/Reading, Client/Carried, Client/Units and Client/AccessUnit follow an access unit
--   from the packetizer to the reader.
-- - Video.antt, src/video_source.c, over an interface for the stream and the request of an IDR;
--   Video/Production is that interface on the RTP client. Video/History says what a decoder can
--   use, and Video/Gate and Video/Reading hold the proofs.
-- - Bitmap.antt, src/bitmap_diff.h and the classic bitmap path of src/rdp_bitmap.c;
--   Bitmap/Tiles, Bitmap/Tile and Bitmap/Rows are about the pixels, a tile and the loops, and
--   Bitmap/Frame about a call.
-- - Http.antt, the JSON bodies of src/http_api.c, with `strtol` as an argument, and Http/Input,
--   its key, wheel and release requests; Http/Strings holds the proof.
-- - Session.antt, src/device_session.c, the lease of the device over the video source, with
--   Session/Lease for the proofs.
-- - FrameFlow.antt, src/frame_flow.h, the pacing and the flow control of the graphics pipeline
--   towards the client. FrameFlow/Invariant, FrameFlow/Window and FrameFlow/Admission hold the
--   proofs.
-- - Hid.antt, src/hid.c. Hid/Queue is the two queues of USB reports with `queue_report` and
--   `flush_reports`: what the clock, `poll` and the writes answer is an argument, and what was
--   written is the output. Hid/Utf8 is the codec of the text input, Hid/Keymap the two
--   scan-code functions, Hid/Pointer the scaling and the buttons. The children hold the proofs.
-- - Hid/Device.antt, the HID state of src/hid.c without its queues, and send_keyboard and
--   hid_scancode. An operation works on an outlet, a record of what it uses of the queues and
--   the endpoints. Device/Layout is the keyboard layout of the text input, Device/Typing and
--   Device/Input the text input, Device/Pointing the pointer, the keep-alive, hid_synchronize
--   and hid_release_all. Hid/Queues is the outlet that the two queues make, with hid_init,
--   hid_flush and hid_poll_timeout. Device/Release, Device/Motion, Device/Settled,
--   Device/Preserves, Queues/Rings and Queues/Waiting hold the proofs.
-- - Router.antt, src/input_router.c, a function for each of the router's. Router/Delivery and
--   Router/Text follow its messages to the agent.
-- - Agent.antt, the switch of `handle_control` in src/agent.c, from a message to the call that
--   it makes. Agent/Control makes the call on the HID state and the agent's flags, and
--   Agent/Loop is the start of `main` and the flush, the keep-alive and the messages of its
--   loop, over any outlet and over the queues. Agent/Invariant and Agent/Release hold the
--   proofs.
-- - Transport.antt, src/agent_transport.c, the gateway's end of the control channel: one
--   function for each critical section. Transport/World is the threads that run them, as a step
--   relation on the transport and the table of descriptors. Transport/Phases, Transport/Hold,
--   Transport/Owned, Transport/Published, Transport/Silence and Transport/KeyAck hold the
--   proofs, the last one together with the agent.
-- - Config.antt, src/gateway_config.c, the parser of the gateway's arguments, with
--   Config/Decimal, Config/Valid and Config/Listen for the proofs.
-- - H264.antt, src/h264.c, the start codes and the parameter sets in front of an IDR. `realloc`
--   is an argument. H264/Nal is the search for a unit, H264/Cache the cache and the mask of the
--   types; H264/Prepare and H264/Update hold the other proofs.
-- - Prelude.antt, Boolean tests, lists over native numbers, machine words, signed integers,
--   laws of the bit operations.
-- - Tests.antt, runs at concrete inputs, and each theorem at an input that meets its
--   hypotheses.
--
-- A function keeps its name, less the prefix of its file. A function that updates `*state`
-- returns the new state; a word wraps at its width; bytes are numbers below 256, and where a
-- proof needs that it is a hypothesis.
--
-- Fuel: the fragment loop of `packetize_marker` has as many rounds as the NAL unit has bytes,
-- the loop over a STAP-A payload as many as the payload has bytes, and the doubling of the
-- reassembler's buffer has 64; each round uses up at least one byte or doubles the capacity,
-- and the theorems on termination show that the fuel does not run out. The loop over an access
-- unit has one round more than the data has bytes. The two loops that size the access unit of
-- the RTP client have 64 rounds, which double the capacity up to its limit. The loops over the
-- tiles have a round more than the screen has columns or rows of pixels. A read of the video
-- source has one round more than the stream has left to read. `flush` has a round for each
-- report in the queue, as each round takes one out or is the last; the searches for a unit have
-- one for each offset that is left. The loop of `hid_relative` has 259 rounds, as a round takes
-- 127 of at most 32768; the one of `hid_type_utf8` has a round for each byte of the text, as a
-- code point that is read uses up at least one.
--
-- Parameters: the answers of the clock, `poll`, `write` and `recv`, the success of `realloc` at
-- each size, and the callbacks.
--
-- Not modelled: sockets, the start and the end of threads, FreeRDP, FFmpeg and the device
-- files, which the sources only call; null pointers, except for callbacks; of src/hid.c,
-- opening and polling the device files and the keyboard's LED feedback; of src/agent.c, the
-- connection, the heartbeat and the capture thread; destroying the agent transport and its
-- system calls; and the gateway's server, the HTTP API but for its JSON bodies and some of its
-- input requests, and the RDP peer but for its classic bitmap path.
pub mod Prelude
pub mod Bytes
pub mod FrameFlow
pub mod Rtp
pub mod Protocol
pub mod Hid
pub mod Router
pub mod Agent
pub mod H264
pub mod Client
pub mod Video
pub mod Session
pub mod Bitmap
pub mod Http
mod Tests
pub mod Transport
pub mod Config
