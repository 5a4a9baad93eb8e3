-- ===== src/Rtp.antt =====
-- The RTP/H.264 transport: src/rtp_h264.c and the types of src/rtp_h264.h.
pub mod Packetizer
pub mod Reassembler
pub mod Fields
pub mod Receive
pub mod Fragments
pub mod RoundTrip
pub mod Bounds
pub mod Sizes
pub mod Context
pub mod Wire
pub mod Split
