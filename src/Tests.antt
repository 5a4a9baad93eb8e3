-- ===== src/Tests.antt =====
-- Runs of the model at concrete inputs, and the theorems at inputs that meet their hypotheses.
mod FrameFlow
mod Rtp
mod Protocol
mod Hid
mod Router
mod H264
mod Device
mod Transport
mod Config
mod Client
mod Video
mod Session
mod Bitmap
mod Http
