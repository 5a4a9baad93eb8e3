-- ===== src/Hid.antt =====
-- The device's input side: src/hid.c and src/hid.h.
pub mod Utf8
pub mod Queue
pub mod Keymap
pub mod Pointer
pub mod Device
pub mod Queues
