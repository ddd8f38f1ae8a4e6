-- ===== src/Ipc.antt =====
-- The protocol between the program and its service: internal/ipc.
pub mod Frames
pub mod RoundTrip
pub mod Connections
mod Tests
