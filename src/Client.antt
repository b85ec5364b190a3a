-- ===== src/Client.antt =====
-- The client of the key-value store that the services share (client/).
pub mod Path
pub mod Watch
pub mod Kv
pub mod Tests
