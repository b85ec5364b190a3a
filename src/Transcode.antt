-- ===== src/Transcode.antt =====
-- The transcoder service (transcode/): the order by load (`Load`), and the state with its claims (`Claim`)
-- and its event loop (`Events`).
pub mod Load
pub mod Claim
pub mod Events
pub mod Tests
