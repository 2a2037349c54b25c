-- ===== src/AttachHub.antt =====
-- internal/harness/attachhub.go: the hub that fans a terminal's output to its attached clients.
pub mod Ring
pub mod Hub
pub mod Recent
pub mod Rounds
pub mod Replay
pub mod Writer
pub mod Streams
pub mod Faithful
