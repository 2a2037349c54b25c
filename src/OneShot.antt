-- ===== src/OneShot.antt =====
-- internal/oneshotrouting/router.go: which model and instance a one-shot call goes to.
pub mod Route
pub mod Run
pub mod Walk
pub mod Calls
pub mod Named
