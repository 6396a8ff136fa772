-- ===== src/Worker.antt =====
-- src/notify_queue/worker: claiming, the heartbeat, delivery with its outcomes, and the pool.
pub mod Claim
pub mod Heartbeat
pub mod Outcome
pub mod Delivery
pub mod Process
pub mod Loop
pub mod Pool
