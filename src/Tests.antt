-- ===== src/Tests.antt =====
-- Concrete tables and servers, and the theorems at them.
mod Rows
mod Workers
mod Requests
mod Schedulers
mod Safety
mod Lives
mod Once
mod Scripts
mod Seeds
mod Startup
