-- ===== src/Statements.antt =====
-- The SQL statements of the program, each as a function of the tables. NOW() is an argument; so is
-- what SKIP LOCKED finds locked. An integer column is a number with no upper end.
pub mod Worker
pub mod Scheduler
pub mod Audit
pub mod Api
