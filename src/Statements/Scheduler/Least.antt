-- ===== src/Statements/Scheduler/Least.antt =====
-- Which due jobs PROMOTE_DUE_JOBS of src/notify_queue/scheduler/scheduler.py takes.
