-- ===== src/Tests/Once.antt =====
-- Two deliveries of one job, which both come to its end.
use notify_queue.Base.{◌+◌, ◌≤◌, ◌≡◌, refl, some, [], ◌∷◌, select}
use notify_queue.Schema.Table.{find_job, update_rows}
use notify_queue.Statements.Worker.{mark_sent}
use notify_queue.Effects.Run.{execute, perform}
use notify_queue.Settings.{defaults}
use notify_queue.Redis.Memory.{Entries, Locks, Counters, memory}
use notify_queue.Effects.{Command}
use notify_queue.Worker.Outcome.{handle_success}
use notify_queue.Consistency.{IsConsistent}
use notify_queue.System.{System, Step, Reach, act, here, later}
use notify_queue.System.Once.{sends, replays, count_steps, sent_once}
use notify_queue.Tests.Rows.{moments, claimed, servers}

abbrev twice : System Entries Locks Counters
twice = record {
  world = servers (claimed 1 8 ∷ []) [];
  tasks = λ t. handle_success (claimed 1 8) defaults;
}

twice-IsConsistent : IsConsistent twice.world.database
unfolding find_job
twice-IsConsistent = record {
  unique = (refl, tt);
  shaped = (((refl, refl, refl), refl), tt);
  lettered = (refl, tt);
  keys = tt;
  key_jobs = tt;
  letter_jobs = tt;
}

first_send : (u : System Entries Locks Counters) × Step memory twice u
unfolding handle_success
first_send = (_, act 0 (moments 0) (Command.mark_sent 1 (some 8)) _ refl)

second_send : (u : System Entries Locks Counters) × Step memory first_send.0 u
unfolding handle_success first_send
second_send = (_, act 1 (moments 1) (Command.mark_sent 1 (some 8)) _ refl)

abbrev both : Reach memory twice second_send.0
both = later (later here first_send.1) second_send.1

sent_once_example : count_steps memory sends 1 both ≤ 1 + count_steps memory replays 1 both
sent_once_example = sent_once memory 1 both twice-IsConsistent

-- The second reply has no row.
one_send : count_steps memory sends 1 both ≡ 1
unfolding first_send second_send mark_sent select execute perform update_rows
one_send = refl
