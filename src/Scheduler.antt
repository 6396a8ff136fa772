-- ===== src/Scheduler.antt =====
-- src/notify_queue/scheduler: the three sweeps of scheduler.py and the loop of __main__.py. A score
-- is the source's float, in units of 2 ^ -52 with the float 0 at `score_zero`.
pub mod Enqueue
pub mod Sweeps
pub mod Recover
pub mod Survives
pub mod Promote
use notify_queue.Base.{
  ℕ, zero, suc, ◌+◌, ◌-◌, ◌*◌, ◌^◌, Option, List, [], ◌∷◌, map, if◌then◌else◌, leb,
}
use notify_queue.Base.Float.{unit, float_of, float_add}
use notify_queue.Schema.{Job, Priority, microseconds}
use notify_queue.Settings.{Settings}
use notify_queue.Effects.{Command, Program, pure, ◌>>=◌, ◌>>◌, catch, await}
use notify_queue.Statements.Scheduler.{worker_died}
use notify_queue.Dlq.{dead_letter}

abbrev pub priority_weight : Priority → ℕ
priority_weight Priority.high = 0
priority_weight Priority.medium = 10_000_000_000 * unit
priority_weight Priority.low = 20_000_000_000 * unit

-- 1970, in the microseconds from the year 1 that count instants.
abbrev epoch : ℕ
epoch = microseconds 62_135_596_800

-- As much as a score can lie below 0 in a row of the table, and more.
abbrev score_zero : ℕ
score_zero = 2 ^ 90

unfoldable pub priority_score : Priority → ℕ → ℕ
unfolding float_of float_add
priority_score p send_at =
    let weight = priority_weight p in
    let before = float_of (epoch - send_at) (microseconds 1) in
    if leb epoch send_at
    then score_zero + float_add weight (float_of (send_at - epoch) (microseconds 1))
    else if leb before weight
    then score_zero + float_of (weight - before) unit
    else score_zero - float_of (before - weight) unit

abbrev pub queue_entry : Job → Priority × ℕ × ℕ
queue_entry row = (row.priority, row.id, priority_score row.priority row.send_at)

unfoldable pub enqueue : List Job → Program Unit
enqueue rows = await (Command.zadd_all (map queue_entry rows))

abbrev pub ids : List Job → List ℕ
ids = map (λ row. row.id)

-- `if rows: await _enqueue(…)`, and the ids.
unfoldable pub enqueue_found : List Job → Program (List ℕ)
unfolding enqueue
enqueue_found [] = pure []
enqueue_found (row ∷ rows) = enqueue (row ∷ rows) >> pure (ids (row ∷ rows))

unfoldable pub promote_due_jobs : Settings → Program (List ℕ)
unfolding enqueue_found
promote_due_jobs settings =
    await (Command.promote_due settings.scheduler_lookahead settings.scheduler_batch_size)
    >>= enqueue_found

-- `job["error_message"]` is what RECOVER_STALE_CLAIMED has just written.
unfoldable pub recover_rows : Settings → List Job → Program Unit
recover_rows settings [] = pure tt
recover_rows settings (job ∷ rows) =
    let rest = recover_rows settings rows in
    await (Command.delete_lock job.id)
    >> (if leb job.max_attempts job.attempt_count
        then dead_letter job worker_died job.attempt_count settings Option.none >> rest
        else rest)

unfoldable pub recover_stale_claimed_jobs : Settings → Program (List ℕ)
unfolding recover_rows
recover_stale_claimed_jobs settings = do
  rows ← await (Command.recover_stale_claimed settings.heartbeat_timeout)
  recover_rows settings rows >> pure (ids rows)

unfoldable pub requeue_stale_queued_jobs : Settings → Program (List ℕ)
unfolding enqueue_found
requeue_stale_queued_jobs settings =
    await (Command.requeue_stale_queued settings.queued_requeue settings.scheduler_batch_size)
    >>= enqueue_found

-- The three sweeps of one round; `main` only logs the ids that they return.
unfoldable pub sweeps : Settings → Program Unit
unfolding promote_due_jobs recover_stale_claimed_jobs requeue_stale_queued_jobs
sweeps settings =
    promote_due_jobs settings
    >> (recover_stale_claimed_jobs settings >> (requeue_stale_queued_jobs settings >> pure tt))

-- One round of `main`: a failed tick is logged, and the loop goes on.
unfoldable pub tick : Settings → Program Unit
unfolding sweeps
tick settings = catch (sweeps settings) (λ _. pure tt)

-- `rounds` is how often the loop finds `stop` not set.
unfoldable pub scheduler_loop : ℕ → Settings → Program Unit
unfolding tick
scheduler_loop zero settings = pure tt
scheduler_loop (suc rounds) settings =
    tick settings
    >> (await (Command.sleep settings.scheduler_poll_interval) >> scheduler_loop rounds settings)
