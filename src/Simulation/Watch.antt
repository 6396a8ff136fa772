-- ===== src/Simulation/Watch.antt =====
-- `watch_until_drained` and `run` of scripts/simulate.py. The count of rounds bounds the `while`; the
-- logged lines are left out.
pub mod Ends
pub mod Books
pub mod Balanced
use notify_queue.Base.{
  false, ℕ, zero, suc, ◌+◌, Bool, true, List, [], ◌∷◌, if◌then◌else◌, ltb, leb, ◌==◌,
}
use notify_queue.Schema.{JobStatus, status_eq}
use notify_queue.Settings.{Settings}
use notify_queue.Effects.{catch, type_error, Command, Program, pure, raise, ◌>>=◌, ◌>>◌, await}
use notify_queue.Api.{metrics}
use notify_queue.Simulation.{
  Args, simulation, Simulation, total, submit_delivery_jobs, submit_duplicate_pair,
  submit_rate_limit_burst, split_pending,
}

abbrev pub Counts : Type 0
Counts = List (JobStatus × ℕ)

-- `metrics[status]`; a missing key is an error.
unfoldable pub count_of : JobStatus → Counts → Program ℕ
count_of status [] = raise type_error
count_of status ((s, n) ∷ counts) =
    let rest = count_of status counts in if status_eq s status then pure n else rest

-- `drained`, `sys.exit(1)` at the deadline, or out of rounds.
pub data Watched : Type 0 where
  drained : Counts → ℕ → Watched
  timed_out unfinished : Watched

-- The jobs queued, claimed or pending and in flight.
unfoldable pub active_jobs : Counts → ℕ → Program ℕ
unfolding count_of
active_jobs counts pending_active = do
  queued ← count_of JobStatus.queued counts
  claimed ← count_of JobStatus.claimed counts
  pure (queued + claimed + pending_active)

-- The end of a round, and the rounds that follow it.
unfoldable pub rest_of_round : ℕ → ℕ → Program Watched → Program Watched
rest_of_round deadline poll again = do
  now ← await Command.read_clock
  if leb deadline now then pure timed_out else (await (Command.sleep poll) >> again)

-- What a round makes of the metrics, the pending jobs in flight and those deferred.
unfoldable pub judge : ℕ → ℕ → Program Watched → Counts → ℕ → ℕ → Program Watched
unfolding active_jobs rest_of_round
judge deadline poll again counts pending_active deferred =
    active_jobs counts pending_active >>= λ active.
    if active == 0 then pure (drained counts deferred) else rest_of_round deadline poll again

unfoldable pub watch_round : ℕ → ℕ → Program Watched → Program Watched
unfolding judge split_pending
watch_round deadline poll again = metrics >>= λ counts.
    split_pending >>= λ pending. judge deadline poll again counts pending.0 pending.1

unfoldable pub watch : ℕ → ℕ → ℕ → Program Watched
unfolding watch_round
watch zero deadline poll = pure unfinished
watch (suc rounds) deadline poll =
    let again = watch rounds deadline poll in watch_round deadline poll again

unfoldable pub watch_until_drained : ℕ → Simulation → Program Watched
unfolding watch
watch_until_drained rounds sim = do
  now ← await Command.read_clock
  watch rounds (now + sim.timeout) sim.poll

-- Whether the simulation ends well; `overrun` is out of rounds.
pub data Verdict : Type 0 where
  balanced nothing_to_watch failed overrun : Verdict

-- `sent + dead + deferred < self.total`, with the counts of the baseline moved to the right.
unfoldable pub verify : Simulation → Counts → Watched → Program Verdict
unfolding count_of
verify sim baseline (drained counts deferred) = do
  sent ← count_of JobStatus.sent counts
  sent_before ← count_of JobStatus.sent baseline
  dead ← count_of JobStatus.dead_lettered counts
  dead_before ← count_of JobStatus.dead_lettered baseline
  pure (
      if ltb (sent + dead + deferred) (total sim + sent_before + dead_before)
      then failed
      else balanced)
verify sim baseline timed_out = pure failed
verify sim baseline unfinished = pure overrun

unfoldable pub watch_if_any : ℕ → Simulation → Counts → Program Verdict
unfolding verify watch_until_drained
watch_if_any rounds sim baseline =
    if total sim == 0
    then pure nothing_to_watch
    else (watch_until_drained rounds sim >>= verify sim baseline)

-- A test that is not chosen is skipped; a test that fails ends the simulation.
unfoldable pub chosen : Bool → Program Bool → Program Bool
chosen runs test = if runs then test else pure true

unfoldable pub or_fail : Bool → Program Verdict → Program Verdict
or_fail passed rest = if passed then rest else pure failed

-- The arguments are the settings of the API, the rounds, the simulation and the `time_ns` of its key.
unfoldable pub run_simulation : Settings → ℕ → Simulation → ℕ → Program Verdict
unfolding chosen or_fail watch_if_any submit_delivery_jobs submit_duplicate_pair
    submit_rate_limit_burst
run_simulation settings rounds sim stamp = metrics >>= λ baseline.
    chosen sim.run_delivery (submit_delivery_jobs settings sim) >>= λ delivery. or_fail delivery (
      chosen sim.run_idempotency (submit_duplicate_pair settings stamp) >>= λ idempotency.
      or_fail idempotency (
        chosen sim.run_rate_limit (submit_rate_limit_burst settings sim) >>= λ burst.
        or_fail burst (watch_if_any rounds sim baseline)))

-- `main`: a first request tests whether the API is reachable.
unfoldable pub simulate_main : Settings → ℕ → Args → ℕ → Program Verdict
unfolding run_simulation
simulate_main settings rounds args stamp =
    catch (metrics >>= λ _. pure true) (λ _. pure false) >>= λ reachable.
    if reachable then run_simulation settings rounds (simulation args) stamp else pure failed
