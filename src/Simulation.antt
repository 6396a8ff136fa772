-- ===== src/Simulation.antt =====
-- scripts/simulate.py, a client of the API. A request runs its handler in the API's process and is
-- answered with its status code, 500 for an exception; the transport does not fail. `time_ns` and the
-- two clocks are the moments' clock. `false` is `sys.exit(1)`.
pub mod Bodies
pub mod Submit
pub mod Watch
pub mod Pending
use notify_queue.Base.{
  ℕ, zero, suc, ◌+◌, ◌-◌, Bool, true, false, Option, none, some, List, [], ◌∷◌, Text, if◌then◌else◌,
  leb, ◌==◌, ◌&&◌, ◌||◌, length,
}
use notify_queue.Schema.{JobStatus, microseconds}
use notify_queue.Settings.{Settings}
use notify_queue.Models.{JobCreate}
use notify_queue.Effects.{type_error, Command, Program, pure, raise, ◌>>=◌, ◌>>◌, catch, await}
use notify_queue.Api.{Created, created, duplicate_job, unprocessable, post_jobs, JobView, get_jobs}
use Bodies.{delivery_body, duplicate_body, burst_body}

pub record Simulation : Type 0 where
  pub api : Text
  pub jobs : ℕ
  pub burst : ℕ
  pub burst_recipient : Text
  pub poll : ℕ
  pub timeout : ℕ
  pub run_delivery : Bool
  pub run_idempotency : Bool
  pub run_rate_limit : Bool

-- The arguments of the command line; durations in microseconds.
pub record Args : Type 0 where
  pub api : Text
  pub jobs : ℕ
  pub burst : ℕ
  pub burst_recipient : Text
  pub poll : ℕ
  pub timeout : ℕ
  pub only_delivery : Bool
  pub only_idempotency : Bool
  pub only_rate_limit : Bool

-- `main`: with one of the flags only the tests named run. `__init__` drops the jobs of the others.
unfoldable pub simulation : Args → Simulation
simulation args =
    let some_only = args.only_delivery || args.only_idempotency || args.only_rate_limit in
    let run_delivery = if some_only then args.only_delivery else true in
    let run_idempotency = if some_only then args.only_idempotency else true in
    let run_rate_limit = if some_only then args.only_rate_limit else true in
    record {
      api = args.api;
      jobs = if run_delivery then args.jobs else 0;
      burst = if run_rate_limit then args.burst else 0;
      burst_recipient = args.burst_recipient;
      poll = args.poll;
      timeout = args.timeout;
      run_delivery = run_delivery;
      run_idempotency = run_idempotency;
      run_rate_limit = run_rate_limit;
    }

abbrev pub total : Simulation → ℕ
total sim = sim.jobs + (if sim.run_idempotency then 1 else 0) + sim.burst

abbrev pub status_code : Created → ℕ
status_code (created _ _ _) = 201
status_code (duplicate_job _) = 409
status_code unprocessable = 422

-- The arguments are the settings of the API and the request.
unfoldable pub submit : Settings → JobCreate → Program ℕ
submit settings body = catch (post_jobs body settings >>= λ c. pure (status_code c)) (λ _. pure 500)

-- Submit what is left; anything but 201 ends the simulation.
unfoldable pub submit_each : Settings → (ℕ → JobCreate) → ℕ → ℕ → Program Bool
unfolding submit
submit_each settings body zero i = pure true
submit_each settings body (suc left) i =
    let rest = submit_each settings body left (i + 1) in
    submit settings (body i) >>= λ code. if code == 201 then rest else pure false

unfoldable pub submit_delivery_jobs : Settings → Simulation → Program Bool
unfolding submit_each
submit_delivery_jobs settings sim = submit_each settings (delivery_body sim.api) sim.jobs 0

unfoldable pub submit_rate_limit_burst : Settings → Simulation → Program Bool
unfolding submit_each
submit_rate_limit_burst settings sim =
    submit_each settings (λ _. burst_body sim.burst_recipient) sim.burst 0

unfoldable pub submit_duplicate_pair : Settings → ℕ → Program Bool
unfolding submit
submit_duplicate_pair settings stamp = submit settings (duplicate_body stamp) >>= λ first.
    submit settings (duplicate_body stamp) >>= λ second. pure (first == 201 && second == 409)

abbrev pub deferral_threshold : ℕ
deferral_threshold = microseconds 600

unfoldable pub due_by : ℕ → List JobView → ℕ
due_by threshold [] = 0
due_by threshold (j ∷ jobs) =
    let rest = due_by threshold jobs in if leb j.send_at threshold then suc rest else rest

-- A refusal has no `jobs` in its body. No more jobs are due than were listed.
unfoldable pub split_jobs : Option (List JobView) → Program (ℕ × ℕ)
unfolding due_by
split_jobs none = raise type_error
split_jobs (some jobs) = do
  now ← await Command.read_clock
  let in_flight = due_by (now + deferral_threshold) jobs
  pure (in_flight, length jobs - in_flight)

-- The pending jobs in flight, and those deferred.
unfoldable pub split_pending : Program (ℕ × ℕ)
unfolding split_jobs get_jobs
split_pending = get_jobs (some JobStatus.pending) (some 200) >>= split_jobs
