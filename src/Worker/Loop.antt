-- ===== src/Worker/Loop.antt =====
-- `worker_loop` of src/notify_queue/worker/__main__.py. Each round has the turns of its heartbeat; the
-- list of them is as long as the loop finds `stop` not set. The waits for `stop` are sleeps that it
-- may cut short.
pub mod Survives
use notify_queue.Base.{ℕ, Bool, Option, none, some, List, [], ◌∷◌}
use notify_queue.Settings.{Settings}
use notify_queue.Effects.{Command, Program, pure, ◌>>=◌, ◌>>◌, catch, await}
use notify_queue.Worker.Claim.{claim_next_job}
use notify_queue.Worker.Process.{process_job}

unfoldable pub process_claimed : List Bool → ℕ → Settings → Option ℕ → Program Unit
process_claimed turns worker_id settings none = await (Command.sleep settings.worker_idle_sleep)
process_claimed turns worker_id settings (some job_id) = process_job turns job_id worker_id settings

-- `except Exception` takes every error, and waits.
unfoldable pub worker_round : List Bool → ℕ → Settings → Program Unit
unfolding process_claimed
worker_round turns worker_id settings =
    catch (claim_next_job worker_id settings >>= process_claimed turns worker_id settings)
      (λ _. await (Command.sleep settings.error_backoff))

unfoldable pub worker_loop : List (List Bool) → ℕ → Settings → Program Unit
unfolding worker_round
worker_loop [] worker_id settings = pure tt
worker_loop (turns ∷ rounds) worker_id settings =
    worker_round turns worker_id settings >> worker_loop rounds worker_id settings
