-- ===== src/Worker/Loop/Survives.antt =====
-- `worker_loop` of src/notify_queue/worker/__main__.py under failures.
use notify_queue.Base.{ℕ, Bool, List, [], ◌∷◌, ◌≡◌, ◌∙◌}
use notify_queue.Settings.{Settings}
use notify_queue.Redis.{Redis}
use notify_queue.Effects.{Command, await}
use notify_queue.Effects.Run.{Moment, World, run}
use notify_queue.Effects.Survives.{
  Survives, pure-Survives, sleep-Survives, catch-Survives, bind-Survives,
}
use notify_queue.Worker.Loop.{worker_round, worker_loop}
use notify_queue.Effects.{ok}
use notify_queue.Effects.Fine.{run-pure}
use notify_queue.Effects.Left.{left, run-then}

module _ {Q L C : Type 0} (redis : Redis Q L C) where
  worker_round-Survives :
      (turns : List Bool) (worker_id : ℕ) (settings : Settings)
      → Survives redis (worker_round turns worker_id settings)
  unfolding worker_round
  worker_round-Survives turns worker_id settings =
      catch-Survives redis _ (λ _. await (Command.sleep settings.error_backoff))
        (λ _. sleep-Survives redis settings.error_backoff)

  loop-Survives :
      (rounds : List (List Bool)) (worker_id : ℕ) (settings : Settings)
      → Survives redis (worker_loop rounds worker_id settings)
  unfolding worker_loop
  loop-Survives [] worker_id settings = pure-Survives redis tt
  loop-Survives (turns ∷ rounds) worker_id settings =
      bind-Survives redis (worker_round turns worker_id settings) _
        (worker_round-Survives turns worker_id settings)
        (λ _. loop-Survives rounds worker_id settings)

  -- The rounds played one by one: each runs from the servers that the former left behind, however it
  -- went.
  unfoldable pub play : List (List Bool) → ℕ → Settings → (ℕ → Moment) → World Q L C → World Q L C
  play [] worker_id settings s w = w
  play (turns ∷ rounds) worker_id settings s w =
      let round = worker_round turns worker_id settings in
      play rounds worker_id settings (left redis s round w) (run redis s round w).1

  -- No failure kills a worker: whatever its servers do and however the heartbeats fall, the loop goes
  -- through all its rounds, each one as it runs by itself from what the rounds before it left, and ends
  -- without an exception.
  pub worker_loop-Survives :
      (rounds : List (List Bool)) (worker_id : ℕ) (settings : Settings) (s : ℕ → Moment)
      (w : World Q L C)
      → run redis s (worker_loop rounds worker_id settings) w
        ≡ (ok tt, play rounds worker_id settings s w)
  unfolding worker_loop play
  worker_loop-Survives [] worker_id settings s w = run-pure redis s tt w
  worker_loop-Survives (turns ∷ rounds) worker_id settings s w =
      let round = worker_round turns worker_id settings in
      run-then redis round (λ _. worker_loop rounds worker_id settings) s w
        (worker_round-Survives turns worker_id settings s w)
      ∙ worker_loop-Survives rounds worker_id settings (left redis s round w)
          (run redis s round w).1
