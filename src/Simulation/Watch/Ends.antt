-- ===== src/Simulation/Watch/Ends.antt =====
-- `watch_until_drained` of scripts/simulate.py comes to an end.
use notify_queue.Base.{
  ℕ, zero, suc, ◌+◌, ◌-◌, ◌*◌, some, map, length, ◌≤◌, ◌<◌, ◌≡◌, refl, ◌⊎◌, inl, inr, false, List,
  [], ◌∷◌, arith, leb, if_both, ◌==◌, subst,
}
use notify_queue.Schema.{JobStatus, status_eq}
use notify_queue.Statements.Api.{select_metrics, select_recent_jobs}
use notify_queue.Redis.{Redis}
use notify_queue.Effects.{
  Error, type_error, Result, ok, Command, Program, pure, raise, ◌>>=◌, ◌>>◌, await,
}
use notify_queue.Effects.Run.{Moment, World, run, perform}
use notify_queue.Effects.Fine.{next}
use notify_queue.Effects.Rules.{call_rule}
use notify_queue.Api.{
  JobView, serialize_job, metrics, list_jobs, get_jobs, update_counts, no_counts,
}
use notify_queue.Simulation.{deferral_threshold, due_by, split_pending, split_jobs}
use notify_queue.Simulation.Watch.{
  Counts, count_of, Watched, drained, timed_out, unfinished, active_jobs, judge, rest_of_round,
  watch_round, watch,
}

-- An answer, or an exception.
abbrev pub Ended : Result Watched → Type 0
Ended (ok unfinished) = ⊥
Ended _ = Unit

-- The moments after a round.
abbrev pub after_round : (ℕ → Moment) → ℕ → Moment
after_round s = next (next (next (next (next s))))

count_of-cases :
    (status : JobStatus) (counts : Counts)
    → ((n : ℕ) × (count_of status counts ≡ pure n)) ⊎ (count_of status counts ≡ raise type_error)
unfolding count_of
count_of-cases status [] = inr refl
count_of-cases status ((t, n) ∷ counts) =
    let Found = λ (p : Program ℕ). ((m : ℕ) × (p ≡ pure m)) ⊎ (p ≡ raise type_error) in
    if_both Found (status_eq t status) (pure n) (count_of status counts) (λ _. inl (n, refl))
      (λ _. count_of-cases status counts)

module _ {Q L C : Type 0} (redis : Redis Q L C) where
  abbrev Ends : Result Watched × World Q L C → Type 0
  Ends r = Ended r.0

  raise-Ends : (e : Error) (s : ℕ → Moment) (w : World Q L C) → Ends (run redis s (raise e) w)
  unfolding run
  raise-Ends e s w = tt

  timed_out-Ends : (s : ℕ → Moment) (w : World Q L C) → Ends (run redis s (pure timed_out) w)
  unfolding run
  timed_out-Ends s w = tt

  rest_of_round-Ends :
      (deadline poll : ℕ) (again : Program Watched) (s : ℕ → Moment) (w : World Q L C)
      → (leb deadline (s 0).now ≡ false
          → (v : World Q L C) → Ends (run redis (next (next s)) again v))
      → Ends (run redis s (rest_of_round deadline poll again) w)
  unfolding rest_of_round perform
  rest_of_round-Ends deadline poll again s w rest =
      call_rule redis Ends Command.read_clock _ s w (λ e. raise-Ends e (next s))
        (if_both (λ p. Ends (run redis (next s) p w)) (leb deadline (s 0).now) (pure timed_out)
          (await (Command.sleep poll) >> again) (λ _. timed_out-Ends (next s) w)
          (λ late.
            call_rule redis Ends (Command.sleep poll) _ (next s) w
              (λ e. raise-Ends e (next (next s))) (rest late w)))

  drained-Ends :
      (counts : Counts) (n : ℕ) (s : ℕ → Moment) (w : World Q L C)
      → Ends (run redis s (pure (drained counts n)) w)
  unfolding run
  drained-Ends counts n s w = tt

  active_jobs-Ends :
      (counts : Counts) (n : ℕ) (f : ℕ → Program Watched) (s : ℕ → Moment) (w : World Q L C)
      → ((a : ℕ) → Ends (run redis s (f a) w))
      → Ends (run redis s (active_jobs counts n >>= f) w)
  unfolding active_jobs
  active_jobs-Ends counts n f s w rest = elim (count_of-cases JobStatus.queued counts) [
    | inl (a, e) ↦ rw e (elim (count_of-cases JobStatus.claimed counts) [
      | inl (b, e') ↦ rw e' (rest (a + b + n))
      | inr e' ↦ rw e' (raise-Ends type_error s w)
    ])
    | inr e ↦ rw e (raise-Ends type_error s w)
  ]

  -- What a round sees.
  abbrev pub seen_counts : World Q L C → Counts
  seen_counts w = update_counts no_counts (select_metrics w.database)

  abbrev pub seen_pending : World Q L C → List JobView
  seen_pending w = map serialize_job (select_recent_jobs (some JobStatus.pending) 200 w.database)

  abbrev pub seen_in_flight : ℕ → World Q L C → ℕ
  seen_in_flight now w = due_by (now + deferral_threshold) (seen_pending w)

  judge-Ends :
      (deadline poll : ℕ) (again : Program Watched) (s : ℕ → Moment) (w : World Q L C)
      (counts : Counts) (pending_active deferred : ℕ)
      → (leb deadline (s 0).now ≡ false
          → (v : World Q L C) → Ends (run redis (next (next s)) again v))
      → Ends (run redis s (judge deadline poll again counts pending_active deferred) w)
  unfolding judge
  judge-Ends deadline poll again s w counts pending_active deferred rest =
      active_jobs-Ends counts pending_active _ s w (λ active.
        if_both (λ p. Ends (run redis s p w)) (active == 0) (pure (drained counts deferred))
          (rest_of_round deadline poll again) (λ _. drained-Ends counts deferred s w)
          (λ _. rest_of_round-Ends deadline poll again s w rest))

  watch_round-Ends :
      (deadline poll : ℕ) (again : Program Watched) (s : ℕ → Moment) (w : World Q L C)
      → (leb deadline (s 3).now ≡ false
          → (v : World Q L C) → Ends (run redis (after_round s) again v))
      → Ends (run redis s (watch_round deadline poll again) w)
  unfolding watch_round metrics split_pending split_jobs get_jobs list_jobs perform
  watch_round-Ends deadline poll again s w rest =
      call_rule redis Ends Command.select_metrics _ s w (λ e. raise-Ends e (next s))
        (call_rule redis Ends (Command.select_recent_jobs _ 200) _ (next s) w
          (λ e. raise-Ends e (next (next s)))
          (call_rule redis Ends Command.read_clock _ (next (next s)) w
            (λ e. raise-Ends e (next (next (next s))))
            (judge-Ends deadline poll again (next (next (next s))) w (seen_counts w)
              (seen_in_flight (s 2).now w) (length (seen_pending w) - seen_in_flight (s 2).now w)
              rest)))

  -- Watching ends, whatever fails: with a round k of the rounds, counted from 0, after which the clock
  -- is not before the deadline, the loop does not run out of rounds, but reports that the queue is
  -- drained or that the time is up, or ends by an exception.
  pub watch_ends :
      (k rounds deadline poll : ℕ) (s : ℕ → Moment) (w : World Q L C)
      → k < rounds
      → deadline ≤ (s (5 * k + 3)).now
      → Ended (run redis s (watch rounds deadline poll) w).0
  unfolding watch
  watch_ends k zero deadline poll s w h late = absurd (omega arith)
  watch_ends zero (suc rounds) deadline poll s w h late =
      watch_round-Ends deadline poll (watch rounds deadline poll) s w
        (λ early v. absurd (ground arith))
  watch_ends (suc k) (suc rounds) deadline poll s w h late =
      watch_round-Ends deadline poll (watch rounds deadline poll) s w (λ _ v.
        watch_ends k rounds deadline poll (after_round s) v (omega arith)
          (subst (λ n. deadline ≤ (s n).now) (moment k) late))
    where
      moment : (k : ℕ) → 5 * suc k + 3 ≡ suc (suc (suc (suc (suc (5 * k + 3)))))
      moment k = omega arith
