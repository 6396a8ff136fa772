-- ===== src/Worker/Claim.antt =====
-- src/notify_queue/worker/claim.py: the three gates.
pub mod Gates
pub mod Order
use notify_queue.Base.{ℕ, Option, none, some, List, [], ◌∷◌, if◌then◌else◌}
use notify_queue.Schema.{Job, Priority}
use notify_queue.Settings.{Settings}
use notify_queue.Effects.{Command, Program, pure, ◌>>=◌, ◌>>◌, await}

abbrev pub priority_order : List Priority
priority_order = Priority.high ∷ Priority.medium ∷ Priority.low ∷ []

-- What follows gate 3: the claim stands, or the lock is given back and the loop goes on.
unfoldable pub after_update : ℕ → Program (Option ℕ) → Option Job → Program (Option ℕ)
after_update i rest none = await (Command.delete_lock i) >> rest
after_update i rest (some _) = pure (some i)

-- The body of the loop behind the pop, with the rounds that are left.
unfoldable pub claim_popped : ℕ → Settings → Program (Option ℕ) → Option ℕ → Program (Option ℕ)
unfolding after_update
claim_popped worker settings rest none = rest
claim_popped worker settings rest (some i) = do
  acquired ← await (Command.set_lock i worker settings.job_lock_ttl)
  if acquired then await (Command.claim_queued_job worker i) >>= after_update i rest else rest

unfoldable pub claim_from : ℕ → Settings → List Priority → Program (Option ℕ)
unfolding claim_popped
claim_from worker settings [] = pure none
claim_from worker settings (p ∷ ps) =
    await (Command.zpopmin p) >>= claim_popped worker settings (claim_from worker settings ps)

unfoldable pub claim_next_job : ℕ → Settings → Program (Option ℕ)
unfolding claim_from
claim_next_job worker settings = claim_from worker settings priority_order
