-- ===== src/Scheduler/Recover/Rows.antt =====
-- What becomes of one recovered job while the loop of `recover_stale_claimed_jobs` goes through its
-- rows.
use notify_queue.Base.{
  codes, ℕ, ◌≡◌, refl, sym, subst, ap, ◌∙◌, inl, inr, Bool, ◌||◌, true, false, none, some, List, [],
  ◌∷◌, arith, ◌==◌, ==_iff, leb, if_both, Bool-cases, All, any,
}
use mathlib.Core.Bool.{false≢true}
use notify_queue.Schema.{Job}
use notify_queue.Schema.Table.{find_job, find_job-id, keyed, update_rows, find_job-update_rows}
use notify_queue.Settings.{Settings}
use notify_queue.Redis.{Redis}
use notify_queue.Statements.Audit.{is_expected, dead_job}
use notify_queue.Statements.Scheduler.{worker_died}
use notify_queue.Effects.{Command, Program}
use notify_queue.Effects.Run.{World, perform}
use notify_queue.Effects.Clean.{From, From-pure, From-call, From-bind, Returns-From}
use notify_queue.Dlq.Returns.{dead_letter-Returns}
use notify_queue.Dlq.{dead_letter}
use notify_queue.Worker.Outcome.Jobs.{jobs_of, dead_letter-jobs}
use notify_queue.Scheduler.{recover_rows}
use notify_queue.Lifecycle.Outcomes.{given_up}

or_true : (a : Bool) → (a || true) ≡ true
or_true a = ground arith

or_false : (a : Bool) → (a || false) ≡ a
or_false a = ground arith

or_assoc : (a b c : Bool) → ((a || b) || c) ≡ (a || (b || c))
or_assoc a b c = ground arith

module _ {Q L C : Type 0} (redis : Redis Q L C) (settings : Settings) where
  -- The table after one dead-lettering.
  abbrev AfterDeath : Job → World Q L C → World Q L C → Type 0
  AfterDeath job w v =
      (now : ℕ) × (jobs_of v
        ≡ update_rows (keyed job.id (is_expected none)) (dead_job worker_died job.attempt_count now)
            (jobs_of w))

  dead_letter-AfterDeath :
      (job : Job) (w : World Q L C)
      → From redis w
          (dead_letter job worker_died job.attempt_count settings none)
          (λ _. AfterDeath job w)
  dead_letter-AfterDeath job w =
      Returns-From redis (AfterDeath job w) w _
        (dead_letter-Returns redis settings job worker_died job.attempt_count none w)
        (λ s h. (
          (s 0).now,
          dead_letter-jobs redis job worker_died job.attempt_count settings none s w (h.0 0),
        ))

  module _ (r : Job) (free : r.worker_id ≡ none) where
    -- The row `r` of a recovered job, or what became of it.
    abbrev pub Dead : World Q L C → Type 0
    Dead w =
        (now : ℕ) × (find_job r.id (jobs_of w)
          ≡ some (
              given_up (codes "worker died mid-processing (heartbeat timeout)") r.attempt_count now
                r))

    abbrev pub Live : World Q L C → Type 0
    Live w = find_job r.id (jobs_of w) ≡ some r

    other :
        (b : Job) (now : ℕ) (js : List Job) {x : Job}
        → (b.id == r.id) ≡ false
        → find_job r.id js ≡ some x
        → find_job r.id (
            update_rows
              (keyed b.id (is_expected none))
              (dead_job worker_died b.attempt_count now)
              js)
          ≡ some x
    other b now js {x} differs found =
        find_job-update_rows (keyed b.id (is_expected none)) _ (λ _. refl) r.id js
        ∙ rw found (ground (arith, find_job-id r.id js found))

    this :
        (now : ℕ) (js : List Job) {x : Job}
        → x.worker_id ≡ none
        → find_job r.id js ≡ some x
        → find_job r.id (
            update_rows
              (keyed r.id (is_expected none))
              (dead_job worker_died r.attempt_count now)
              js)
          ≡ some (dead_job worker_died r.attempt_count now x)
    this now js {x} unowned found =
        find_job-update_rows (keyed r.id (is_expected none)) _ (λ _. refl) r.id js
        ∙ rw found (ground (arith, find_job-id r.id js found))

    -- Has the loop come to the job yet?
    abbrev pub Fate : Bool → World Q L C → Type 0
    Fate false w = Live w
    Fate true w = Dead w

    -- The rows of the job are `r`.
    abbrev Same : List Job → Type 0
    Same = All (λ b. b.id ≡ r.id → b ≡ r)

    other-Fate :
        (met : Bool) (b : Job) (w v : World Q L C)
        → (b.id == r.id) ≡ false
        → Fate met w
        → AfterDeath b w v
        → Fate met v
    other-Fate false b w v differs live (now, e) =
        ap (find_job r.id) e ∙ other b now (jobs_of w) differs live
    other-Fate true b w v differs (then, dead) (now, e) =
        (then, ap (find_job r.id) e ∙ other b now (jobs_of w) differs dead)

    this-Dead : (met : Bool) (w v : World Q L C) → Fate met w → AfterDeath r w v → Dead v
    this-Dead false w v live (now, e) = (now, ap (find_job r.id) e ∙ this now (jobs_of w) free live)
    this-Dead true w v (then, dead) (now, e) =
        (now, ap (find_job r.id) e ∙ this now (jobs_of w) refl dead)

    step-Fate :
        (met : Bool) (b : Job) (w v : World Q L C)
        → (b.id ≡ r.id → b ≡ r)
        → Fate met w
        → AfterDeath b w v
        → Fate (met || b.id == r.id) v
    step-Fate met b w v same fate death = elim (Bool-cases (b.id == r.id)) [
      | inl e ↦
          subst (λ m. Fate m v) (sym (ap (λ c. met || c) e ∙ or_true met))
            (this-Dead met w v fate
              (subst (λ x. AfterDeath x w v) (same ((==_iff b.id r.id).0 e)) death))
      | inr e ↦
          subst (λ m. Fate m v) (sym (ap (λ c. met || c) e ∙ or_false met))
            (other-Fate met b w v e fate death)
    ]

    abbrev unlocked : World Q L C → ℕ → World Q L C
    unlocked w i = record w { locks = redis.delete i w.locks }

    moved : (met : Bool) (w : World Q L C) (i : ℕ) → Fate met w → Fate met (unlocked w i)
    moved false w i fate = fate
    moved true w i fate = fate

    spared :
        (b : Job)
        → (b.id ≡ r.id → b ≡ r)
        → leb r.max_attempts r.attempt_count ≡ true
        → leb b.max_attempts b.attempt_count ≡ false
        → (b.id == r.id) ≡ false
    spared b same last more = elim (Bool-cases (b.id == r.id)) [
      | inl e ↦ absurd (clash (same ((==_iff b.id r.id).0 e)))
      | inr e ↦ e
    ]
      where
        clash : b ≡ r → ⊥
        clash e = false≢true (sym more ∙ ap (λ x. leb x.max_attempts x.attempt_count) e ∙ last)

    pub recover_rows-Fate :
        (rows : List Job) (met : Bool) (w : World Q L C)
        → leb r.max_attempts r.attempt_count ≡ true
        → Same rows
        → Fate met w
        → From redis w
            (recover_rows settings rows)
            (λ _. Fate (met || any (λ b. b.id == r.id) rows))
    unfolding recover_rows perform any
    recover_rows-Fate [] met w last same fate =
        From-pure redis _ w tt (subst (λ m. Fate m w) (sym (or_false met)) fate)
    recover_rows-Fate (b ∷ rows) met w last same fate =
        From-call redis (λ _. Ends) w (Command.delete_lock b.id) _
          (λ m _.
            if_both (λ (p : Program Unit). From redis (unlocked w b.id) p (λ _. Ends))
              (leb b.max_attempts b.attempt_count) _ _
              (λ _.
                From-bind redis (λ _. AfterDeath b w) (λ _. Ends) (unlocked w b.id) _ _
                  (dead_letter-AfterDeath b (unlocked w b.id))
                  (λ _ v death.
                    subst (λ k. From redis v (recover_rows settings rows) (λ _. Fate k))
                      (or_assoc met (b.id == r.id) (any (λ b. b.id == r.id) rows))
                      (recover_rows-Fate rows (met || b.id == r.id) v last same.1
                        (step-Fate met b w v same.0 fate death))))
              (λ more.
                let differs = spared b same.0 last more in
                subst
                  (λ k.
                    From redis (unlocked w b.id) (recover_rows settings rows)
                      (λ _. Fate (met || k)))
                  (sym (ap (λ k. k || any (λ b. b.id == r.id) rows) differs))
                  (recover_rows-Fate rows met (unlocked w b.id) last same.1
                    (moved met w b.id fate))))
      where
        Ends : World Q L C → Type 0
        Ends = Fate (met || any (λ b. b.id == r.id) (b ∷ rows))

    pub recover_rows-Live :
        (rows : List Job) (w : World Q L C)
        → leb r.max_attempts r.attempt_count ≡ false
        → Same rows
        → Live w
        → From redis w (recover_rows settings rows) (λ _. Live)
    unfolding recover_rows perform
    recover_rows-Live [] w more same live = From-pure redis (λ _. Live) w tt live
    recover_rows-Live (b ∷ rows) w more same live =
        From-call redis (λ _. Live) w (Command.delete_lock b.id) _
          (λ m _.
            if_both (λ (p : Program Unit). From redis (unlocked w b.id) p (λ _. Live))
              (leb b.max_attempts b.attempt_count) _ _
              (λ last.
                From-bind redis (λ _. AfterDeath b w) (λ _. Live) (unlocked w b.id) _ _
                  (dead_letter-AfterDeath b (unlocked w b.id))
                  (λ _ v death.
                    recover_rows-Live rows v more same.1
                      (other-Fate false b w v (differs last) live death)))
              (λ _. recover_rows-Live rows (unlocked w b.id) more same.1 live))
      where
        differs : leb b.max_attempts b.attempt_count ≡ true → (b.id == r.id) ≡ false
        differs last = elim (Bool-cases (b.id == r.id)) [
          | inl e ↦ absurd (clash last (same.0 ((==_iff b.id r.id).0 e)))
          | inr e ↦ e
        ]
          where
            clash : leb b.max_attempts b.attempt_count ≡ true → b ≡ r → ⊥
            clash last e =
                false≢true (sym more ∙ ap (λ x. leb x.max_attempts x.attempt_count) (sym e) ∙ last)
