-- ===== src/Ratelimit/Admission.antt =====
-- `check_rate_limit` of src/notify_queue/ratelimit.py in one window, under any interleaving of workers.
use notify_queue.Base.{
  ℕ, ◌+◌, ◌*◌, ◌/◌, ◌≤◌, ◌≡◌, refl, ap, subst, sym, ◌∙◌, ◌⊎◌, inl, inr, true, false, none, Bool,
  List, [], ◌∷◌, ◌++◌, Text, arith, if◌then◌else◌, above, ℤ, pos, All,
}
use notify_queue.Redis.{Redis}
use notify_queue.Ratelimit.{
  hour_length, window_key, window_ttl, incr_with_ttl, value_of, seconds_until_next_window,
}
use notify_queue.Ratelimit.Check.{check_rate_limit}
use notify_queue.Ratelimit.Counting.{Counts, Inv, take-Inv, undo-Inv, within, value_of-Inv}
use notify_queue.Effects.{Command, Program, pure, call, await, ◌>>◌}
use notify_queue.Effects.Run.{fine, Moment, World, execute, perform}
use notify_queue.Effects.Left.{drive}

abbrev pub Check : Type 0
Check = Program (Bool × ℕ)

abbrev pub tally : (Check → ℕ) → List Check → ℕ
tally f [] = 0
tally f (p ∷ ps) = f p + tally f ps

-- The check has let its delivery through.
abbrev pub is_admitted : Check → ℕ
is_admitted (pure (true, _)) = 1
is_admitted _ = 0

-- The check has a command to do yet.
abbrev pub is_open : Check → ℕ
is_open (call c k) = 1
is_open _ = 0

tally-middle :
    (f : Check → ℕ) (before after : List Check) (p : Check)
    → tally f (before ++ p ∷ after) ≡ f p + tally f (before ++ after)
tally-middle f [] after p = refl
tally-middle f (q ∷ before) after p = ground (arith, tally-middle f before after p)

All-middle :
    (P : Check → Type 0) (before after : List Check) (p : Check)
    → All P (before ++ p ∷ after)
    → P p × ((q : Check) → P q → All P (before ++ q ∷ after))
All-middle P [] after p h = (h.0, λ q k. (k, h.1))
All-middle P (x ∷ before) after p h =
    let (this, others) = All-middle P before after p h.1 in (this, λ q k. (h.0, others q k))

-- The key of an hour, at its beginning.
abbrev pub hour_key : Text → ℕ → Text
hour_key recipient hour = window_key recipient (hour * hour_length)

module _ {Q L C : Type 0} (redis : Redis Q L C) (recipient : Text) (limit hour : ℕ) where
  abbrev key : Text
  key = hour_key recipient hour

  -- The servers after some steps in the hour, and the checks that have come so far, each as far as it
  -- has got. A check comes with its first two commands, the clock's reading and the script, since the
  -- first leaves the servers as they are.
  pub data Window : World Q L C → List Check → Type 0 where
    opened : {w : World Q L C} → redis.counter key w.counters ≡ none → Window w []
    comes :
        {w : World Q L C} {ps : List Check} (s : ℕ → Moment)
        → (s 0).now / hour_length ≡ hour
        → (s 1).now / hour_length ≡ hour
        → (s 1).fault ≡ fine
        → Window w ps
        → Window
            (drive redis 2 s (check_rate_limit recipient limit) w).1
            ((drive redis 2 s (check_rate_limit recipient limit) w).0 ∷ ps)
    goes_on :
        {w : World Q L C} (p : Check) (before after : List Check) (s : ℕ → Moment)
        → (s 0).now / hour_length ≡ hour
        → (s 0).fault ≡ fine
        → Window w (before ++ p ∷ after)
        → Window (drive redis 1 s p w).1 (before ++ (drive redis 1 s p w).0 ∷ after)
    elsewhere :
        {w : World Q L C} {ps : List Check} (w' : World Q L C)
        → redis.counter key w'.counters ≡ redis.counter key w.counters
        → Window w ps
        → Window w' ps

  -- A refused check before its DECR.
  abbrev undo : ℕ → Check
  undo n = await (Command.decr key) >> pure (false, n)

  -- Where a check can stand.
  abbrev IsCheck : Check → Type 0
  IsCheck p = ((v : Bool × ℕ) × (p ≡ pure v)) ⊎ ((n : ℕ) × (p ≡ undo n))

  abbrev Holds : World Q L C → List Check → Type 0
  Holds w ps =
      (tally is_admitted ps ≤ limit)
      × Inv redis key limit hour w.counters (tally is_admitted ps + tally is_open ps)
      × All IsCheck ps

  same_key : (now : ℕ) → now / hour_length ≡ hour → window_key recipient now ≡ key
  unfolding window_key
  same_key now h =
      let again : hour * hour_length / hour_length ≡ hour = omega arith in rw (h, again) refl

  abbrev counted : (ℕ → Moment) → World Q L C → ℤ × C
  counted s w = incr_with_ttl redis key window_ttl (s 1).now w.counters

  drive-check :
      (s : ℕ → Moment) (w : World Q L C)
      → (s 0).now / hour_length ≡ hour
      → (s 1).fault ≡ fine
      → drive redis 2 s (check_rate_limit recipient limit) w ≡ (
        if above limit (counted s w).0
            then undo (seconds_until_next_window (s 0).now)
            else pure (true, 0),
        record w { counters = (counted s w).1 },
      )
  unfolding drive check_rate_limit execute perform
  drive-check s w h h' = rw (same_key (s 0).now h) (rw h' refl)

  drive-undo :
      (n : ℕ) (s : ℕ → Moment) (w : World Q L C)
      → (s 0).fault ≡ fine
      → drive redis 1 s (undo n) w
        ≡ (pure (false, n), record w { counters = redis.decr key (s 0).now w.counters })
  unfolding drive execute perform
  drive-undo n s w h = rw h refl

  comes-Holds :
      (over : Bool) (n wait : ℕ) (ps : List Check) (w w' : World Q L C)
      → above limit (pos (n + 1)) ≡ over
      → n ≡ tally is_admitted ps + tally is_open ps
      → Inv redis key limit hour w'.counters (n + 1)
      → Holds w ps
      → Holds w' ((if over then undo wait else pure (true, 0)) ∷ ps)
  comes-Holds true n wait ps w w' e same inv (le, _, all) = (
    omega (arith, le),
    subst (Inv redis key limit hour w'.counters) (omega arith) inv,
    (inr (wait, refl), all),
  )
  comes-Holds false n wait ps w w' e same inv (le, _, all) = (
    omega (arith, within redis key limit hour n refl e),
    subst (Inv redis key limit hour w'.counters) (omega arith) inv,
    (inl ((true, 0), refl), all),
  )

  goes_on-Holds :
      (before after : List Check) (p : Check) (s : ℕ → Moment) (w : World Q L C)
      → (s 0).now / hour_length ≡ hour
      → (s 0).fault ≡ fine
      → IsCheck p
      → Holds w (before ++ p ∷ after)
      → Holds (drive redis 1 s p w).1 (before ++ (drive redis 1 s p w).0 ∷ after)
  unfolding drive
  goes_on-Holds before after p s w h fine_now (inl (v, e)) holds =
      subst (λ q. Holds (drive redis 1 s q w).1 (before ++ (drive redis 1 s q w).0 ∷ after)) (sym e)
        (subst (λ q. Holds w (before ++ q ∷ after)) e holds)
  goes_on-Holds before after p s w h fine_now (inr (n, e)) (le, inv, all) =
      subst (λ q. Holds (drive redis 1 s q w).1 (before ++ (drive redis 1 s q w).0 ∷ after)) (sym e)
        (subst (λ r. Holds r.1 (before ++ r.0 ∷ after)) (sym (drive-undo n s w fine_now))
          (
            omega (arith, admitted, admitted'),
            undo-Inv redis key limit hour (s 0).now _ w.counters h (
                subst (Inv redis key limit hour w.counters)
                  (omega (arith, admitted, admitted', opened_before, opened_after)) inv),
            (All-middle IsCheck before after p all).1 (pure (false, n)) (inl ((false, n), refl)),
          ))
    where
      admitted : tally is_admitted (before ++ p ∷ after) ≡ tally is_admitted (before ++ after)
      admitted =
          tally-middle is_admitted before after p
          ∙ ap (λ q. is_admitted q + tally is_admitted (before ++ after)) e
          ∙ omega arith

      admitted' :
          tally is_admitted (before ++ pure (false, n) ∷ after)
          ≡ tally is_admitted (before ++ after)
      admitted' = tally-middle is_admitted before after (pure (false, n)) ∙ omega arith

      opened_before : tally is_open (before ++ p ∷ after) ≡ 1 + tally is_open (before ++ after)
      opened_before =
          tally-middle is_open before after p
          ∙ ap (λ q. is_open q + tally is_open (before ++ after)) e

      opened_after :
          tally is_open (before ++ pure (false, n) ∷ after) ≡ tally is_open (before ++ after)
      opened_after = tally-middle is_open before after (pure (false, n)) ∙ omega arith

  Window-Holds : {w : World Q L C} {ps : List Check} → Window w ps → Holds w ps
  Window-Holds (opened e) = (omega arith, inl (e, refl), tt)
  Window-Holds (comes {w} {ps} s h h' fine_now win) =
      let holds = Window-Holds win in
      let (reply, counts) =
        take-Inv redis key limit hour (s 1).now (tally is_admitted ps + tally is_open ps) w.counters
          h' holds.1 in
      subst (λ r. Holds r.1 (r.0 ∷ ps)) (sym (drive-check s w h fine_now))
        (comes-Holds (above limit (counted s w).0) (tally is_admitted ps + tally is_open ps)
          (seconds_until_next_window (s 0).now) ps w (record w { counters = (counted s w).1 })
          (ap (above limit) (sym reply)) refl (inr counts) holds)
  Window-Holds (goes_on {w} p before after s h fine_now win) =
      let holds = Window-Holds win in
      goes_on-Holds before after p s w h fine_now (All-middle IsCheck before after p holds.2).0
        holds
  Window-Holds (elsewhere {w} {ps} w' same win) =
      let (le, inv, all) = Window-Holds win in
      (
        le,
        subst
            (λ c.
              ((c ≡ none) × (tally is_admitted ps + tally is_open ps ≡ 0))
              ⊎ Counts redis key limit hour (tally is_admitted ps + tally is_open ps) c)
            (sym same) inv,
        all,
      )

  -- In an hour that began with no count, in whatever order workers come with `check_rate_limit` for one
  -- recipient and the checks go on, with anything between that leaves the key's counter alone, each of
  -- their commands within the hour: no more than the limit have been admitted, and the count is that of
  -- the checks admitted and of those refused whose DECR is still to come. No command of a check fails, and the key does not expire in between.
  pub admitted-le :
      {w : World Q L C} {ps : List Check}
      → Window w ps
      → (tally is_admitted ps ≤ limit)
        × (value_of (redis.counter key w.counters) ≡ pos (tally is_admitted ps + tally is_open ps))
  admitted-le {w} {ps} win =
      let (le, inv, all) = Window-Holds win in
      (le, value_of-Inv redis key limit hour w.counters _ inv)
