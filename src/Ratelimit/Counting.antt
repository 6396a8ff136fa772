-- ===== src/Ratelimit/Counting.antt =====
-- The counter of one window of src/notify_queue/ratelimit.py within its hour: the script and the DECR.
use notify_queue.Base.{
  ℕ, suc, ◌+◌, ◌*◌, ◌/◌, ◌≤◌, ◌≡◌, refl, ◌∙◌, ◌⊎◌, inl, inr, false, Option, none, some, Text, arith,
  if◌then◌else◌, above, ℤ, pos, text_eq_refl, Bool-cases, ◌==◌,
}
use notify_queue.Redis.{Redis, Counter, live, incremented}
use notify_queue.Ratelimit.{hour_length, window_ttl, incr_with_ttl, value_of}

module _ {Q L C : Type 0} (redis : Redis Q L C) (key : Text) (limit hour : ℕ) where
  -- A count that the key holds until the hour is over.
  abbrev pub Counts : ℕ → Option Counter → Type 0
  Counts n o = (d : ℕ) × (o ≡ some (pos n, some d)) × ((hour + 1) * hour_length ≤ d)

  abbrev pub Inv : C → ℕ → Type 0
  Inv r n = ((redis.counter key r ≡ none) × (n ≡ 0)) ⊎ Counts n (redis.counter key r)

  after_incr :
      (now n : ℕ) (r : C)
      → now / hour_length ≡ hour
      → Inv r n
      → (live now (redis.counter key r) ≡ (pos 0, none)) × (n ≡ 0)
        ⊎ ((d : ℕ) × (live now (redis.counter key r) ≡ (pos n, some d))
            × ((hour + 1) * hour_length ≤ d))
  after_incr now n r h (inl (e, z)) = inl (rw e refl, z)
  after_incr now n r h (inr (d, e, late)) = inr (d, rw e (ground arith), late)

  incr_self :
      (now : ℕ) (r : C)
      → redis.counter key (redis.incr key now r)
        ≡ some (incremented (live now (redis.counter key r)))
  incr_self now r = redis.counter-incr key key now r ∙ rw (text_eq_refl key)

  -- The end of the script, behind an INCR that left the count `m` with the deadline `o`.
  expired :
      (now m : ℕ) (o : Option ℕ) (r : C)
      → now / hour_length ≡ hour
      → redis.counter key r ≡ some (pos m, o)
      → (m ≡ 1) ⊎ ((d : ℕ) × (o ≡ some d) × ((hour + 1) * hour_length ≤ d))
      → Counts m (redis.counter key (if m == 1 then redis.expire key window_ttl now r else r))
  expired now m o r h e when = elim (Bool-cases (m == 1)) [
    | inl one ↦ rw one (
      now + window_ttl,
      redis.counter-expire key key window_ttl now r ∙ rw (text_eq_refl key) (rw e refl),
      omega arith,
    )
    | inr more ↦ rw more (held when more)
  ]
    where
      held :
          (m ≡ 1) ⊎ ((d : ℕ) × (o ≡ some d) × ((hour + 1) * hour_length ≤ d))
          → (m == 1) ≡ false
          → Counts m (redis.counter key r)
      held (inl one) more = absurd (ground arith)
      held (inr (d, q, late)) more = (d, rw (← q) e, late)

  pub take-Inv :
      (now n : ℕ) (r : C)
      → now / hour_length ≡ hour
      → Inv r n
      → ((incr_with_ttl redis key window_ttl now r).0 ≡ pos (n + 1))
        × Counts (n + 1) (redis.counter key (incr_with_ttl redis key window_ttl now r).1)
  unfolding incr_with_ttl
  take-Inv now n r h inv = elim (after_incr now n r h inv) [
    | inl (e, z) ↦
        let counted : redis.counter key (redis.incr key now r) ≡ some (pos (n + 1), none) =
          incr_self now r ∙ rw e (rw z refl) in
        rw counted
          (refl, expired now (n + 1) none (redis.incr key now r) h counted (inl (omega arith)))
    | inr (d, e, late) ↦
        let counted : redis.counter key (redis.incr key now r) ≡ some (pos (n + 1), some d) =
          incr_self now r ∙ rw e in
        rw counted (
          refl,
          expired now (n + 1) (some d) (redis.incr key now r) h counted (inr (d, refl, late)),
        )
  ]

  pub undo-Inv :
      (now n : ℕ) (r : C) → now / hour_length ≡ hour → Inv r (suc n) → Inv (redis.decr key now r) n
  undo-Inv now n r h (inl (e, z)) = absurd (omega arith)
  undo-Inv now n r h (inr (d, e, late)) =
      inr (d, redis.counter-decr key key now r ∙ rw (text_eq_refl key) (rw e (ground arith)), late)

  pub within : (n : ℕ) {v : ℤ} → v ≡ pos (n + 1) → above limit v ≡ false → n + 1 ≤ limit
  within n e ok = ground arith

  pub value_of-Inv : (r : C) (n : ℕ) → Inv r n → value_of (redis.counter key r) ≡ pos n
  value_of-Inv r n (inl (e, z)) = rw (e, z) refl
  value_of-Inv r n (inr (d, e, late)) = rw e refl
