-- ===== src/Effects/Clean.antt =====
-- Coroutines among servers that do not fail: a triple without moments.
use notify_queue.Base.{ℕ, suc, ◌≡◌, sym, subst}
use notify_queue.Redis.{Redis}
use notify_queue.Effects.{
  Result, ok, err, Posted, Command, Reply, Program, pure, raise, call, ◌>>=◌,
}
use notify_queue.Effects.Run.{Moment, World, run, perform}
use notify_queue.Effects.Fine.{AllFine, next, run-call}

-- No command fails, and each POST is answered or fails by an HTTP error.
abbrev pub IsClean : (ℕ → Moment) → Type 0
IsClean s = AllFine s × ((n : ℕ) → (p : Posted) × ((s n).answer ≡ ok p))

pub next-IsClean : (s : ℕ → Moment) → IsClean s → IsClean (next s)
next-IsClean s h = (λ n. h.0 (suc n), λ n. h.1 (suc n))

-- A coroutine ended without an exception, with this result and these servers.
abbrev pub Done : {A Q L C : Type 0} → (A → World Q L C → Type 0) → Result A × World Q L C → Type 0
Done R (ok a, w) = R a w
Done R (err e, w) = ⊥

module _ {Q L C : Type 0} (redis : Redis Q L C) where
  abbrev pub From : {A : Type 0} → World Q L C → Program A → (A → World Q L C → Type 0) → Type 0
  From w p R = (s : ℕ → Moment) → IsClean s → Done R (run redis s p w)

  pub From-pure :
      {A : Type 0} (R : A → World Q L C → Type 0) (w : World Q L C) (a : A)
      → R a w
      → From w (pure a) R
  unfolding run
  From-pure R w a r s h = r

  pub From-call :
      {A : Type 0} (R : A → World Q L C → Type 0) (w : World Q L C) (c : Command)
      (k : Result (Reply c) → Program A)
      → ((m : Moment)
          → ((p : Posted) × (m.answer ≡ ok p))
          → From (perform redis m c w).1 (k (perform redis m c w).0) R)
      → From w (call c k) R
  From-call R w c k f s h =
      subst (Done R) (sym (run-call redis s c k w (h.0 0)))
        (f (s 0) (h.1 0) (next s) (next-IsClean s h))

  bound :
      {A B : Type 0} (S : A → World Q L C → Type 0) (R : B → World Q L C → Type 0) (p : Program A)
      (f : A → Program B) (w : World Q L C) (s : ℕ → Moment)
      → IsClean s
      → Done S (run redis s p w)
      → ((a : A) (v : World Q L C) → S a v → From v (f a) R)
      → Done R (run redis s (p >>= f) w)
  unfolding run
  bound S R (pure a) f w s h d g = g a w d s h
  bound S R (raise e) f w s h d g = absurd d
  bound S R (call c k) f w s h d g =
      subst (Done R) (sym (run-call redis s c (λ r. k r >>= f) w (h.0 0))) (
        bound S R (k (perform redis (s 0) c w).0) f (perform redis (s 0) c w).1 (next s)
          (next-IsClean s h) (subst (Done S) (run-call redis s c k w (h.0 0)) d) g)

  pub From-bind :
      {A B : Type 0} (S : A → World Q L C → Type 0) (R : B → World Q L C → Type 0) (w : World Q L C)
      (p : Program A) (f : A → Program B)
      → From w p S
      → ((a : A) (v : World Q L C) → S a v → From v (f a) R)
      → From w (p >>= f) R
  From-bind S R w p f d g s h = bound S R p f w s h (d s h) g

  -- It returns; and what it leaves behind.
  abbrev pub Returns : {A : Type 0} → World Q L C → Program A → Type 0
  Returns w p = From w p (λ _ _. Unit)

  leaves :
      {A : Type 0} (R : World Q L C → Type 0) (r : Result A × World Q L C)
      → Done (λ _ _. Unit) r
      → R r.1
      → Done (λ _. R) r
  leaves R (ok a, w) d e = e
  leaves R (err e, w) d x = absurd d

  pub Returns-From :
      {A : Type 0} (R : World Q L C → Type 0) (w : World Q L C) (p : Program A)
      → Returns w p
      → ((s : ℕ → Moment) → IsClean s → R (run redis s p w).1)
      → From w p (λ _. R)
  Returns-From R w p d f s h = leaves R (run redis s p w) (d s h) (f s h)

  pub Done-world :
      {A : Type 0} (R : World Q L C → Type 0) (r : Result A × World Q L C) → Done (λ _. R) r → R r.1
  Done-world R (ok a, w) d = d
  Done-world R (err e, w) d = absurd d
