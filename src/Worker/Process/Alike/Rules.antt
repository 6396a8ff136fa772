-- ===== src/Worker/Process/Alike/Rules.antt =====
-- Rules for coroutines that are alike: a command with what follows it, a sequence, a branch.
use notify_queue.Base.{◌≡◌, refl, sym, ◌∙◌, Bool, true, false, ap, subst, if◌then◌else◌}
use notify_queue.Redis.{Redis}
use notify_queue.Effects.{
  Result, ok, err, Command, Reply, Program, raise, call, ◌>>=◌, reply_or_raise, await,
}
use notify_queue.Worker.Process.Blur.{blur_result, blur_reply, IsBlind}
use notify_queue.Worker.Process.Alike.{Alike, done, raised, same, letter}

module _ {Q L C : Type 0} (redis : Redis Q L C) where
  -- A command that succeeds or raises, and what is done with its reply.
  pub Alike-then :
      {A : Type 0} (c : Command) {f f' : Reply c → Program A}
      → IsBlind redis c
      → ((a a' : Reply c) → blur_reply c a ≡ blur_reply c a' → Alike redis (f a) (f' a'))
      → Alike redis (await c >>= f) (await c >>= f')
  Alike-then {A} c {f} {f'} blind h = same c _ _ blind by_result
    where
      by_result :
          (r r' : Result (Reply c))
          → blur_result c r ≡ blur_result c r'
          → Alike redis (reply_or_raise r >>= f) (reply_or_raise r' >>= f')
      by_result (ok a) (ok a') e = h a a' (cc)
      by_result (ok a) (err x) e = absurd (cc)
      by_result (err x) (ok a) e = absurd (cc)
      by_result (err x) (err y) e =
          let same_error : x ≡ y = cc in
          subst (λ z. Alike redis {A = A} (raise x) (raise z)) same_error (raised x)

  -- A command whose reply has nothing to blur.
  pub Alike-call :
      {A : Type 0} (c : Command) {k k' : Result (Reply c) → Program A}
      → IsBlind redis c
      → ((a : Reply c) → blur_reply c a ≡ a)
      → ((r : Result (Reply c)) → Alike redis (k r) (k' r))
      → Alike redis (call c k) (call c k')
  Alike-call c {k} {k'} blind plain h =
      same c _ _ blind
        λ r r' e. subst (λ x. Alike redis (k r) (k' x)) (sym (whole r) ∙ e ∙ whole r') (h r)
    where
      whole : (r : Result (Reply c)) → blur_result c r ≡ r
      whole (ok a) = ap ok (plain a)
      whole (err x) = refl

  pub Alike-plain :
      {A : Type 0} (c : Command) {f f' : Reply c → Program A}
      → IsBlind redis c
      → ((a : Reply c) → blur_reply c a ≡ a)
      → ((a : Reply c) → Alike redis (f a) (f' a))
      → Alike redis (await c >>= f) (await c >>= f')
  Alike-plain c {f} {f'} blind plain h = Alike-call c blind plain by_result
    where
      by_result :
          (r : Result (Reply c)) → Alike redis (reply_or_raise r >>= f) (reply_or_raise r >>= f')
      by_result (ok a) = h a
      by_result (err x) = raised x

  pub Alike-bind :
      {A B : Type 0} {p p' : Program A} {f f' : A → Program B}
      → Alike redis p p'
      → ((a : A) → Alike redis (f a) (f' a))
      → Alike redis (p >>= f) (p' >>= f')
  Alike-bind (done a) h = h a
  Alike-bind (raised e) h = raised e
  Alike-bind (same c k k' blind g) h = same c _ _ blind (λ r r' e. Alike-bind (g r r' e) h)
  Alike-bind (letter error job at up attempt o k k' g) h =
      letter error job at up attempt o _ _ (λ r. Alike-bind (g r) h)

  pub Alike-if :
      {A : Type 0} (b : Bool) {p p' q q' : Program A}
      → Alike redis p p'
      → Alike redis q q'
      → Alike redis (if b then p else q) (if b then p' else q')
  Alike-if true a a' = a
  Alike-if false a a' = a'
