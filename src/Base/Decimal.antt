-- ===== src/Base/Decimal.antt =====
-- Numbers as an f-string prints them, and read back.
use mathlib.Core.Path.{◌≡◌, refl, sym, ap, ◌∙◌}
use mathlib.Core.List.{[], ◌∷◌, ◌++◌}
use mathlib.Core.Logic.{inl, inr}
use Prim.Native.Nat.{ℕ, zero, suc, ◌+◌, ◌-◌, ◌*◌, ◌/◌, ◌%◌, ◌≤◌, ◌<◌}
use native.Mathlib.Omega.{arith}
use notify_queue.Base.Tests.{if◌then◌else◌, ltb, Bool-cases, if_both}
use notify_queue.Base.Lists.{All}
use notify_queue.Base.Texts.{Text}

-- A number in decimal; it has no more digits than `fuel`.
unfoldable pub digits : ℕ → ℕ → Text
digits zero n = []
digits (suc fuel) n =
    let front = digits fuel (n / 10) in
    if ltb n 10 then (n + b'0') ∷ [] else front ++ (n % 10 + b'0') ∷ []

abbrev pub decimal : ℕ → Text
decimal n = digits (suc n) n

-- The digits that are read after `value`.
unfoldable pub read : ℕ → Text → ℕ
read value [] = value
read value (c ∷ t) = read (value * 10 + (c - b'0')) t

read-snoc : (v : ℕ) (t : Text) (c : ℕ) → read v (t ++ c ∷ []) ≡ read v t * 10 + (c - b'0')
unfolding read
read-snoc v [] c = refl
read-snoc v (x ∷ t) c = read-snoc (v * 10 + (x - b'0')) t c

read-digits : (fuel n : ℕ) → n < fuel → read 0 (digits fuel n) ≡ n
unfolding digits read
read-digits zero n h = absurd (omega arith)
read-digits (suc fuel) n h = elim (Bool-cases (ltb n 10)) [
  | inl small ↦ rw small (omega arith)
  | inr large ↦
      let front = read-digits fuel (n / 10) (ground arith) in
      rw large (read-snoc 0 (digits fuel (n / 10)) (n % 10 + b'0') ∙ rw front (omega arith))
]

-- A number is printed in a way that tells it apart.
pub read-decimal : (n : ℕ) → read 0 (decimal n) ≡ n
read-decimal n = read-digits (suc n) n (omega arith)

pub decimal_inj : (m n : ℕ) → decimal m ≡ decimal n → m ≡ n
decimal_inj m n e = sym (read-decimal m) ∙ ap (read 0) e ∙ read-decimal n

All-snoc : (P : ℕ → Type 0) (t : Text) (c : ℕ) → All P t → P c → All P (t ++ c ∷ [])
All-snoc P [] c h hc = (hc, tt)
All-snoc P (x ∷ t) c h hc = (h.0, All-snoc P t c h.1 hc)

digits-All : (fuel n : ℕ) → All (λ c. b'0' ≤ c) (digits fuel n)
unfolding digits
digits-All zero n = tt
digits-All (suc fuel) n =
    if_both (All (λ c. b'0' ≤ c)) (ltb n 10) _ _ (λ e. (omega arith, tt))
      (λ e.
        All-snoc (λ c. b'0' ≤ c) (digits fuel (n / 10)) (n % 10 + b'0') (digits-All fuel (n / 10))
          (omega arith))

pub decimal-All : (n : ℕ) → All (λ c. b'0' ≤ c) (decimal n)
decimal-All n = digits-All (suc n) n
