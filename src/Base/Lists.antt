-- ===== src/Base/Lists.antt =====
-- Lists measured by native numbers, filtered by Boolean tests, and predicates on their members.
use Prim.Native.Nat.{ℕ, zero, suc, ◌+◌, ◌≤◌}
use mathlib.Core.Path.{◌≡◌, refl, ap}
use mathlib.Core.Logic.{◌⊎◌, inl, inr}
use mathlib.Core.Bool.{Bool, true, false, ◌||◌, false≢true}
use mathlib.Core.List.{List, [], ◌∷◌, ◌++◌, map}
use mathlib.Core.Option.{Option, none, some}
use native.Mathlib.Omega.{arith}
use notify_queue.Base.Tests.{if◌then◌else◌, Bool-cases, if_both}

-- A member, with its place.
abbrev pub In : {A : Type 0} → A → List A → Type 0
In a [] = ⊥
In a (x ∷ xs) = (a ≡ x) ⊎ In a xs

module _ {ℓ} {A : Type ℓ} where
  abbrev pub length : List A → ℕ
  length [] = 0
  length (x ∷ xs) = suc (length xs)

  abbrev pub take : ℕ → List A → List A
  take zero xs = []
  take (suc n) [] = []
  take (suc n) (x ∷ xs) = x ∷ take n xs

  abbrev pub get_elem? : List A → ℕ → Option A
  get_elem? [] n = none
  get_elem? (x ∷ xs) zero = some x
  get_elem? (x ∷ xs) (suc n) = get_elem? xs n

  -- The rows that pass a test, in their order.
  unfoldable pub select : (A → Bool) → List A → List A
  select p [] = []
  select p (x ∷ xs) = if p x then x ∷ select p xs else select p xs

  abbrev pub first : List A → Option A
  first [] = none
  first (x ∷ xs) = some x

  unfoldable pub any : (A → Bool) → List A → Bool
  any p [] = false
  any p (x ∷ xs) = p x || any p xs

  abbrev pub All {κ} : (A → Type κ) → List A → Type κ
  All P [] = Unit
  All P (x ∷ xs) = P x × All P xs

  pub length-append : (xs ys : List A) → length (xs ++ ys) ≡ length xs + length ys
  length-append [] ys = omega arith
  length-append (x ∷ xs) ys = omega (arith, length-append xs ys)

  pub take_all : (n : ℕ) (xs : List A) → length xs ≤ n → take n xs ≡ xs
  take_all zero [] h = refl
  take_all zero (x ∷ xs) h = absurd (omega arith)
  take_all (suc n) [] h = refl
  take_all (suc n) (x ∷ xs) h = ap (λ l. x ∷ l) (take_all n xs (omega arith))

  pub length-take-le : (n : ℕ) (xs : List A) → length (take n xs) ≤ n
  length-take-le zero xs = omega arith
  length-take-le (suc n) [] = omega arith
  length-take-le (suc n) (x ∷ xs) = omega (arith, length-take-le n xs)

pub All-map {ℓ κ μ} :
    {A : Type ℓ} {P : A → Type κ} {Q : A → Type μ} (xs : List A)
    → ((x : A) → P x → Q x)
    → All P xs
    → All Q xs
All-map [] f h = tt
All-map (x ∷ xs) f h = (f x h.0, All-map xs f h.1)

pub All-take {ℓ κ} :
    {A : Type ℓ} (P : A → Type κ) (n : ℕ) (xs : List A) → All P xs → All P (take n xs)
All-take P zero xs h = tt
All-take P (suc n) [] h = tt
All-take P (suc n) (x ∷ xs) h = (h.0, All-take P n xs h.1)

-- A selected row passes the test.
pub All-select {ℓ κ} :
    {A : Type ℓ} (P : A → Type κ) (p : A → Bool) (xs : List A)
    → All P xs
    → All (λ x. P x × (p x ≡ true)) (select p xs)
unfolding select
All-select P p [] h = tt
All-select P p (x ∷ xs) h =
    let rest = All-select P p xs h.1 in
    if_both (All (λ y. P y × (p y ≡ true))) (p x) (x ∷ select p xs) (select p xs)
      (λ e. ((h.0, e), rest)) (λ e. rest)

-- A test that some member passes, and what all members satisfy.
pub any-All {ℓ κ} :
    {A : Type ℓ} (P : A → Type κ) (p : A → Bool) (xs : List A)
    → All P xs
    → any p xs ≡ true
    → (x : A) × P x × (p x ≡ true)
unfolding any
any-All P p [] h e = absurd (false≢true e)
any-All P p (x ∷ xs) h e = elim (Bool-cases (p x)) [
  | inl t ↦ (x, h.0, t)
  | inr f ↦ any-All P p xs h.1 (ground arith)
]

pub All-both {ℓ κ μ} :
    {A : Type ℓ} (P : A → Type κ) (Q : A → Type μ) (xs : List A)
    → All P xs
    → All Q xs
    → All (λ x. P x × Q x) xs
All-both P Q [] h k = tt
All-both P Q (x ∷ xs) h k = ((h.0, k.0), All-both P Q xs h.1 k.1)

module _ {ℓ} {A : Type ℓ} where
  pub select-append :
      (p : A → Bool) (xs ys : List A) → select p (xs ++ ys) ≡ select p xs ++ select p ys
  unfolding select
  select-append p [] ys = refl
  select-append p (x ∷ xs) ys = ground (arith, select-append p xs ys)

  pub take-append_le : (n : ℕ) (xs ys : List A) → n ≤ length xs → take n (xs ++ ys) ≡ take n xs
  take-append_le zero xs ys h = refl
  take-append_le (suc n) [] ys h = absurd (omega arith)
  take-append_le (suc n) (x ∷ xs) ys h = ap (λ l. x ∷ l) (take-append_le n xs ys (omega arith))

  pub any-take-false :
      (p : A → Bool) (n : ℕ) (xs : List A) → any p xs ≡ false → any p (take n xs) ≡ false
  unfolding any
  any-take-false p zero xs h = refl
  any-take-false p (suc n) [] h = refl
  any-take-false p (suc n) (x ∷ xs) h = ground (arith, any-take-false p n xs)

  pub any-select-false :
      (p q : A → Bool) (xs : List A) → any p xs ≡ false → any p (select q xs) ≡ false
  unfolding any select
  any-select-false p q [] h = refl
  any-select-false p q (x ∷ xs) h = ground (arith, any-select-false p q xs)

pub All-map_list {ℓ κ μ} :
    {A : Type ℓ} {B : Type κ} (P : B → Type μ) (f : A → B) (xs : List A)
    → All (λ x. P (f x)) xs
    → All P (map f xs)
All-map_list P f [] h = tt
All-map_list P f (x ∷ xs) h = (h.0, All-map_list P f xs h.1)

pub any-map {ℓ κ} :
    {A : Type ℓ} {B : Type κ} (p : B → Bool) (f : A → B) (xs : List A)
    → any p (map f xs) ≡ any (λ x. p (f x)) xs
unfolding any
any-map p f [] = refl
any-map p f (x ∷ xs) = ap (λ b. p (f x) || b) (any-map p f xs)
