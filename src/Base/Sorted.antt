-- ===== src/Base/Sorted.antt =====
-- Sorted lists, insertion sort, and the first members of a sorted list.
use notify_queue.Base.Tests.{if_both}
use notify_queue.Base.Lists.{All, All-map, All-take, All-both, any, any-All, take, length}
use notify_queue.Base.Sort.{insert, sort, All-insert}
use Prim.Native.Nat.{ℕ, zero, suc}
use mathlib.Core.Path.{◌≡◌, refl, ap, ◌∙◌}
use mathlib.Core.Bool.{Bool, true, false, ◌||◌, false≢true}
use mathlib.Core.List.{List, [], ◌∷◌}
use native.Mathlib.Omega.{arith}

module _ {A : Type 0} (le : A → A → Bool) where
  abbrev pub Sorted : List A → Type 0
  Sorted [] = Unit
  Sorted (x ∷ xs) = All (λ y. le x y ≡ true) xs × Sorted xs

  any-insert : (p : A → Bool) (a : A) (xs : List A) → any p (insert le a xs) ≡ (p a || any p xs)
  unfolding insert any
  any-insert p a [] = refl
  any-insert p a (x ∷ xs) = ground (arith, any-insert p a xs)

  pub any-sort : (p : A → Bool) (xs : List A) → any p (sort le xs) ≡ any p xs
  unfolding sort any
  any-sort p [] = refl
  any-sort p (x ∷ xs) = any-insert p x (sort le xs) ∙ ap (λ b. p x || b) (any-sort p xs)

  pub Sorted-take : (n : ℕ) (xs : List A) → Sorted xs → Sorted (take n xs)
  Sorted-take zero xs s = tt
  Sorted-take (suc n) [] s = tt
  Sorted-take (suc n) (x ∷ xs) s = (All-take (λ y. le x y ≡ true) n xs s.0, Sorted-take n xs s.1)

  -- A member that the first `n` of a sorted list miss comes after each of them, and they are `n`.
  pub take-least :
      (Q : A → Type 0) (p : A → Bool) (n : ℕ) (xs : List A)
      → Sorted xs
      → All Q xs
      → any p xs ≡ true
      → any p (take n xs) ≡ false
      → (length (take n xs) ≡ n)
        × ((x : A) × Q x × (p x ≡ true) × All (λ b. le b x ≡ true) (take n xs))
  unfolding any
  take-least Q p zero xs s q here gone =
      let (x, qx, px) = any-All Q p xs q here in (refl, (x, qx, px, tt))
  take-least Q p (suc n) [] s q here gone = absurd (false≢true here)
  take-least Q p (suc n) (a ∷ xs) s q here gone =
      let both =
        take-least (λ x. Q x × (le a x ≡ true)) p n xs s.1
          (All-both Q (λ x. le a x ≡ true) xs q.1 s.0) (ground arith) (ground arith) in
      let (x, qx, px, below) = both.1 in (ap suc both.0, (x, qx.0, px, (qx.1, below)))

  -- The order is total and transitive.
  abbrev pub IsTotal : Type 0
  IsTotal = (a b : A) → le a b ≡ false → le b a ≡ true

  abbrev pub IsTransitive : Type 0
  IsTransitive = (a b c : A) → le a b ≡ true → le b c ≡ true → le a c ≡ true

  module _ (total : IsTotal) (trans : IsTransitive) where
    insert-Sorted : (a : A) (xs : List A) → Sorted xs → Sorted (insert le a xs)
    unfolding insert
    insert-Sorted a [] s = (tt, tt)
    insert-Sorted a (x ∷ xs) s =
        let rest = insert-Sorted a xs s.1 in
        if_both Sorted (le a x) (a ∷ x ∷ xs) (x ∷ insert le a xs)
          (λ e. ((e, All-map xs (λ y f. trans a x y e f) s.0), s))
          (λ e. (All-insert le (λ y. le x y ≡ true) a xs (total a x e) s.0, rest))

    pub sort-Sorted : (xs : List A) → Sorted (sort le xs)
    unfolding sort
    sort-Sorted [] = tt
    sort-Sorted (x ∷ xs) = insert-Sorted x (sort le xs) (sort-Sorted xs)
