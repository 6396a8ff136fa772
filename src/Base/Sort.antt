-- ===== src/Base/Sort.antt =====
-- Insertion sort by a Boolean order.
use notify_queue.Base.Tests.{if◌then◌else◌, if_both}
use notify_queue.Base.Lists.{All}
use mathlib.Core.Bool.{Bool}
use mathlib.Core.List.{List, [], ◌∷◌}

module _ {ℓ} {A : Type ℓ} (le : A → A → Bool) where
  unfoldable pub insert : A → List A → List A
  insert a [] = a ∷ []
  insert a (x ∷ xs) = if le a x then a ∷ x ∷ xs else x ∷ insert a xs

  unfoldable pub sort : List A → List A
  unfolding insert
  sort [] = []
  sort (x ∷ xs) = insert x (sort xs)

  pub All-insert {κ} : (P : A → Type κ) (a : A) (xs : List A) → P a → All P xs → All P (insert a xs)
  unfolding insert
  All-insert P a [] ha h = (ha, tt)
  All-insert P a (x ∷ xs) ha h =
      let rest = All-insert P a xs ha h.1 in
      if_both (All P) (le a x) (a ∷ x ∷ xs) (x ∷ insert a xs) (λ _. (ha, h)) (λ _. (h.0, rest))

  pub All-sort {κ} : (P : A → Type κ) (xs : List A) → All P xs → All P (sort xs)
  unfolding sort
  All-sort P [] h = tt
  All-sort P (x ∷ xs) h = All-insert P x (sort xs) h.0 (All-sort P xs h.1)
