-- ===== src/Redis/Memory/Queues.antt =====
-- The sorted sets of the server in memory.
use notify_queue.Base.{
  ℕ, ◌≤◌, ◌≡◌, inl, inr, true, ◌&&◌, Option, none, some, List, [], ◌∷◌, arith, ◌==◌, if◌then◌else◌,
  leb, Bool-cases, Option-cases,
}
use notify_queue.Schema.{Priority}
use notify_queue.Redis.{same_queue, popped}

-- Every entry of every queue: its queue, its member and its score.
abbrev pub Entries : Type 0
Entries = List (Priority × ℕ × ℕ)

abbrev pub zscore : Priority → ℕ → Entries → Option ℕ
zscore p i [] = none
zscore p i ((q, j, s) ∷ r) = if same_queue p q && i == j then some s else zscore p i r

abbrev remove : Priority → ℕ → Entries → Entries
remove p i [] = []
remove p i ((q, j, s) ∷ r) =
    let rest = remove p i r in if same_queue p q && i == j then rest else (q, j, s) ∷ rest

abbrev pub zadd : Priority → ℕ → ℕ → Entries → Entries
zadd p i s r = (p, i, s) ∷ r

abbrev offer : Option ℕ → ℕ → Option (ℕ × ℕ) → Option (ℕ × ℕ)
offer none i best = best
offer (some s) i none = some (i, s)
offer (some s) i (some (j, t)) = if leb t s then some (j, t) else some (i, s)

-- The member of least score among those of `r`, by their scores in `all`.
least : Priority → Entries → Entries → Option (ℕ × ℕ)
least p all [] = none
least p all ((q, i, _) ∷ r) =
    let rest = least p all r in if same_queue p q then offer (zscore p i all) i rest else rest

abbrev pop : Priority → Entries → Option (ℕ × ℕ) → Option ℕ × Entries
pop p r none = (none, r)
pop p r (some (i, _)) = (some i, remove p i r)

unfoldable pub zpopmin : Priority → Entries → Option ℕ × Entries
unfolding least
zpopmin p r = pop p r (least p r r)

zscore-remove :
    (p q : Priority) (i j : ℕ) (r : Entries)
    → zscore q j (remove p i r) ≡ (if same_queue p q && i == j then none else zscore q j r)
zscore-remove p q i j [] = ground arith
zscore-remove p q i j ((p', i', s) ∷ r) = ground (arith, zscore-remove p q i j r)

least_sound :
    (p : Priority) (all r : Entries) (i s : ℕ)
    → least p all r ≡ some (i, s)
    → zscore p i all ≡ some s
unfolding least
least_sound p all [] i s h = ground arith
least_sound p all ((q, j, t) ∷ r) i s h = ground (arith, least_sound p all r i s)

-- The best entry is there, and its score is at most `t`.
abbrev AtMost : ℕ → Option (ℕ × ℕ) → Type 0
AtMost t none = ⊥
AtMost t (some (i, s)) = s ≤ t

least_bound :
    (p : Priority) (all r : Entries) (j t u : ℕ)
    → zscore p j r ≡ some u
    → zscore p j all ≡ some t
    → AtMost t (least p all r)
unfolding least
least_bound p all [] j t u h e = ground arith
least_bound p all ((q, i, v) ∷ r) j t u h e = elim (Bool-cases (same_queue p q && j == i)) [
  | inl here ↦ at_head (ground arith) (ground arith)
  | inr there ↦ ground (arith, least_bound p all r j t u)
]
  where
    at_head : same_queue p q ≡ true → j ≡ i → AtMost t (least p all ((q, i, v) ∷ r))
    at_head same eq = rw (same, ← eq, e) (ground arith)

least_AtMost : (t : ℕ) (o : Option (ℕ × ℕ)) {i s : ℕ} → AtMost t o → o ≡ some (i, s) → s ≤ t
least_AtMost t none b e = absurd b
least_AtMost t (some (j, u)) b e = ground arith

zpopmin_popped :
    (p : Priority) (i : ℕ) (r : Entries)
    → (zpopmin p r).0 ≡ some i
    → (s : ℕ) × (least p r r ≡ some (i, s))
unfolding zpopmin
zpopmin_popped p i r h = elim (Option-cases (least p r r)) [
  | inl e ↦ ground arith
  | inr ((j, s), e) ↦ (s, ground arith)
]

pub zpopmin_member :
    (p : Priority) (i : ℕ) (r : Entries)
    → (zpopmin p r).0 ≡ some i
    → (s : ℕ) × (zscore p i r ≡ some s)
zpopmin_member p i r h = let (s, e) = zpopmin_popped p i r h in (s, least_sound p r r i s e)

pub zpopmin_least :
    (p : Priority) (i j t : ℕ) (r : Entries)
    → (zpopmin p r).0 ≡ some i
    → zscore p j r ≡ some t
    → (s : ℕ) × (zscore p i r ≡ some s) × (s ≤ t)
zpopmin_least p i j t r h e =
    let (s, l) = zpopmin_popped p i r h in
    (s, least_sound p r r i s l, least_AtMost t _ (least_bound p r r j t t e e) l)

zscore_of_none : (p : Priority) (j : ℕ) (r : Entries) → least p r r ≡ none → zscore p j r ≡ none
zscore_of_none p j r l = elim (Option-cases (zscore p j r)) [
  | inl e ↦ e
  | inr (t, e) ↦ absurd (rw l at (least_bound p r r j t t e e))
]

pub zpopmin_empty :
    (p : Priority) (j : ℕ) (r : Entries) → (zpopmin p r).0 ≡ none → zscore p j r ≡ none
unfolding zpopmin
zpopmin_empty p j r h = elim (Option-cases (least p r r)) [
  | inl e ↦ zscore_of_none p j r e
  | inr (b, e) ↦ ground arith
]

pub zscore-zpopmin :
    (p q : Priority) (j : ℕ) (r : Entries)
    → zscore q j (zpopmin p r).1
      ≡ (if same_queue p q && popped j (zpopmin p r).0 then none else zscore q j r)
unfolding zpopmin
zscore-zpopmin p q j r = elim (Option-cases (least p r r)) [
  | inl e ↦ rw e (ground arith)
  | inr ((i, s), e) ↦ rw e (ground (arith, zscore-remove p q i j r))
]

pub zscore-zadd :
    (p q : Priority) (i j s : ℕ) (r : Entries)
    → zscore q j (zadd p i s r) ≡ (if same_queue p q && i == j then some s else zscore q j r)
zscore-zadd p q i j s r = ground arith
