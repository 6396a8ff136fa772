-- ===== src/Schema/Table.antt =====
-- What an UPDATE with a WHERE clause does to the rows of `jobs`, and what its RETURNING clause
-- yields. The table is a list in the order in which the server scans it: SQL leaves that order
-- open, and no theorem fixes it.
use notify_queue.Base.{
  subst, ℕ, ◌≡◌, refl, inl, inr, Bool, true, ◌&&◌, Option, none, some, List, [], ◌∷◌, map, arith,
  ◌==◌, if◌then◌else◌, select, any, first, Option-cases, Bool-cases, ==_iff, All, All-map,
}
use notify_queue.Schema.{Job}

-- One statement: the rows returned, as updated, and the table after it.
abbrev pub Updated : Type 0
Updated = List Job × List Job

unfoldable pub update_rows : (Job → Bool) → (Job → Job) → List Job → List Job
update_rows p f [] = []
update_rows p f (j ∷ js) = (if p j then f j else j) ∷ update_rows p f js

unfoldable pub update_where : (Job → Bool) → (Job → Job) → List Job → Updated
update_where p f js = (map f (select p js), update_rows p f js)

-- The row with a given primary key.
unfoldable pub find_job : ℕ → List Job → Option Job
find_job i [] = none
find_job i (j ∷ js) = if j.id == i then some j else find_job i js

-- The primary key: no id stands twice.
abbrev pub Unique : List Job → Type 0
Unique [] = Unit
Unique (j ∷ js) = (find_job j.id js ≡ none) × Unique js

-- What an update does to one row.
abbrev pub updated : (Job → Bool) → (Job → Job) → Option Job → Option Job
updated p f none = none
updated p f (some j) = some (if p j then f j else j)

abbrev pub returned : (Job → Bool) → (Job → Job) → Option Job → Option Job
returned p f none = none
returned p f (some j) = if p j then some (f j) else none

-- A WHERE clause that names the primary key.
abbrev pub keyed : ℕ → (Job → Bool) → Job → Bool
keyed i q j = j.id == i && q j

pub find_job-id : (i : ℕ) (js : List Job) {j : Job} → find_job i js ≡ some j → j.id ≡ i
unfolding find_job
find_job-id i [] h = ground arith
find_job-id i (x ∷ js) {j} h = ground (arith, find_job-id i js {j = j})

module _ (p : Job → Bool) (f : Job → Job) (same : (j : Job) → (f j).id ≡ j.id) where
  pub find_job-update_rows :
      (i : ℕ) (js : List Job) → find_job i (update_rows p f js) ≡ updated p f (find_job i js)
  unfolding find_job update_rows
  find_job-update_rows i [] = refl
  find_job-update_rows i (j ∷ js) = ground (arith, same j, find_job-update_rows i js)

  pub update_rows-Unique : (js : List Job) → Unique js → Unique (update_rows p f js)
  unfolding update_rows
  update_rows-Unique [] u = tt
  update_rows-Unique (j ∷ js) u =
      ground (arith, same j, update_rows-Unique js u.1, find_job-update_rows j.id js)

-- Every row is the one that its id finds.
abbrev pub IsRow : List Job → Job → Type 0
IsRow js j = find_job j.id js ≡ some j

IsRow-cons :
    (x : Job) (js : List Job) → find_job x.id js ≡ none → (j : Job) → IsRow js j → IsRow (x ∷ js) j
unfolding find_job
IsRow-cons x js fresh j h = elim (Bool-cases (x.id == j.id)) [
  | inl e ↦ absurd (clash ((==_iff x.id j.id).0 e))
  | inr n ↦ rw n h
]
  where
    clash : x.id ≡ j.id → ⊥
    clash e = ground arith

pub All-IsRow : (js : List Job) → Unique js → All (IsRow js) js
unfolding find_job
All-IsRow [] u = tt
All-IsRow (x ∷ js) u = (ground arith, All-map js (IsRow-cons x js u.0) (All-IsRow js u.1))

module _ (i : ℕ) (q : Job → Bool) (f : Job → Job) where
  returned_none : (js : List Job) → find_job i js ≡ none → select (keyed i q) js ≡ []
  unfolding find_job select
  returned_none [] h = refl
  returned_none (j ∷ js) h = ground (arith, returned_none js)

  -- With the primary key in the WHERE clause, at most one row comes back.
  pub first-returned :
      (js : List Job)
      → Unique js
      → first (update_where (keyed i q) f js).0 ≡ returned q f (find_job i js)
  unfolding update_where find_job select
  first-returned [] u = refl
  first-returned (j ∷ js) u = ground (arith, first-returned js u.1, returned_none js)

  pub updated-keyed :
      (js : List Job) → updated (keyed i q) f (find_job i js) ≡ updated q f (find_job i js)
  updated-keyed js = elim (Option-cases (find_job i js)) [
    | inl e ↦ rw e
    | inr (j, e) ↦ rw e (ground (arith, find_job-id i js e))
  ]

-- A statement that matches no row changes none.
pub update_rows-unmatched :
    (p : Job → Bool) (f : Job → Job) (js : List Job) → select p js ≡ [] → update_rows p f js ≡ js
unfolding update_rows select
update_rows-unmatched p f [] h = refl
update_rows-unmatched p f (j ∷ js) h = ground (arith, update_rows-unmatched p f js)

map-nil : {A B : Type 0} (g : A → B) (xs : List A) → first (map g xs) ≡ none → xs ≡ []
map-nil g [] h = refl
map-nil g (x ∷ xs) h = ground arith

-- A statement that returns no row has changed none.
pub update_where-none :
    (p : Job → Bool) (f : Job → Job) (js : List Job)
    → first (update_where p f js).0 ≡ none
    → (update_where p f js).1 ≡ js
unfolding update_where
update_where-none p f js h = update_rows-unmatched p f js (map-nil f (select p js) h)

-- A row that passes a test is among those selected.
pub any-select :
    (p : Job → Bool) (i : ℕ) (js : List Job) {j : Job}
    → find_job i js ≡ some j
    → p j ≡ true
    → any (λ b. b.id == i) (select p js) ≡ true
unfolding find_job select any
any-select p i [] e h = ground arith
any-select p i (x ∷ js) {j} e h = ground (arith, any-select p i js {j = j})

-- A row that is found has what all rows have.
pub All-find :
    (P : Job → Type 0) (i : ℕ) (js : List Job) {j : Job} → All P js → find_job i js ≡ some j → P j
unfolding find_job
All-find P i [] h e = absurd (ground arith)
All-find P i (x ∷ js) {j} h e = elim (Bool-cases (x.id == i)) [
  | inl t ↦ subst P (ground arith) h.0
  | inr f ↦ All-find P i js {j = j} h.1 (ground arith)
]
