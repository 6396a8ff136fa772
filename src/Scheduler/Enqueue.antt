-- ===== src/Scheduler/Enqueue.antt =====
-- What `_enqueue` of src/notify_queue/scheduler/scheduler.py leaves in Redis.
use notify_queue.Base.{
  ℕ, ◌≡◌, refl, ap, ◌∙◌, inl, inr, Bool, true, false, ◌&&◌, some, List, [], ◌∷◌, map, arith, ◌==◌,
  ==_iff, if◌then◌else◌, All, any, Bool-cases,
}
use notify_queue.Schema.{Job, Priority}
use notify_queue.Schema.Table.{IsRow}
use notify_queue.Redis.{Redis, same_queue}
use notify_queue.Statements.Scheduler.{is_among}
use notify_queue.Effects.Run.{zadd_rows}
use notify_queue.Scheduler.{priority_score, queue_entry}

-- An entry for the job `i` in the queue `p`.
abbrev pub is_entry : Priority → ℕ → Priority × ℕ × ℕ → Bool
is_entry p i (q, j, s) = same_queue q p && j == i

abbrev score_of : Priority × ℕ × ℕ → ℕ
score_of (q, j, s) = s

pub entry_absent :
    (j : Job) (rows : List Job)
    → is_among rows j ≡ false
    → any (is_entry j.priority j.id) (map queue_entry rows) ≡ false
unfolding any
entry_absent j [] e = refl
entry_absent j (b ∷ rows) e = ground (arith, entry_absent j rows)

-- An entry for this job has this score.
abbrev Agrees : Priority → ℕ → ℕ → Priority × ℕ × ℕ → Type 0
Agrees p i v e = is_entry p i e ≡ true → score_of e ≡ v

module _ {Q L C : Type 0} (redis : Redis Q L C) (p : Priority) (i v : ℕ) where
  zadd_rows-keep :
      (rows : List (Priority × ℕ × ℕ)) (r : Q)
      → All (Agrees p i v) rows
      → redis.zscore p i r ≡ some v
      → redis.zscore p i (zadd_rows redis rows r) ≡ some v
  zadd_rows-keep [] r h e = e
  zadd_rows-keep ((q, j, s) ∷ rows) r h e =
      zadd_rows-keep rows (redis.zadd q j s r) h.1
        (redis.zscore-zadd q p j i s r ∙ head (is_entry p i (q, j, s)) refl)
    where
      head :
          (b : Bool)
          → is_entry p i (q, j, s) ≡ b
          → (if b then some s else redis.zscore p i r) ≡ some v
      head true t = ap some (h.0 t)
      head false f = e

  -- One of the entries is for this job, and all such entries have one score.
  zadd_rows-found :
      (rows : List (Priority × ℕ × ℕ)) (r : Q)
      → All (Agrees p i v) rows
      → any (is_entry p i) rows ≡ true
      → redis.zscore p i (zadd_rows redis rows r) ≡ some v
  unfolding any
  zadd_rows-found [] r h e = ground arith
  zadd_rows-found ((q, j, s) ∷ rows) r h e = elim (Bool-cases (is_entry p i (q, j, s))) [
    | inl t ↦
        zadd_rows-keep rows (redis.zadd q j s r) h.1
          (redis.zscore-zadd q p j i s r ∙ rw t (ap some (h.0 t)))
    | inr f ↦ zadd_rows-found rows (redis.zadd q j s r) h.1 (ground arith)
  ]

module _ (js : List Job) (j : Job) (row : IsRow js j) where
  same_row : (b : Job) → IsRow js b → b.id ≡ j.id → b ≡ j
  same_row b found same = ground arith

  entry_Agrees :
      (b : Job)
      → IsRow js b
      → Agrees j.priority j.id (priority_score j.priority j.send_at) (queue_entry b)
  entry_Agrees b found e =
      ap (λ (k : Job). priority_score k.priority k.send_at) (same_row b found (ground arith))

  entries_Agree :
      (rows : List Job)
      → All (IsRow js) rows
      → All (Agrees j.priority j.id (priority_score j.priority j.send_at)) (map queue_entry rows)
  entries_Agree [] h = tt
  entries_Agree (b ∷ rows) h = (entry_Agrees b h.0, entries_Agree rows h.1)

  entry_found :
      (rows : List Job)
      → All (IsRow js) rows
      → is_among rows j ≡ true
      → any (is_entry j.priority j.id) (map queue_entry rows) ≡ true
  unfolding any
  entry_found [] h e = e
  entry_found (b ∷ rows) h e = elim (Bool-cases (b.id == j.id)) [
    | inl here ↦ rw (same_row b h.0 ((==_iff b.id j.id).0 here)) (ground arith)
    | inr there ↦ ground (arith, entry_found rows h.1)
  ]

  -- ZADD of a batch of rows gives each of them its score in its queue.
  pub zadd_rows-score :
      {Q L C : Type 0} (redis : Redis Q L C) (rows : List Job) (r : Q)
      → All (IsRow js) rows
      → is_among rows j ≡ true
      → redis.zscore j.priority j.id (zadd_rows redis (map queue_entry rows) r)
        ≡ some (priority_score j.priority j.send_at)
  zadd_rows-score redis rows r h e =
      zadd_rows-found redis j.priority j.id (priority_score j.priority j.send_at)
        (map queue_entry rows) r (entries_Agree rows h) (entry_found rows h e)

module _ {Q L C : Type 0} (redis : Redis Q L C) (p : Priority) (i : ℕ) where
  -- A job that is in none of the entries keeps its place.
  pub zadd_rows-other :
      (rows : List (Priority × ℕ × ℕ)) (r : Q)
      → any (is_entry p i) rows ≡ false
      → redis.zscore p i (zadd_rows redis rows r) ≡ redis.zscore p i r
  unfolding any
  zadd_rows-other [] r e = refl
  zadd_rows-other ((q, j, s) ∷ rows) r e =
      zadd_rows-other rows (redis.zadd q j s r) (ground arith)
      ∙ redis.zscore-zadd q p j i s r
      ∙ rw (not_head (ground arith))
    where
      not_head :
          is_entry p i (q, j, s) ≡ false
          → (if is_entry p i (q, j, s) then some s else redis.zscore p i r) ≡ redis.zscore p i r
      not_head f = rw f
