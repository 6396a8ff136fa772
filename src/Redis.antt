-- ===== src/Redis.antt =====
-- The Redis server, which the program only calls: its commands are a parameter, with the documented
-- behaviour that the program relies on. The three families of keys (`queue:`, `job:lock:` and
-- `ratelimit:`) differ in their prefix, so each has a state of its own. A key whose deadline has
-- passed counts as absent.
pub mod Memory
use notify_queue.Base.{
  ℕ, ◌+◌, ◌≤◌, ◌≡◌, Bool, true, false, ◌&&◌, Option, none, some, Text, ◌==◌, if◌then◌else◌, ltb,
  text_eq, ℤ, pos, suc_ℤ, pred_ℤ,
}
use notify_queue.Schema.{Priority, priority_rank}

abbrev pub same_queue : Priority → Priority → Bool
same_queue p q = priority_rank p == priority_rank q

-- Is this the member that a pop returned?
abbrev pub popped : ℕ → Option ℕ → Bool
popped j none = false
popped j (some i) = i == j

-- A lock: its holder, and when it expires.
abbrev pub Lock : Type 0
Lock = ℕ × ℕ

abbrev pub is_held : ℕ → Option Lock → Bool
is_held now none = false
is_held now (some (w, deadline)) = ltb now deadline

-- A counter: its value, and when it expires, if it does.
abbrev pub Counter : Type 0
Counter = ℤ × Option ℕ

abbrev pub live : ℕ → Option Counter → Counter
live now none = (pos 0, none)
live now (some (n, none)) = (n, none)
live now (some (n, some deadline)) = if ltb now deadline then (n, some deadline) else (pos 0, none)

abbrev pub incremented : Counter → Counter
incremented (n, deadline) = (suc_ℤ n, deadline)

abbrev pub decremented : Counter → Counter
decremented (n, deadline) = (pred_ℤ n, deadline)

-- EXPIRE does nothing to a key that is absent.
abbrev pub expiring : ℕ → Option Counter → Option Counter
expiring deadline none = none
expiring deadline (some (n, _)) = some (n, some deadline)

pub record Redis (Q L C : Type 0) : Type 0 where
  -- sorted sets of job ids
  pub zscore : Priority → ℕ → Q → Option ℕ
  pub zadd : Priority → ℕ → ℕ → Q → Q
  pub zpopmin : Priority → Q → Option ℕ × Q
  -- locks
  pub lock : ℕ → L → Option Lock
  pub set_nx : ℕ → ℕ → ℕ → ℕ → L → Bool × L
  pub delete : ℕ → L → L
  -- counters
  pub counter : Text → C → Option Counter
  pub incr : Text → ℕ → C → C
  pub decr : Text → ℕ → C → C
  pub expire : Text → ℕ → ℕ → C → C
  pub zscore-zadd :
      (p q : Priority) (i j s : ℕ) (r : Q)
      → zscore q j (zadd p i s r) ≡ (if same_queue p q && i == j then some s else zscore q j r)
  pub zscore-zpopmin :
      (p q : Priority) (j : ℕ) (r : Q)
      → zscore q j (zpopmin p r).1
        ≡ (if same_queue p q && popped j (zpopmin p r).0 then none else zscore q j r)
  pub zpopmin_least :
      (p : Priority) (i j t : ℕ) (r : Q)
      → (zpopmin p r).0 ≡ some i
      → zscore p j r ≡ some t
      → (s : ℕ) × (zscore p i r ≡ some s) × (s ≤ t)
  pub zpopmin_member :
      (p : Priority) (i : ℕ) (r : Q) → (zpopmin p r).0 ≡ some i → (s : ℕ) × (zscore p i r ≡ some s)
  pub zpopmin_empty : (p : Priority) (j : ℕ) (r : Q) → (zpopmin p r).0 ≡ none → zscore p j r ≡ none
  pub set_nx-acquires :
      (i w ttl now : ℕ) (r : L)
      → (set_nx i w ttl now r).0 ≡ (if is_held now (lock i r) then false else true)
  pub lock-set_nx :
      (i j w ttl now : ℕ) (r : L)
      → lock j (set_nx i w ttl now r).1
        ≡ (if i == j && (set_nx i w ttl now r).0 then some (w, now + ttl) else lock j r)
  pub lock-delete : (i j : ℕ) (r : L) → lock j (delete i r) ≡ (if i == j then none else lock j r)
  pub counter-incr :
      (k l : Text) (now : ℕ) (r : C)
      → counter l (incr k now r)
        ≡ (if text_eq k l then some (incremented (live now (counter k r))) else counter l r)
  pub counter-decr :
      (k l : Text) (now : ℕ) (r : C)
      → counter l (decr k now r)
        ≡ (if text_eq k l then some (decremented (live now (counter k r))) else counter l r)
  pub counter-expire :
      (k l : Text) (ttl now : ℕ) (r : C)
      → counter l (expire k ttl now r)
        ≡ (if text_eq k l then expiring (now + ttl) (counter k r) else counter l r)
