-- ===== src/Redis/Memory.antt =====
-- A server in memory that behaves as the interface says.
mod Queues
unfoldable pub use Queues.{Entries, zpopmin}
use Queues.{zscore, zadd, zscore-zadd, zscore-zpopmin, zpopmin_least, zpopmin_member, zpopmin_empty}
use notify_queue.Base.{
  ℕ, ◌+◌, ◌≡◌, refl, Bool, true, false, not, ◌&&◌, Option, none, some, List, [], ◌∷◌, Text, arith,
  ◌==◌, if◌then◌else◌, text_eq,
}
use notify_queue.Redis.{Lock, is_held, Counter, live, incremented, decremented, expiring, Redis}

abbrev pub Locks : Type 0
Locks = List (ℕ × Option Lock)

abbrev lock : ℕ → Locks → Option Lock
lock i [] = none
lock i ((j, o) ∷ r) = if j == i then o else lock i r

abbrev put_lock : Bool → ℕ → Lock → Locks → Locks
put_lock free i l r = if free then (i, some l) ∷ r else r

abbrev set_nx : ℕ → ℕ → ℕ → ℕ → Locks → Bool × Locks
set_nx i w ttl now r =
    let free = not (is_held now (lock i r)) in (free, put_lock free i (w, now + ttl) r)

abbrev delete : ℕ → Locks → Locks
delete i r = (i, none) ∷ r

pub set_nx-acquires :
    (i w ttl now : ℕ) (r : Locks)
    → (set_nx i w ttl now r).0 ≡ (if is_held now (lock i r) then false else true)
set_nx-acquires i w ttl now r = ground arith

pub lock-set_nx :
    (i j w ttl now : ℕ) (r : Locks)
    → lock j (set_nx i w ttl now r).1
      ≡ (if i == j && (set_nx i w ttl now r).0 then some (w, now + ttl) else lock j r)
lock-set_nx i j w ttl now r = ground arith

pub lock-delete : (i j : ℕ) (r : Locks) → lock j (delete i r) ≡ (if i == j then none else lock j r)
lock-delete i j r = ground arith

abbrev pub Counters : Type 0
Counters = List (Text × Option Counter)

abbrev counter : Text → Counters → Option Counter
counter k [] = none
counter k ((l, o) ∷ r) = if text_eq l k then o else counter k r

abbrev incr : Text → ℕ → Counters → Counters
incr k now r = (k, some (incremented (live now (counter k r)))) ∷ r

abbrev decr : Text → ℕ → Counters → Counters
decr k now r = (k, some (decremented (live now (counter k r)))) ∷ r

abbrev expire : Text → ℕ → ℕ → Counters → Counters
expire k ttl now r = (k, expiring (now + ttl) (counter k r)) ∷ r

abbrev pub memory : Redis Entries Locks Counters
memory = record {
  zscore = zscore;
  zadd = zadd;
  zpopmin = zpopmin;
  lock = lock;
  set_nx = set_nx;
  delete = delete;
  counter = counter;
  incr = incr;
  decr = decr;
  expire = expire;
  zscore-zadd = zscore-zadd;
  zscore-zpopmin = zscore-zpopmin;
  zpopmin_least = zpopmin_least;
  zpopmin_member = zpopmin_member;
  zpopmin_empty = zpopmin_empty;
  set_nx-acquires = set_nx-acquires;
  lock-set_nx = lock-set_nx;
  lock-delete = lock-delete;
  counter-incr = λ k l now r. refl;
  counter-decr = λ k l now r. refl;
  counter-expire = λ k l ttl now r. refl;
}
