-- ===== src/Api/Recent.antt =====
-- Which jobs `list_jobs` of src/notify_queue/api/routes.py shows, and in what order.
use notify_queue.Base.{
  refl, leb, none, some, All-map, ℕ, ◌≤◌, ◌≡◌, ◌∙◌, true, false, Option, List, arith, ◌==◌, ==_iff,
  All, All-take, All-select, any, select, length, take, length-take-le,
}
use notify_queue.Base.Sort.{sort, All-sort}
use notify_queue.Base.Sorted.{Sorted, Sorted-take, any-sort, take-least, sort-Sorted}
use notify_queue.Schema.{Job, JobStatus, Database, status_eq→eq}
use notify_queue.Schema.Table.{any-select, IsRow, All-IsRow, Unique}
use notify_queue.Statements.Api.{is_wanted, is_newer, select_recent_jobs}

is_newer-total : (a b : Job) → is_newer a b ≡ false → is_newer b a ≡ true
is_newer-total a b h = ground arith

is_newer_trans : (a b c : Job) → is_newer a b ≡ true → is_newer b c ≡ true → is_newer a c ≡ true
is_newer_trans a b c h k = ground arith

module _ (status : Option JobStatus) (limit : ℕ) (db : Database) (u : Unique db.jobs) where
  abbrev sorted : List Job
  sorted = sort is_newer (select (is_wanted status) db.jobs)

  sorted-rows : All (λ j. IsRow db.jobs j × (is_wanted status j ≡ true)) sorted
  sorted-rows =
      All-sort is_newer (λ j. IsRow db.jobs j × (is_wanted status j ≡ true))
        (select (is_wanted status) db.jobs)
        (All-select (IsRow db.jobs) (is_wanted status) db.jobs (All-IsRow db.jobs u))

  newest_rows :
      (All
        (λ j. IsRow db.jobs j × (is_wanted status j ≡ true))
        (select_recent_jobs status limit db))
      × Sorted is_newer (select_recent_jobs status limit db)
      × (length (select_recent_jobs status limit db) ≤ limit)
      × ((j : Job)
          → IsRow db.jobs j
          → is_wanted status j ≡ true
          → any (λ b. b.id == j.id) (select_recent_jobs status limit db) ≡ false
          → (length (select_recent_jobs status limit db) ≡ limit)
            × All (λ b. is_newer b j ≡ true) (select_recent_jobs status limit db))
  unfolding select_recent_jobs
  newest_rows = (
    All-take (λ j. IsRow db.jobs j × (is_wanted status j ≡ true)) limit sorted sorted-rows,
    Sorted-take is_newer limit sorted in_order,
    length-take-le limit sorted,
    least,
  )
    where
      in_order : Sorted is_newer sorted
      in_order =
          sort-Sorted is_newer is_newer-total is_newer_trans (select (is_wanted status) db.jobs)

      same_row : (b j : Job) → IsRow db.jobs b → IsRow db.jobs j → b.id ≡ j.id → b ≡ j
      same_row b j found row same = ground arith

      least :
          (j : Job)
          → IsRow db.jobs j
          → is_wanted status j ≡ true
          → any (λ b. b.id == j.id) (take limit sorted) ≡ false
          → (length (take limit sorted) ≡ limit)
            × All (λ b. is_newer b j ≡ true) (take limit sorted)
      least j row wanted out =
          let (full, (x, found, same, below)) =
            take-least is_newer (λ b. IsRow db.jobs b × (is_wanted status b ≡ true))
              (λ b. b.id == j.id) limit sorted in_order sorted-rows
              (any-sort is_newer (λ b. b.id == j.id) (select (is_wanted status) db.jobs)
                ∙ any-select (is_wanted status) j.id db.jobs row wanted)
              out in
          (full, rw (same_row x j found.0 row ((==_iff x.id j.id).0 same)) at below)

-- The status asked for, if one is.
abbrev pub HasStatus : Option JobStatus → Job → Type 0
HasStatus none j = Unit
HasStatus (some s) j = j.status ≡ s

is_wanted→HasStatus :
    (status : Option JobStatus) (j : Job) → is_wanted status j ≡ true → HasStatus status j
is_wanted→HasStatus none j h = tt
is_wanted→HasStatus (some s) j h = status_eq→eq j.status s h

HasStatus→is_wanted :
    (status : Option JobStatus) (j : Job) → HasStatus status j → is_wanted status j ≡ true
HasStatus→is_wanted none j h = refl
HasStatus→is_wanted (some s) j h = rw h (ground arith)

-- The statement behind the list of jobs returns at most `limit` rows of the table, each with the
-- status asked for if one is, each updated no later than those before it; and if it leaves out a row
-- with that status, it returns `limit` rows, none updated before the one left out.
-- No id stands twice.
pub select_recent_jobs_newest :
    (status : Option JobStatus) (limit : ℕ) (db : Database)
    → Unique db.jobs
    → (All (λ j. IsRow db.jobs j × HasStatus status j) (select_recent_jobs status limit db))
      × Sorted (λ a b. leb b.updated_at a.updated_at) (select_recent_jobs status limit db)
      × (length (select_recent_jobs status limit db) ≤ limit)
      × ((j : Job)
          → IsRow db.jobs j
          → HasStatus status j
          → any (λ b. b.id == j.id) (select_recent_jobs status limit db) ≡ false
          → (length (select_recent_jobs status limit db) ≡ limit)
            × All (λ b. j.updated_at ≤ b.updated_at) (select_recent_jobs status limit db))
select_recent_jobs_newest status limit db u =
    let (rows, in_order, few, least) = newest_rows status limit db u in
    (
      All-map _ (λ j r. (r.0, is_wanted→HasStatus status j r.1)) rows,
      in_order,
      few,
      λ j row wanted out.
          let (full, below) = least j row (HasStatus→is_wanted status j wanted) out in
          (full, All-map _ (λ b h. ground arith) below),
    )
