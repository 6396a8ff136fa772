-- ===== src/Worker/Pool.antt =====
-- `main` of src/notify_queue/worker/__main__.py: the ids of the workers of one process. The host's
-- name, the process id and the UUIDs are the operating system's.
pub mod Names
use notify_queue.Base.{ℕ, zero, suc, ◌+◌, List, [], ◌∷◌, ◌++◌, Text, codes, take}
use notify_queue.Base.Decimal.{decimal}
use notify_queue.Settings.{Settings}

abbrev pub base_of : Text → ℕ → Text
base_of hostname pid = hostname ++ codes "-" ++ decimal pid

-- `hex` is that of a fresh UUID.
abbrev pub worker_name : Text → ℕ → Text → Text
worker_name base i hex = base ++ codes "-" ++ decimal i ++ codes "-" ++ take 6 hex

-- The names from place `i` on.
unfoldable pub names_from : Text → (ℕ → Text) → ℕ → ℕ → List Text
names_from base hexes zero i = []
names_from base hexes (suc left) i =
    worker_name base i (hexes i) ∷ names_from base hexes left (i + 1)

unfoldable pub worker_names : Text → ℕ → (ℕ → Text) → Settings → List Text
unfolding names_from
worker_names hostname pid hexes settings =
    names_from (base_of hostname pid) hexes settings.worker_count 0
