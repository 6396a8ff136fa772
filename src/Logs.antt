-- ===== src/Logs.antt =====
-- src/notify_queue/log.py: the root logger, its handlers and what `setup_logging` makes of them. The
-- directory of the log file is a flag; the handlers' output is the logging library's.
pub mod Setup
use notify_queue.Base.{ℕ, ◌*◌, Bool, true, List, [], ◌∷◌, ◌++◌, map, Text, codes, if◌then◌else◌}

-- Where a handler writes: the console, a rotating file with its `maxBytes` and `backupCount`, or
-- whatever a framework has installed.
pub data Target : Type 0 where
  console : Target
  rotating_file : Text → ℕ → ℕ → Target
  foreign : ℕ → Target

-- A handler with the components of its `_ComponentFilter`s, in their order, and its format.
pub record Handler : Type 0 where
  pub target : Target
  pub filters : List Text
  pub format : Text

-- The root logger; `installed` is the attribute `_nq_file_handler_installed`.
pub record Root : Type 0 where
  pub level : ℕ
  pub handlers : List Handler
  pub installed : Bool
  pub has_log_dir : Bool

abbrev pub log_format : Text
log_format = codes "%(asctime)s [%(component)s] %(name)s %(levelname)s %(message)s"

-- `_ComponentFilter.filter`, by each filter of a handler in turn: the last one's component stays.
unfoldable pub filtered : List Text → Text → Text
filtered [] component = component
filtered (c ∷ filters) component = filtered filters c

-- `addFilter` and `setFormatter`.
abbrev pub tagged : Text → Handler → Handler
tagged component h = record h { filters = h.filters ++ component ∷ []; format = log_format }

abbrev pub max_bytes : ℕ
max_bytes = 5 * 1024 * 1024

abbrev new_handler : Target → Handler
new_handler target = record { target = target; filters = []; format = [] }

-- A console only if there is no handler yet.
abbrev pub tagged_handlers : Text → List Handler → List Handler
tagged_handlers component [] = tagged component (new_handler Target.console) ∷ []
tagged_handlers component (h ∷ hs) = map (tagged component) (h ∷ hs)

abbrev pub file_handler : Text → Text → Handler
file_handler component log_file =
    tagged component (new_handler (Target.rotating_file log_file max_bytes 3))

unfoldable pub setup_logging : Text → ℕ → Text → Root → Root
setup_logging component level log_file root =
    let root' = record root { level = level; has_log_dir = true } in
    if root'.installed then root' else record root' {
      handlers = tagged_handlers component root'.handlers ++ file_handler component log_file ∷ [];
      installed = true;
    }
