-- ===== src/Logs/Setup.antt =====
-- `setup_logging` of src/notify_queue/log.py, called again and again.
use notify_queue.Base.{
  codes, ℕ, ◌≡◌, refl, sym, subst, ap, ◌∙◌, true, false, List, [], ◌∷◌, ◌++◌, map, Text, All,
}
use notify_queue.Logs.{
  Target, Handler, Root, filtered, tagged, tagged_handlers, file_handler, setup_logging,
}

-- The arguments of one call.
abbrev pub Call : Type 0
Call = Text × ℕ × Text

abbrev pub setup_all : List Call → Root → Root
setup_all [] root = root
setup_all ((component, level, log_file) ∷ calls) root =
    setup_all calls (setup_logging component level log_file root)

abbrev pub last_level : List Call → ℕ → ℕ
last_level [] level = level
last_level ((_, level, _) ∷ calls) _ = last_level calls level

-- Every record that passes the handler is tagged with this component, in the format that shows it.
abbrev pub IsTagged : Text → Handler → Type 0
IsTagged component h =
    ((before : Text) → filtered h.filters before ≡ component)
    × (h.format ≡ codes "%(asctime)s [%(component)s] %(name)s %(levelname)s %(message)s")

filtered-last : (filters : List Text) (c before : Text) → filtered (filters ++ c ∷ []) before ≡ c
unfolding filtered
filtered-last [] c before = refl
filtered-last (f ∷ filters) c before = filtered-last filters c f

tagged-IsTagged : (c : Text) (h : Handler) → IsTagged c (tagged c h)
tagged-IsTagged c h = (filtered-last h.filters c, refl)

added-IsTagged :
    (c file : Text) (hs : List Handler)
    → All (IsTagged c) (map (tagged c) hs ++ file_handler c file ∷ [])
added-IsTagged c file [] = ((filtered-last [] c, refl), tt)
added-IsTagged c file (h ∷ hs) = (tagged-IsTagged c h, added-IsTagged c file hs)

handlers-IsTagged :
    (c file : Text) (hs : List Handler)
    → All (IsTagged c) (tagged_handlers c hs ++ file_handler c file ∷ [])
handlers-IsTagged c file [] = ((filtered-last [] c, refl), added-IsTagged c file [])
handlers-IsTagged c file (h ∷ hs) = added-IsTagged c file (h ∷ hs)

setup_again :
    (calls : List Call) (root : Root)
    → root.installed ≡ true
    → root.has_log_dir ≡ true
    → setup_all calls root ≡ record root { level = last_level calls root.level }
unfolding setup_logging
setup_again [] root h d = refl
setup_again ((c, level, file) ∷ calls) root h d =
    ap (setup_all calls) (rw (h, d) refl) ∙ setup_again calls (record root { level = level }) h d

-- The handlers besides the file: a console if there was none, and each with the component and the format.
abbrev pub shown_by : Text → List Handler → List Handler
shown_by component [] =
    record {
      target = Target.console;
      filters = component ∷ [];
      format = codes "%(asctime)s [%(component)s] %(name)s %(levelname)s %(message)s";
    }
    ∷ []
shown_by component (h ∷ hs) =
    map
      (λ h. record {
        target = h.target;
        filters = h.filters ++ component ∷ [];
        format = codes "%(asctime)s [%(component)s] %(name)s %(levelname)s %(message)s";
      })
      (h ∷ hs)

-- However often a process sets its logging up, the handlers are those that the first call made: the
-- handlers that were there, or a console, and one file behind them that rotates at
-- 5 MiB with 3 backups, each tagging its records with the first call's component and showing it. Later calls change the level alone.
pub setup_logging_once :
    (component : Text) (level : ℕ) (log_file : Text) (calls : List Call) (root : Root)
    → root.installed ≡ false
    → let root' = setup_all ((component, level, log_file) ∷ calls) root in
      (root'.handlers
        ≡ shown_by component root.handlers
          ++ record {
            target = Target.rotating_file log_file 5_242_880 3;
            filters = component ∷ [];
            format = codes "%(asctime)s [%(component)s] %(name)s %(levelname)s %(message)s";
          }
            ∷ [])
      × All (IsTagged component) root'.handlers
      × (root'.level ≡ last_level calls level)
unfolding setup_logging
setup_logging_once component level log_file calls root h = (
  ap (λ r. r.handlers) whole,
  subst (λ hs. All (IsTagged component) hs) (sym (ap (λ r. r.handlers) whole))
      (handlers-IsTagged component log_file root.handlers),
  ap (λ r. r.level) whole,
)
  where
    first : Root
    first = record {
      level = level;
      handlers = tagged_handlers component root.handlers ++ file_handler component log_file ∷ [];
      installed = true;
      has_log_dir = true;
    }

    whole :
        setup_all ((component, level, log_file) ∷ calls) root
        ≡ record first { level = last_level calls level }
    whole = ap (setup_all calls) (rw h refl) ∙ setup_again calls first refl refl
