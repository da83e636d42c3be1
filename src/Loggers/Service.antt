-- ===== src/Loggers/Service.antt =====
-- The service logger: the level that the runtime configuration sets (Start of
-- witchcraft/witchcraft.go), and the meters of svc1logger.go and recorder.go in
-- witchcraft/internal/metricloggers. Whether a level lets a line through is the logging library's:
-- `enabled` is a parameter.
use mathlib.Core.List.{append-nil, append_assoc}
use text.Mathlib.Text.{◌==◌ as str_eq}
use witchcraft_go_server.Base.{
  Bool, not, Option, none, some, List, [], ◌∷◌, ◌++◌, String, if◌then◌else◌, ◌≡◌, refl, sym, ◌∙◌,
}

pub data Level : Type 0 where
  debug info warn error : Level

-- A logger of metricloggers over the service logger: its level, the lines that it has written, and
-- the marks of the meter of each level.
pub record Service : Type 0 where
  pub level : String
  pub lines : List (Level × String)
  pub marks : List Level

-- Debug, Info, Warn and Error of svc1Logger.
unfoldable pub log : (String → Level → Bool) → Level → String → Service → Service
log enabled l msg s = record s {
  lines = s.lines ++ (if enabled s.level l then (l, msg) ∷ [] else []);
  marks = s.marks ++ (l ∷ []);
}

-- The level after the configuration has come; `none` is a configuration without a logging block.
abbrev pub level_of : Option String → String → String
level_of none level = level
level_of (some l) level = if not (str_eq l "") then l else level

-- What the subscription of Start does.
unfoldable pub set_service_level : Option String → Service → Service
set_service_level cfg s = record s { level = level_of cfg s.level }

pub data ServiceCall : Type 0 where
  entry : Level → String → ServiceCall
  new_level : Option String → ServiceCall

unfoldable pub run_service : (String → Level → Bool) → List ServiceCall → Service → Service
unfolding log set_service_level
run_service enabled [] s = s
run_service enabled (entry l msg ∷ cs) s = run_service enabled cs (log enabled l msg s)
run_service enabled (new_level cfg ∷ cs) s = run_service enabled cs (set_service_level cfg s)

-- The level that is configured last and is not empty, else the given one.
unfoldable pub level_after : List ServiceCall → String → String
level_after [] level = level
level_after (entry l msg ∷ cs) level = level_after cs level
level_after (new_level cfg ∷ cs) level = level_after cs (level_of cfg level)

unfoldable pub let_through :
    (String → Level → Bool) → List ServiceCall → String → List (Level × String)
let_through enabled [] level = []
let_through enabled (entry l msg ∷ cs) level =
    (if enabled level l then (l, msg) ∷ [] else []) ++ let_through enabled cs level
let_through enabled (new_level cfg ∷ cs) level = let_through enabled cs (level_of cfg level)

unfoldable pub entry_levels : List ServiceCall → List Level
entry_levels [] = []
entry_levels (entry l msg ∷ cs) = l ∷ entry_levels cs
entry_levels (new_level cfg ∷ cs) = entry_levels cs

-- After any entries and reloads, the service log has the entries that the level in force let
-- through, in their order; the level is the last one configured that was not empty, so a reload
-- that takes the logging block away keeps it; and the meters count all entries, those too that the
-- level kept out of the log.
pub run_service_logs :
    (enabled : String → Level → Bool) (cs : List ServiceCall) (s : Service)
    → ((run_service enabled cs s).lines ≡ s.lines ++ let_through enabled cs s.level)
      × ((run_service enabled cs s).level ≡ level_after cs s.level)
      × ((run_service enabled cs s).marks ≡ s.marks ++ entry_levels cs)
unfolding run_service log set_service_level let_through level_after entry_levels
run_service_logs enabled [] s = (sym (append-nil _), refl, sym (append-nil _))
run_service_logs enabled (entry l msg ∷ cs) s =
    let s' = log enabled l msg s in
    let (lines, level, marks) = run_service_logs enabled cs s' in
    (
      lines
          ∙ append_assoc s.lines (if enabled s.level l then (l, msg) ∷ [] else [])
              (let_through enabled cs s.level),
      level,
      marks ∙ append_assoc s.marks (l ∷ []) (entry_levels cs),
    )
run_service_logs enabled (new_level cfg ∷ cs) s =
    run_service_logs enabled cs (set_service_level cfg s)
