-- ===== src/TfCfg/Logging.antt =====
-- The levels of the loggers in framework/helpers/tf_cfg.py, with the numbers of `logging`.
use tempesta_test.Base.{
  ℕ, ◌||◌, List, [], ◌∷◌, Option, none, some, if◌then◌else◌, ltb, min, Result, ok, raise, ◌>>=◌,
  type_error,
}
use tempesta_test.Text.{Text, codes, same}

-- `logging._nameToLevel.get(name)`
abbrev pub level_of : Text → Option ℕ
level_of name =
    if same name (codes "CRITICAL") || same name (codes "FATAL")
    then some 50
    else if same name (codes "ERROR")
    then some 40
    else if same name (codes "WARNING") || same name (codes "WARN")
    then some 30
    else if same name (codes "INFO")
    then some 20
    else if same name (codes "DEBUG")
    then some 10
    else if same name (codes "NOTSET")
    then some 0
    else none

-- A level that is not known is `None`, which cannot be compared.
unfoldable pub known_level : Text → Result ℕ
known_level name = elim (level_of name) [ none ↦ raise type_error | some n ↦ ok n ]

-- A logger is no lower than the lower one of the two handlers.
unfoldable pub logger_level : ℕ → ℕ → ℕ → ℕ
logger_level file_lvl stream_lvl value =
    if ltb value (min file_lvl stream_lvl) then min file_lvl stream_lvl else value

-- The loop of `_init_loggers` over the section `Loggers`: the levels of the loggers but the handlers.
unfoldable pub logger_levels : ℕ → ℕ → List (Text × Text) → Result (List (Text × ℕ))
unfolding known_level logger_level
logger_levels file_lvl stream_lvl [] = ok []
logger_levels file_lvl stream_lvl ((name, value) ∷ l) =
    let rest = logger_levels file_lvl stream_lvl l in
    if same name (codes "stream_handler") || same name (codes "file_handler")
    then rest
    else known_level value >>= λ n.
        rest >>= λ levels. ok ((name, logger_level file_lvl stream_lvl n) ∷ levels)
